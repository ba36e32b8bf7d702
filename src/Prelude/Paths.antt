-- ===== src/Prelude/Paths.antt =====
-- `PathBuf::push` of a file's name and extension.
use Prim.Native.String.{String, [], ◌∷◌, ◌++◌}
use Prim.Native.String.append.{nil, cons}
use mathlib.Core.Path.{◌≡◌, refl, ap, sym, ◌∙◌}
use mathlib.Core.Logic.{inl, inr}
use mathlib.Core.Bool.{false, ◌||◌}
use text.Mathlib.TextLemmas.{append_assoc}
use pingoo.Prelude.Tests.{Bool-cases}
use pingoo.Prelude.Text.{str_starts_with, str_is_empty, str_last_is, path_push}
use pingoo.Prelude.Split.{append}

append-eq : (s t : String) → append s t ≡ s ++ t
append-eq [] t = sym (λ i. nil t i)
append-eq (c ∷ s) t = ap (λ r. c ∷ r) (append-eq s t) ∙ sym (λ i. cons c s t i)

join-append : (root d ext : String) → root ++ append d ext ≡ append (root ++ d) ext
join-append root d ext =
    ap (λ r. root ++ r) (append-eq d ext)
    ∙ sym (append_assoc root d ext)
    ∙ sym (append-eq (root ++ d) ext)

starts_with-append :
    (d ext : String)
    → str_starts_with ext "/" ≡ false
    → str_starts_with (append d ext) "/" ≡ str_starts_with d "/"
starts_with-append [] ext h = h
starts_with-append (c ∷ d) ext h = refl

-- The name with its extension, behind a folder, is the name behind the folder with the extension.
pub path_push-append :
    (root d ext : String)
    → str_starts_with ext "/" ≡ false
    → path_push root (append d ext) ≡ append (path_push root d) ext
unfolding path_push
path_push-append root d ext h =
    let same = starts_with-append d ext h in
    elim (Bool-cases (str_starts_with d "/" || str_is_empty root)) [
      | inl e ↦ rw (same, e) refl
      | inr e ↦ elim (Bool-cases (str_last_is 47 root)) [
        | inl f ↦ rw (same, e, f) (join-append root d ext)
        | inr f ↦
            rw (same, e, f)
              (ap (λ r. root ++ r) (join-append "/" d ext) ∙ join-append root ("/" ++ d) ext)
      ]
    ]
