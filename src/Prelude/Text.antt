-- ===== src/Prelude/Text.antt =====
-- Rust's `str` as the native text, a sequence of code points, with the methods that the program
-- calls. Lengths are those of ASCII text, where a code point is a byte.
use Prim.Native.Nat.{ℕ, suc}
use Prim.Native.Char.{code}
use Prim.Native.String
use Prim.Native.String.{String, [], ◌∷◌}
use mathlib.Core.Bool.{Bool, true, false, ◌&&◌, ◌||◌}
use pingoo.Prelude.Tests.{leb, eqb, if◌then◌else◌}
use pingoo.Prelude.Equality.{string_eq}

abbrev pub str_len : String → ℕ
str_len [] = 0
str_len (c ∷ s) = suc (str_len s)

abbrev pub str_is_empty : String → Bool
str_is_empty [] = true
str_is_empty (c ∷ s) = false

-- `char::is_whitespace`: the code points of Unicode that are white space
abbrev pub is_space : ℕ → Bool
is_space c =
    eqb c 32
    || leb 9 c && leb c 13
    || eqb c 133
    || eqb c 160
    || eqb c 5760
    || leb 8192 c && leb c 8202
    || eqb c 8232
    || eqb c 8233
    || eqb c 8239
    || eqb c 8287
    || eqb c 12288

abbrev pub trim_start_by : (ℕ → Bool) → String → String
trim_start_by p [] = []
trim_start_by p (c ∷ s) = if p (code c) then trim_start_by p s else c ∷ s

abbrev pub trim_end_by : (ℕ → Bool) → String → String
trim_end_by p [] = []
trim_end_by p (c ∷ s) =
    let rest = trim_end_by p s in if str_is_empty rest && p (code c) then [] else c ∷ rest

abbrev pub trim : String → String
trim s = trim_end_by is_space (trim_start_by is_space s)

abbrev pub trim_start_matches : ℕ → String → String
trim_start_matches c s = trim_start_by (eqb c) s

abbrev pub trim_end_matches : ℕ → String → String
trim_end_matches c s = trim_end_by (eqb c) s

abbrev pub str_starts_with : String → String → Bool
str_starts_with s [] = true
str_starts_with [] (p ∷ ps) = false
str_starts_with (c ∷ s) (p ∷ ps) = eqb (code c) (code p) && str_starts_with s ps

abbrev pub str_contains : String → String → Bool
str_contains [] p = str_is_empty p
str_contains (c ∷ s) p = str_starts_with (c ∷ s) p || str_contains s p

abbrev pub str_ends_with : String → String → Bool
str_ends_with [] p = str_is_empty p
str_ends_with (c ∷ s) p = string_eq.same (c ∷ s) p || str_ends_with s p

abbrev pub any_char : (ℕ → Bool) → String → Bool
any_char p [] = false
any_char p (c ∷ s) = p (code c) || any_char p s

abbrev pub str_last_is : ℕ → String → Bool
str_last_is p [] = false
str_last_is p (c ∷ s) = if str_is_empty s then eqb (code c) p else str_last_is p s

-- `PathBuf::push` on Unix
unfoldable pub path_push : String → String → String
path_push root p =
    if str_starts_with p "/" || str_is_empty root
    then p
    else if str_last_is b'/' root
    then String.◌++◌ root p
    else String.◌++◌ root (String.◌++◌ "/" p)
