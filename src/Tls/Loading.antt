-- ===== src/Tls/Loading.antt =====
-- The map and the list of certificates that `load_certificates` of pingoo/tls/tls_manager.rs builds.
use pingoo.Prelude.{
  String, List, [], ◌∷◌, ◌++◌, some, Bool, true, false, ◌≡◌, inl, inr, refl, sym, ap, ◌∙◌, subst,
  arith, HashMap, get, insert, get-insert, string_eq, In, Bool-cases, Result, ok, bind-eq-ok,
  ok-injective, if◌then◌else◌, is_empty, contains, contains_iff, All,
}
use pingoo.Tls.{
  Certificate, Entry, certificate_paths, insert_hostnames, Loaded, add_certificate, load_from,
  load_certificates,
}

get-insert_hostnames :
    (m : HashMap String Certificate) (cert : Certificate) (names : List String) (s : String)
    → get (insert_hostnames m cert names) s ≡ (if contains names s then some cert else get m s)
unfolding insert_hostnames
get-insert_hostnames m cert [] s = refl
get-insert_hostnames m cert (n ∷ names) s =
    ground (arith, get-insert_hostnames (insert m n cert) cert names s, get-insert m n cert s)

-- Every certificate in the map stands under a name of its subject, and those with a wildcard are listed.
pub record IsLoaded (loaded : Loaded) : Type 0 where
  pub named : (s : String) (cert : Certificate) → get loaded.0 s ≡ some cert → In s cert.hostnames
  pub wild : All (λ cert. is_empty cert.wildcard_matchers ≡ false) loaded.1

append-wild :
    (xs : List Certificate) (cert : Certificate)
    → All (λ c. is_empty c.wildcard_matchers ≡ false) xs
    → is_empty cert.wildcard_matchers ≡ false
    → All (λ c. is_empty c.wildcard_matchers ≡ false) (xs ++ (cert ∷ []))
append-wild [] cert h e = (e, tt)
append-wild (x ∷ xs) cert h e = (h.0, append-wild xs cert h.1 e)

append_if-wild :
    (b : Bool) (xs : List Certificate) (cert : Certificate)
    → All (λ c. is_empty c.wildcard_matchers ≡ false) xs
    → is_empty cert.wildcard_matchers ≡ b
    → All (λ c. is_empty c.wildcard_matchers ≡ false) (if b then xs else xs ++ (cert ∷ []))
append_if-wild true xs cert h e = h
append_if-wild false xs cert h e = append-wild xs cert h e

add_certificate-IsLoaded :
    (loaded : Loaded) (cert : Certificate)
    → IsLoaded loaded
    → IsLoaded (add_certificate loaded cert)
unfolding add_certificate
add_certificate-IsLoaded (m, wild) cert h = record {
  named = λ s c e.
      let eq = sym (get-insert_hostnames m cert cert.hostnames s) ∙ e in
      elim (Bool-cases (contains cert.hostnames s)) [
        | inl here ↦
            let same : cert ≡ c = ground arith in
            subst (λ (x : Certificate). In s x.hostnames) same
              ((contains_iff cert.hostnames s).0 here)
        | inr there ↦ h.named s c (ground arith)
      ];
  wild = append_if-wild (is_empty cert.wildcard_matchers) wild cert h.wild refl;
}

module _ {E : Type 0} (load_certificate : Entry → Result Certificate E) where
  load_from-IsLoaded :
      (loaded result : Loaded) (paths : List Entry)
      → IsLoaded loaded
      → load_from load_certificate loaded paths ≡ ok result
      → IsLoaded result
  unfolding load_from
  load_from-IsLoaded loaded result [] h e = subst IsLoaded (ok-injective E e) h
  load_from-IsLoaded loaded result (p ∷ paths) h e =
      let (cert, got, rest) =
        bind-eq-ok (load_certificate p)
          (λ cert. load_from load_certificate (add_certificate loaded cert) paths) e in
      load_from-IsLoaded (add_certificate loaded cert) result paths
        (add_certificate-IsLoaded loaded cert h) rest

  start-IsLoaded : IsLoaded ([], [])
  unfolding get
  start-IsLoaded = record { named = λ s c e. absurd (ground arith); wild = tt }

  pub load_certificates-IsLoaded :
      (entries : List Entry) (result : Loaded)
      → load_certificates load_certificate entries ≡ ok result
      → IsLoaded result
  unfolding load_certificates
  load_certificates-IsLoaded entries result e =
      load_from-IsLoaded ([], []) result (certificate_paths entries) start-IsLoaded e

  -- the first wildcard certificate stays first
  pub load_from-first :
      (m : HashMap String Certificate) (d : Certificate) (wild : List Certificate) (result : Loaded)
      (paths : List Entry)
      → load_from load_certificate (m, d ∷ wild) paths ≡ ok result
      → (more : List Certificate) × (result.1 ≡ d ∷ more)
  unfolding load_from add_certificate
  load_from-first m d wild result [] e = (wild, ap (λ (x : Loaded). x.1) (sym (ok-injective E e)))
  load_from-first m d wild result (p ∷ paths) e =
      let (cert, got, rest) =
        bind-eq-ok (load_certificate p)
          (λ cert. load_from load_certificate (add_certificate (m, d ∷ wild) cert) paths) e in
      let m' = insert_hostnames m cert cert.hostnames in
      elim (Bool-cases (is_empty cert.wildcard_matchers)) [
        | inl none_new ↦ load_from-first m' d wild result paths (
            ap
              (λ (b : Bool).
                load_from load_certificate (m', if b then d ∷ wild else d ∷ (wild ++ (cert ∷ [])))
                  paths)
              (sym none_new)
            ∙ rest)
        | inr new ↦ load_from-first m' d (wild ++ (cert ∷ [])) result paths (
            ap
              (λ (b : Bool).
                load_from load_certificate (m', if b then d ∷ wild else d ∷ (wild ++ (cert ∷ [])))
                  paths)
              (sym new)
            ∙ rest)
      ]
