-- ===== src/Tls/Resolve.antt =====
-- What `resolve` of pingoo/tls/tls_manager.rs serves after `load_certificates`.
use pingoo.Prelude.{
  String, List, [], ◌∷◌, none, some, Bool, true, false, ◌≡◌, ◌⊎◌, inl, inr, refl, sym, ap, ◌∙◌,
  subst, arith, get, string_eq, find, In, Option-cases, Bool-cases, Result, ok, ◌>>=◌,
  if◌then◌else◌, is_empty, All,
}
use pingoo.Tls.{
  Certificate, TlsManager, matches_any, resolve, Entry, is_certificate_path, certificate_paths,
  insert_hostnames, Loaded, add_certificate, load_from, load_certificates,
}
use pingoo.Tls.Loading.{load_certificates-IsLoaded, load_from-first}

find-eq-some :
    (p : Certificate → Bool) (xs : List Certificate) (c : Certificate)
    → find p xs ≡ some c
    → p c ≡ true
find-eq-some p [] c h = ground arith
find-eq-some p (x ∷ xs) c h = elim (Bool-cases (p x)) [
  | inl e ↦ let same : x ≡ c = ground arith in subst (λ y. p y ≡ true) same e
  | inr e ↦ find-eq-some p xs c (ground arith)
]

find-In :
    (p : Certificate → Bool) (xs : List Certificate) (c : Certificate)
    → find p xs ≡ some c
    → In c xs
find-In p [] c h = ground arith
find-In p (x ∷ xs) c h = elim (Bool-cases (p x)) [
  | inl e ↦ inl (ground arith)
  | inr e ↦ inr (find-In p xs c (ground arith))
]

find-eq-none :
    (p : Certificate → Bool) (xs : List Certificate) → find p xs ≡ none → All (λ c. p c ≡ false) xs
find-eq-none p [] h = tt
find-eq-none p (x ∷ xs) h = elim (Bool-cases (p x)) [
  | inl e ↦ absurd (ground arith)
  | inr e ↦ (e, find-eq-none p xs (ground arith))
]

module _ {E : Type 0} (load_certificate : Entry → Result Certificate E)
    (is_match : String → String → Bool) (entries : List Entry) (loaded : Loaded)
    (default_certificate : Certificate)
    (run : load_certificates load_certificate entries ≡ ok loaded) where
  abbrev manager : TlsManager
  manager = record {
    default_certificate = default_certificate;
    certificates = loaded.0;
    wildcard_certificates = loaded.1;
  }

  -- The certificate that a connection gets is the one that the loaded map has under the name of the
  -- server that the client asks for, which its subject then names; or, where the map has none, a loaded
  -- one with a wildcard that matches the name; or, where none of these matches, the default one.
  pub resolve-cases :
      (sni : String)
      → (cert : Certificate) × ((resolve is_match manager sni ≡ cert.key)
          × (((get loaded.0 sni ≡ some cert) × In sni cert.hostnames)
              ⊎ ((get loaded.0 sni ≡ none)
                  × In cert loaded.1
                  × (matches_any is_match sni cert ≡ true))
              ⊎ ((get loaded.0 sni ≡ none)
                  × (All (λ c. matches_any is_match sni c ≡ false) loaded.1)
                  × (cert ≡ default_certificate))))
  unfolding resolve
  resolve-cases sni =
      let valid = load_certificates-IsLoaded load_certificate entries loaded run in
      elim (Option-cases (get loaded.0 sni)) [
        | inr (cert, e) ↦ (cert, (ground arith, inl (e, valid.named sni cert e)))
        | inl e ↦ elim (Option-cases (find (matches_any is_match sni) loaded.1)) [
          | inr (cert, f) ↦ (
            cert,
            (
              ground arith,
              inr (
                  inl (
                    e,
                    find-In (matches_any is_match sni) loaded.1 cert f,
                    find-eq-some (matches_any is_match sni) loaded.1 cert f,
                  )),
            ),
          )
          | inl f ↦ (
            default_certificate,
            (ground arith, inr (inr (e, find-eq-none (matches_any is_match sni) loaded.1 f, refl))),
          )
        ]
      ]

abbrev pub default_pem : Entry
default_pem = record { is_file = true; extension = "pem"; file_name = "default.pem" }

-- Where default.pem is the first entry of the directory, its certificate is loaded with the others,
-- and it is served for every server name that it matches with a wildcard and no certificate names,
-- also where another certificate with a wildcard matches.
pub resolve-default_pem :
    {E : Type 0} (load_certificate : Entry → Result Certificate E)
    (is_match : String → String → Bool) (entries : List Entry) (loaded : Loaded)
    (d default_certificate : Certificate) (sni : String)
    → load_certificates load_certificate (default_pem ∷ entries) ≡ ok loaded
    → load_certificate default_pem ≡ ok d
    → is_empty d.wildcard_matchers ≡ false
    → matches_any is_match sni d ≡ true
    → get loaded.0 sni ≡ none
    → resolve is_match
        (record {
          default_certificate = default_certificate;
          certificates = loaded.0;
          wildcard_certificates = loaded.1;
        })
        sni
      ≡ d.key
unfolding load_certificates certificate_paths is_certificate_path load_from add_certificate resolve
resolve-default_pem {E = E} load_certificate is_match entries loaded d default_certificate sni run
      got wild match unnamed =
    let paths = certificate_paths entries in
    let m = insert_hostnames [] d d.hostnames in
    let next : Certificate → Result Loaded E =
      λ cert. load_from load_certificate (add_certificate ([], []) cert) paths in
    let run' : next d ≡ ok loaded = ap (λ (r : Result Certificate E). r >>= next) (sym got) ∙ run in
    let run'' : load_from load_certificate (m, d ∷ []) paths ≡ ok loaded =
      ap (λ (b : Bool). load_from load_certificate (m, if b then [] else d ∷ []) paths) (sym wild)
      ∙ run' in
    let (more, listed) = load_from-first load_certificate m d [] loaded paths run'' in
    let found : find (matches_any is_match sni) loaded.1 ≡ some d =
      ap (λ xs. find (matches_any is_match sni) xs) listed ∙ ground arith in
    ground (arith, unnamed, found)
