-- ===== src/Config/Load/Sources.antt =====
-- Where the services that `load_and_validate` of pingoo/config/config.rs loads come from, and which of
-- them a listener gets by default.
use pingoo.Prelude.{
  String, List, [], ◌∷◌, map, Bool, true, Bool-cases, ◌≡◌, ◌↔◌, ◌⊎◌, inl, inr, refl, subst, ap, ◌∙◌,
  sym, arith, ok, collect, bind-eq-ok, ok-injective, All, All-weaken, In, NoDup, HashMap, keys,
  insert, In-keys-insert, NoDup-keys-insert, string_eq, ◌==◌,
}
use mathlib.Core.Path.{ap₂}
use pingoo.Config.{ServiceConfig, ConfigError}
use pingoo.Config.File.{ServiceConfigFile, Parsers, parse_service}
use pingoo.Config.File.Services.{IsService, parse_service-IsService}
use pingoo.Config.Load.{extend, values, parse_named, load_services, service_names}
use pingoo.Config.Load.Named.{Named}

module _ {Expr : Type 0} where
  abbrev pub names : List (ServiceConfig Expr) → List String
  names services = map (λ (s : ServiceConfig Expr). s.name) services

  pub names-values :
      (services : HashMap String (ServiceConfig Expr))
      → Named services
      → names (values services) ≡ keys services
  names-values [] h = refl
  names-values ((name, s) ∷ services) (here, rest) =
      ground (arith, here, names-values services rest)

  -- A service that is in the list has the name and the property.
  abbrev pub IsNamed : (ServiceConfig Expr → Bool) → List (ServiceConfig Expr) → String → Type 0
  IsNamed p services name =
      (s : ServiceConfig Expr) × (In s services × (s.name ≡ name) × (p s ≡ true))

  pub service_names_iff :
      (p : ServiceConfig Expr → Bool) (services : HashMap String (ServiceConfig Expr))
      → Named services
      → (name : String) → In name (service_names p services) ↔ IsNamed p (values services) name
  unfolding service_names
  service_names_iff p [] named name = (λ i. absurd i, λ (s, (i, e, k)). i)
  service_names_iff p ((k, s) ∷ services) (here, rest) name =
      let (to, from) = service_names_iff p services rest name in
      elim (Bool-cases (p s)) [
        | inl e ↦ rw e (
          λ i. elim i [
            | inl same ↦ (s, (inl refl, here ∙ same, e))
            | inr j ↦ let (s', (k', n, q)) = to j in (s', (inr k', n, q))
          ],
          λ (s', (i, n, q)). elim i [
            | inl same ↦ inl (sym here ∙ ap (λ (x : ServiceConfig Expr). x.name) same ∙ n)
            | inr j ↦ inr (from (s', (j, n, q)))
          ],
        )
        | inr e ↦ rw e (
          λ i. let (s', (k', n, q)) = to i in (s', (inr k', n, q)),
          λ (s', (i, n, q)). elim i [
            | inl same ↦ absurd (ground (arith, e, q, ap p same))
            | inr j ↦ from (s', (j, n, q))
          ],
        )
      ]

  module _ (P : String × ServiceConfig Expr → Type 0) where
    insert-All :
        (services : HashMap String (ServiceConfig Expr)) (name : String) (s : ServiceConfig Expr)
        → All P services
        → P (name, s)
        → All P (insert services name s)
    unfolding insert
    insert-All [] name s h p = (p, tt)
    insert-All ((k, v) ∷ services) name s (here, rest) p = elim (Bool-cases (k == name)) [
      | inl same ↦ rw same (p, rest)
      | inr differs ↦ rw differs (here, insert-All services name s rest p)
    ]

    extend-All :
        (services parsed : HashMap String (ServiceConfig Expr))
        → All P services
        → All P parsed
        → All P (extend services parsed)
    unfolding extend
    extend-All services [] h k = h
    extend-All services ((name, s) ∷ parsed) h (here, rest) =
        extend-All (insert services name s) parsed (insert-All services name s h here) rest

  extend-keys :
      (services parsed : HashMap String (ServiceConfig Expr)) (name : String)
      → In name (keys (extend services parsed)) ↔ (In name (keys services) ⊎ In name (keys parsed))
  unfolding extend
  extend-keys services [] name = ground arith
  extend-keys services ((k, s) ∷ parsed) name =
      ground
        (arith, extend-keys (insert services k s) parsed name, In-keys-insert services k s name)

  extend-NoDup :
      (services parsed : HashMap String (ServiceConfig Expr))
      → NoDup (keys services)
      → NoDup (keys (extend services parsed))
  unfolding extend
  extend-NoDup services [] h = h
  extend-NoDup services ((k, s) ∷ parsed) h =
      extend-NoDup (insert services k s) parsed (NoDup-keys-insert services k s h)

  -- The service is the valid reading of an entry of the file, under its name.
  abbrev pub IsFrom : HashMap String ServiceConfigFile → String × ServiceConfig Expr → Type 0
  IsFrom files (name, s) = (f : ServiceConfigFile) × (In (name, f) files × IsService Expr name f s)

  IsFrom-cons :
      (entry : String × ServiceConfigFile) (files : HashMap String ServiceConfigFile)
      (p : String × ServiceConfig Expr)
      → IsFrom files p
      → IsFrom (entry ∷ files) p
  IsFrom-cons entry files (name, s) (f, (i, valid)) = (f, (inr i, valid))

  module _ (parsers : Parsers Expr) where
    parse_named-IsFrom :
        (entry : String × ServiceConfigFile) (files : HashMap String ServiceConfigFile)
        (p : String × ServiceConfig Expr)
        → parse_named parsers entry ≡ ok p
        → IsFrom (entry ∷ files) p × (p.0 ≡ entry.0)
    parse_named-IsFrom (name, service) files p h =
        let (s, e, r) = bind-eq-ok (parse_service parsers name service) (λ s. ok (name, s)) h in
        subst
          (λ (x : String × ServiceConfig Expr). IsFrom ((name, service) ∷ files) x × (x.0 ≡ name))
          (ok-injective ConfigError r)
          ((service, (inl refl, parse_service-IsService Expr parsers name service s e)), refl)

    collect-IsFrom :
        (files : HashMap String ServiceConfigFile) (parsed : HashMap String (ServiceConfig Expr))
        → collect (parse_named parsers) files ≡ ok parsed
        → All (IsFrom files) parsed × (keys parsed ≡ keys files)
    unfolding collect
    collect-IsFrom [] parsed h =
        subst (λ ps. All (IsFrom []) ps × (keys ps ≡ [])) (ok-injective ConfigError h) (tt, refl)
    collect-IsFrom (entry ∷ files) parsed h =
        let (p, e1, r1) = bind-eq-ok (parse_named parsers entry) _ h in
        let (ps, e2, r2) = bind-eq-ok (collect (parse_named parsers) files) _ r1 in
        let (from, same) = parse_named-IsFrom entry files p e1 in
        let (rest, names') = collect-IsFrom files ps e2 in
        subst (λ xs. All (IsFrom (entry ∷ files)) xs × (keys xs ≡ keys (entry ∷ files)))
          (ok-injective ConfigError r2)
          (
            (
              from,
              All-weaken (IsFrom files) (IsFrom (entry ∷ files)) ps (IsFrom-cons entry files) rest,
            ),
            ap₂ ◌∷◌ same names',
          )

    pub load_services-IsFrom :
        (files : HashMap String ServiceConfigFile) (services : HashMap String (ServiceConfig Expr))
        → load_services parsers files ≡ ok services
        → All (IsFrom files) services
          × NoDup (keys services)
          × ((name : String) → In name (keys services) ↔ In name (keys files))
    unfolding load_services
    load_services-IsFrom files services h =
        let (parsed, e, r) = bind-eq-ok (collect (parse_named parsers) files) _ h in
        let (from, same) = collect-IsFrom files parsed e in
        subst
          (λ (ss : HashMap String (ServiceConfig Expr)).
            All (IsFrom files) ss
            × NoDup (keys ss)
            × ((name : String) → In name (keys ss) ↔ In name (keys files)))
          (ok-injective ConfigError r)
          (
            extend-All (IsFrom files) [] parsed tt from,
            extend-NoDup [] parsed tt,
            λ name.
                subst (λ ks. In name (keys (extend [] parsed)) ↔ In name ks) same
                  (ground (arith, extend-keys [] parsed name)),
          )
