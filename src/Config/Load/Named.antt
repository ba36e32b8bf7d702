-- ===== src/Config/Load/Named.antt =====
-- The services that `load_and_validate` of pingoo/config/config.rs loads stand under their names.
use pingoo.Prelude.{
  String, [], ◌∷◌, Bool-cases, ◌≡◌, inl, inr, subst, ok, collect, bind-eq-ok, ok-injective, All,
  HashMap, insert, string_eq, ◌==◌,
}
use pingoo.Config.{ServiceConfig, ConfigError}
use pingoo.Config.File.{ServiceConfigFile, Parsers, parse_service}
use pingoo.Config.File.Services.{parse_service-IsService}
use pingoo.Config.Load.{extend, parse_named, load_services}

module _ {Expr : Type 0} where
  -- The services stand under their names.
  abbrev pub Named : HashMap String (ServiceConfig Expr) → Type 0
  Named services = All (λ (p : String × ServiceConfig Expr). p.1.name ≡ p.0) services

  insert-Named :
      (services : HashMap String (ServiceConfig Expr)) (name : String) (s : ServiceConfig Expr)
      → Named services
      → s.name ≡ name
      → Named (insert services name s)
  unfolding insert
  insert-Named [] name s h e = (e, tt)
  insert-Named ((k, v) ∷ services) name s (here, rest) e = elim (Bool-cases (k == name)) [
    | inl same ↦ rw same (e, rest)
    | inr differs ↦ rw differs (here, insert-Named services name s rest e)
  ]

  extend-Named :
      (services parsed : HashMap String (ServiceConfig Expr))
      → Named services
      → Named parsed
      → Named (extend services parsed)
  unfolding extend
  extend-Named services [] h k = h
  extend-Named services ((name, s) ∷ parsed) h (here, rest) =
      extend-Named (insert services name s) parsed (insert-Named services name s h here) rest

  module _ (parsers : Parsers Expr) where
    parse_named-Named :
        (entry : String × ServiceConfigFile) (p : String × ServiceConfig Expr)
        → parse_named parsers entry ≡ ok p
        → p.1.name ≡ p.0
    parse_named-Named (name, service) p h =
        let (s, e, r) = bind-eq-ok (parse_service parsers name service) (λ s. ok (name, s)) h in
        subst (λ (x : String × ServiceConfig Expr). x.1.name ≡ x.0) (ok-injective ConfigError r)
          (parse_service-IsService Expr parsers name service s e).named

    collect-Named :
        (entries : HashMap String ServiceConfigFile) (parsed : HashMap String (ServiceConfig Expr))
        → collect (parse_named parsers) entries ≡ ok parsed
        → Named parsed
    unfolding collect
    collect-Named [] parsed h = subst Named (ok-injective ConfigError h) tt
    collect-Named (entry ∷ entries) parsed h =
        let (p, e1, r1) = bind-eq-ok (parse_named parsers entry) _ h in
        let (ps, e2, r2) = bind-eq-ok (collect (parse_named parsers) entries) _ r1 in
        subst Named (ok-injective ConfigError r2)
          (parse_named-Named entry p e1, collect-Named entries ps e2)

    pub load_services-Named :
        (files : HashMap String ServiceConfigFile) (services : HashMap String (ServiceConfig Expr))
        → load_services parsers files ≡ ok services
        → Named services
    unfolding load_services
    load_services-Named files services h =
        let (parsed, e, r) = bind-eq-ok (collect (parse_named parsers) files) _ h in
        subst Named (ok-injective ConfigError r)
          (extend-Named [] parsed tt (collect-Named files parsed e))
