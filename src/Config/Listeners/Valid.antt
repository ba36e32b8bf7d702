-- ===== src/Config/Listeners/Valid.antt =====
-- What `validate_listeners_config` accepts: no more and no less.
use pingoo.Prelude.{
  ℕ, suc, ◌+◌, ◌≡◌, ◌≢◌, ◌≤◌, ◌↔◌, ◌⊎◌, String, List, [], ◌∷◌, ◌++◌, map, true, HashMap, ok,
  contains_key, length, length-append, ◌<◌, string_eq, NoDup, In, All, arith,
}
use mathlib.Core.List.{append_assoc}
use pingoo.Config.{ListenerConfig, ServiceConfig}
use pingoo.Config.Duplicates.{find_duplicate-eq-none_iff}
use pingoo.Config.Listeners.{
  is_tcp, check_ports, check_known, check_listener, check_from, validate_listeners_config,
}

abbrev pub port_of : ListenerConfig → ℕ
port_of l = l.address.port

module _ {Expr : Type 0} (services : HashMap String (ServiceConfig Expr)) where
  -- A listener has services, just one if it is a TCP listener, each of them configured, none twice.
  pub record IsServed (l : ListenerConfig) : Type 0 where
    pub some_service : l.services ≢ []
    pub single : is_tcp l.protocol ≡ true → length l.services ≤ 1
    pub known : All (λ s. contains_key services s ≡ true) l.services
    pub distinct : NoDup l.services

-- The port differs from those of all listeners but the one at position `i`.
abbrev Alone : ℕ → ℕ → ℕ → List ℕ → Type 0
Alone i p j [] = Unit
Alone i p j (q ∷ qs) = ((i ≡ j) ⊎ (p ≢ q)) × Alone i p (suc j) qs

check_ports_iff :
    (i : ℕ) (l : ListenerConfig) (j : ℕ) (os : List ListenerConfig)
    → (check_ports i l j os ≡ ok tt) ↔ Alone i (port_of l) j (map port_of os)
unfolding check_ports
check_ports_iff i l j [] = ground arith
check_ports_iff i l j (o ∷ os) = ground (arith, check_ports_iff i l (suc j) os)

abbrev Differs : ℕ → List ℕ → Type 0
Differs p qs = All (λ q. p ≢ q) qs

Differs-In : (p : ℕ) (qs : List ℕ) → Differs p qs ↔ (¬ (In p qs))
Differs-In p [] = (λ _ h. h, λ _. tt)
Differs-In p (q ∷ qs) = ground (arith, Differs-In p qs)

Differs-append : (p : ℕ) (qs rs : List ℕ) → Differs p (qs ++ rs) ↔ (Differs p qs × Differs p rs)
Differs-append p [] rs = ground arith
Differs-append p (q ∷ qs) rs = ground (arith, Differs-append p qs rs)

-- behind position `i` there is no exception
Alone-Differs : (i p j : ℕ) (qs : List ℕ) → i < j → Alone i p j qs ↔ Differs p qs
Alone-Differs i p j [] h = ground arith
Alone-Differs i p j (q ∷ qs) h = ground (arith, Alone-Differs i p (suc j) qs)

Alone-append :
    (pre : List ℕ) (p : ℕ) (rest : List ℕ) (i j : ℕ)
    → i ≡ j + length pre
    → Alone i p j (pre ++ p ∷ rest) ↔ (Differs p pre × Differs p rest)
Alone-append [] p rest i j e = ground (arith, Alone-Differs i p (suc j) rest)
Alone-append (q ∷ pre) p rest i j e = ground (arith, Alone-append pre p rest i (suc j))

abbrev AllAlone : List ℕ → ℕ → List ℕ → Type 0
AllAlone ps i [] = Unit
AllAlone ps i (q ∷ qs) = Alone i q 0 ps × AllAlone ps (suc i) qs

-- no port of the second list is in the first
abbrev Apart : List ℕ → List ℕ → Type 0
Apart pre rest = All (λ q. Differs q pre) rest

Apart-snoc :
    (pre : List ℕ) (p : ℕ) (rest : List ℕ)
    → Apart (pre ++ p ∷ []) rest ↔ (Apart pre rest × Differs p rest)
Apart-snoc pre p [] = ground arith
Apart-snoc pre p (q ∷ rest) = ground (arith, Differs-append q pre (p ∷ []), Apart-snoc pre p rest)

AllAlone-Apart :
    (pre rest ps : List ℕ) (i : ℕ)
    → ps ≡ pre ++ rest
    → i ≡ length pre
    → AllAlone ps i rest ↔ (Apart pre rest × NoDup rest)
AllAlone-Apart pre [] ps i e l = ground arith
AllAlone-Apart pre (p ∷ rest) ps i e l = ground (
  arith,
  Alone-append pre p rest i 0,
  Differs-In p rest,
  Apart-snoc pre p rest,
  append_assoc pre (p ∷ []) rest,
  length-append pre (p ∷ []),
  AllAlone-Apart (pre ++ p ∷ []) rest ps (suc i),
)

Apart-nil : (rest : List ℕ) → Apart [] rest
Apart-nil [] = tt
Apart-nil (p ∷ rest) = (tt, Apart-nil rest)

module _ {Expr : Type 0} (services : HashMap String (ServiceConfig Expr)) where
  check_known_iff :
      (name : String) (ss : List String)
      → (check_known services name ss ≡ ok tt) ↔ All (λ s. contains_key services s ≡ true) ss
  unfolding check_known
  check_known_iff name [] = ground arith
  check_known_iff name (s ∷ ss) = ground (arith, check_known_iff name ss)

  check_listener_iff :
      (all : List ListenerConfig) (i : ℕ) (l : ListenerConfig)
      → (check_listener services all i l ≡ ok tt)
        ↔ (Alone i (port_of l) 0 (map port_of all) × IsServed services l)
  unfolding check_listener
  check_listener_iff all i l = ground (
    arith,
    check_ports_iff i l 0 all,
    check_known_iff l.name l.services,
    find_duplicate-eq-none_iff l.services,
  )

  check_from_iff :
      (all : List ListenerConfig) (i : ℕ) (ls : List ListenerConfig)
      → (check_from services all i ls ≡ ok tt)
        ↔ (AllAlone (map port_of all) i (map port_of ls) × All (IsServed services) ls)
  unfolding check_from
  check_from_iff all i [] = ground arith
  check_from_iff all i (l ∷ ls) =
      ground (arith, check_listener_iff all i l, check_from_iff all (suc i) ls)

  -- The listeners pass exactly when no two of them share a port and every one of them has a service,
  -- only one if it is a TCP listener, all of them configured and none named twice.
  pub validate_listeners_config_iff :
      (ls : List ListenerConfig)
      → (validate_listeners_config ls services ≡ ok tt)
        ↔ (NoDup (map port_of ls) × All (IsServed services) ls)
  unfolding validate_listeners_config
  validate_listeners_config_iff ls = ground (
    arith,
    check_from_iff ls 0 ls,
    AllAlone-Apart [] (map port_of ls) (map port_of ls) 0,
    Apart-nil (map port_of ls),
  )
