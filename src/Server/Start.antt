-- ===== src/Server/Start.antt =====
-- Which services the listeners of pingoo/server.rs can be made with.
use pingoo.Prelude.{
  String, List, [], ◌∷◌, some, ◌≡◌, ◌↔◌, inl, inr, arith, contains, contains_iff, In, All,
  string_eq, Option-cases, Bool-cases,
}
use pingoo.Config.{ListenerConfig, ListenerProtocol, tcp, tcp_and_tls, http, https}
use pingoo.Server.{first_service, all_services, services_for}

-- The services that a listener should be made with.
abbrev pub served_services : ListenerProtocol → List String → List String
served_services http names = names
served_services https names = names
served_services _ [] = []
served_services _ (s ∷ ss) = s ∷ []

abbrev pub HeadIn : List String → List String → Type 0
HeadIn known [] = ⊥
HeadIn known (s ∷ ss) = In s known

-- The services of a listener are of its protocol's kind: the first one, or all.
abbrev pub IsServable : List String → List String → ListenerProtocol → List String → Type 0
IsServable tcps https' http names = All (λ s. In s https') names
IsServable tcps https' https names = All (λ s. In s https') names
IsServable tcps https' _ names = HeadIn tcps names

first_service_lem :
    (known names xs : List String)
    → (first_service known names ≡ some xs)
      ↔ (HeadIn known names × (xs ≡ served_services tcp names))
first_service_lem known [] xs = ground arith
first_service_lem known (s ∷ ss) xs = elim (Bool-cases (contains known s)) [
  | inl e ↦ ground (arith, contains_iff known s)
  | inr e ↦ ground (arith, contains_iff known s)
]

all_services_lem :
    (known names xs : List String)
    → (all_services known names ≡ some xs) ↔ (All (λ s. In s known) names × (xs ≡ names))
all_services_lem known [] xs = ground arith
all_services_lem known (s ∷ ss) xs = elim (Option-cases (all_services known ss)) [
  | inl e ↦ ground (arith, e, contains_iff known s, all_services_lem known ss ss)
  | inr (ys, e) ↦
      ground
        (arith, e, contains_iff known s, all_services_lem known ss ys, all_services_lem known ss ss)
]

pub services_for-eq-some_iff :
    (tcps https' : List String) (p : ListenerProtocol) (names xs : List String)
    → (services_for tcps https' p names ≡ some xs)
      ↔ (IsServable tcps https' p names × (xs ≡ served_services p names))
unfolding services_for
services_for-eq-some_iff tcps https' tcp names xs = first_service_lem tcps names xs
services_for-eq-some_iff tcps https' tcp_and_tls names xs = first_service_lem tcps names xs
services_for-eq-some_iff tcps https' http names xs = all_services_lem https' names xs
services_for-eq-some_iff tcps https' https names xs = all_services_lem https' names xs

abbrev pub AllServable : List String → List String → List ListenerConfig → Type 0
AllServable tcps https' ls =
    All (λ (l : ListenerConfig). IsServable tcps https' l.protocol l.services) ls
