-- ===== src/HttpListener/Handler.antt =====
-- The whole handler of pingoo/listeners/http_listener.rs: which requests reach which service, and who
-- is shown the captcha.
use pingoo.Prelude.{
  String, List, [], ◌∷◌, Option, none, some, Bool, true, false, ◌≡◌, ◌↔◌, ◌⊎◌, inl, inr, refl, find,
  arith, Bool-cases, Option-cases, str_starts_with, ap, sym, ◌∙◌, subst, ◌≢◌, if◌then◌else◌,
}
use pingoo.Net.{IpAddr, SocketAddr}
use pingoo.Http.{get_path, new_blocked_response}
use pingoo.RateLimiter.{Delivery}
use pingoo.Rules.{Evaluator}
use pingoo.HttpListener.{
  Request, RequestContext, Reply, canned, captcha_page, captcha_request, served_by, Flow, respond,
  next, apply_rules, HttpService, Listener, route, filter_and_route, finish, handle_request,
  captcha_state, cookies_of, client_id_of, rules_context_of, request_context_of, captcha_path,
  get_user_agent, bad_user_agent,
}
use pingoo.HttpListener.Rules.{
  RulesPass, FlowReply, apply_rules-FlowReply, apply_rules-eq-next, apply_rules-next, finish-eq,
}

module _ {Expr S : Type 0} (bel : Evaluator Expr) (send : S → String → IpAddr → S × Delivery) where
  open bel use {Context}

  -- The first service that matches, by its name.
  abbrev pub IsRoute : Context → List (HttpService bel send) → String → Type 0
  IsRoute ctx [] name = ⊥
  IsRoute ctx (x ∷ services) name =
      ((x.matches ctx ≡ true) × (x.name ≡ name))
      ⊎ ((x.matches ctx ≡ false) × IsRoute ctx services name)

  -- What is asked of a request that a service gets.
  pub record IsServed (l : Listener bel send) (req : Request) (client : SocketAddr) (s t : S)
      (name : String) : Type 0 where
    agent : bad_user_agent (get_user_agent req) ≡ false
    path : str_starts_with (get_path req.uri_path) captcha_path ≡ false
    verified : Bool
    cookie :
        captcha_state bel send l (cookies_of bel send l req) (client_id_of bel send l req client)
        ≡ some verified
    rules :
        RulesPass bel send (rules_context_of bel send l req client) verified client.ip l.rules s t
    routed : IsRoute (rules_context_of bel send l req client) l.services name

  route-eq-served :
      (ctx : Context) (c : RequestContext) (services : List (HttpService bel send)) (name : String)
      (context : RequestContext)
      → (route bel send ctx c services ≡ served_by name context)
        ↔ (IsRoute ctx services name × (c ≡ context))
  unfolding route
  route-eq-served ctx c [] name context = ground arith
  route-eq-served ctx c (x ∷ services) name context =
      ground (arith, route-eq-served ctx c services name context)

  module _ (l : Listener bel send) (req : Request) (client : SocketAddr) (s : S) where
    abbrev ctx : Context
    ctx = rules_context_of bel send l req client

    abbrev run : Bool → S × Flow
    run v = apply_rules bel send ctx v client.ip l.rules s

    abbrev answer : S → Reply
    answer _ = route bel send ctx (request_context_of bel send l req client) l.services

    abbrev state : Option Bool
    state =
        captcha_state bel send l (cookies_of bel send l req) (client_id_of bel send l req client)

    -- the handler, check by check
    handle_request-cases :
        ((bad_user_agent (get_user_agent req) ≡ true)
          × (handle_request bel send l req client s ≡ (s, canned new_blocked_response)))
        ⊎ ((bad_user_agent (get_user_agent req) ≡ false)
            × (handle_request bel send l req client s ≡ (
                if str_starts_with (get_path req.uri_path) captcha_path
                then (s, captcha_request)
                else filter_and_route bel send l req client s)))
    unfolding handle_request
    handle_request-cases = ground arith

    filter_and_route-cases :
        ((state ≡ none) × (filter_and_route bel send l req client s ≡ (s, captcha_page)))
        ⊎ ((v : Bool) × ((state ≡ some v)
              × (filter_and_route bel send l req client s ≡ finish bel send answer (run v))))
    unfolding filter_and_route
    filter_and_route-cases =
        let go : Option Bool → S × Reply =
          λ o. elim o [ none ↦ (s, captcha_page) | some v ↦ finish bel send answer (run v) ] in
        elim (Option-cases state) [ inl e ↦ inl (e, ap go e) | inr (v, e) ↦ inr (v, (e, ap go e)) ]

    route-ne-captcha : answer s ≢ captcha_page
    unfolding route
    route-ne-captcha h =
        elim (Option-cases (find (λ (x : HttpService bel send). x.matches ctx) l.services)) [
          | inl e ↦ ground arith
          | inr (x, e) ↦ ground arith
        ]

    run-served-absurd :
        (v : Bool) {t : S} {name : String} {context : RequestContext}
        → run v ≡ (t, respond (served_by name context))
        → ⊥
    run-served-absurd v h =
        subst (FlowReply bel send v) h (apply_rules-FlowReply bel send ctx v client.ip l.rules s)

    filter_and_route-IsServed :
        (t : S) (name : String) (context : RequestContext)
        → bad_user_agent (get_user_agent req) ≡ false
        → str_starts_with (get_path req.uri_path) captcha_path ≡ false
        → filter_and_route bel send l req client s ≡ (t, served_by name context)
        → IsServed l req client s t name × (request_context_of bel send l req client ≡ context)
    filter_and_route-IsServed t name context agent path h = elim filter_and_route-cases [
      | inl (e, r) ↦ absurd (ground arith)
      | inr (v, (e, r)) ↦ elim (finish-eq bel send answer (run v) (sym r ∙ h)) [
        | inl bad ↦ absurd (run-served-absurd v bad)
        | inr (passed, eq) ↦
            let (found, same) =
              (route-eq-served ctx (request_context_of bel send l req client) l.services name
                  context).0
                eq in
            (
              record {
                agent = agent;
                path = path;
                verified = v;
                cookie = e;
                rules = apply_rules-eq-next bel send ctx v client.ip l.rules s t passed;
                routed = found;
              },
              same,
            )
      ]
    ]

    handle_request-IsServed :
        (t : S) (name : String) (context : RequestContext)
        → handle_request bel send l req client s ≡ (t, served_by name context)
        → IsServed l req client s t name × (request_context_of bel send l req client ≡ context)
    handle_request-IsServed t name context h = elim handle_request-cases [
      | inl (bad, r) ↦ absurd (ground arith)
      | inr (good, r) ↦ elim (Bool-cases (str_starts_with (get_path req.uri_path) captcha_path)) [
        | inl to_captcha ↦ absurd (ground arith)
        | inr other ↦ filter_and_route-IsServed t name context good other (ground arith)
      ]
    ]

    IsServed-handle_request :
        (t : S) (name : String)
        → IsServed l req client s t name
        → handle_request bel send l req client s
          ≡ (t, served_by name (request_context_of bel send l req client))
    unfolding handle_request
    IsServed-handle_request t name h =
        let e = h.cookie in
        let passed = apply_rules-next bel send ctx h.verified client.ip l.rules s t h.rules in
        let found =
          (route-eq-served ctx (request_context_of bel send l req client) l.services name
              (request_context_of bel send l req client)).1
            (h.routed, refl) in
        elim filter_and_route-cases [
          | inl (e2, r) ↦ absurd (ground (arith, e, e2))
          | inr (v, (e2, r)) ↦ ground (arith, h.agent, h.path, e, e2, r, passed, found)
        ]

    finish-ne-captcha :
        (r : S × Flow) → FlowReply bel send true r → (finish bel send answer r).1 ≢ captcha_page
    finish-ne-captcha (t, respond reply) h shown = ground arith
    finish-ne-captcha (t, next) h shown = route-ne-captcha shown

    -- A request gets from `s` to a service, with the limiters then in `t`, just if its user agent is
    -- neither empty nor too long, its path is not the captcha's, its captcha cookie is valid if it has
    -- one, every action of every rule that matches lets it pass in order, and that service is the
    -- first that matches; the service then gets the context built from the request.
    pub handle_request-eq-IsServed_iff :
        (t : S) (name : String) (context : RequestContext)
        → (handle_request bel send l req client s ≡ (t, served_by name context))
          ↔ (IsServed l req client s t name × (request_context_of bel send l req client ≡ context))
    handle_request-eq-IsServed_iff t name context = (
      handle_request-IsServed t name context,
      λ (h, e). IsServed-handle_request t name h ∙ ap (λ c. (t, served_by name c)) e,
    )

    -- A client with a valid captcha cookie is never shown the captcha page, whatever the rules say.
    pub handle_request-verified :
        captcha_state bel send l (cookies_of bel send l req) (client_id_of bel send l req client)
          ≡ some true
        → (handle_request bel send l req client s).1 ≢ captcha_page
    handle_request-verified h shown = elim handle_request-cases [
      | inl (bad, r) ↦ ground arith
      | inr (good, r) ↦ elim (Bool-cases (str_starts_with (get_path req.uri_path) captcha_path)) [
        | inl to_captcha ↦ ground arith
        | inr other ↦ elim filter_and_route-cases [
          | inl (e, f) ↦ ground arith
          | inr (v, (e, f)) ↦
              let flow = apply_rules-FlowReply bel send ctx true client.ip l.rules s in
              finish-ne-captcha (run true) flow (ground arith)
        ]
      ]
    ]
