-- ===== src/HttpListener/Rules.antt =====
-- What `serve_http_requests` of pingoo/listeners/http_listener.rs asks of a request before a service
-- gets it, as relations between the states before and after the rules.
use pingoo.Prelude.{
  String, List, [], ◌∷◌, none, Bool, true, false, ◌≡◌, ◌↔◌, ◌⊎◌, inl, inr, refl, arith, Bool-cases,
  ok, is_some, ap, ◌∙◌, subst, if◌then◌else◌,
}
use pingoo.Net.{IpAddr}
use pingoo.RateLimiter.{Delivery, answered, limit_http_request}
use pingoo.Config.File.{Action, block, captcha, limit}
use pingoo.Config.Load.{Rule}
use pingoo.Rules.{Evaluator, match_request}
use pingoo.HttpListener.{
  Reply, canned, captcha_page, captcha_request, served_by, Flow, respond, next, apply_action,
  apply_actions, apply_rules, and_then, finish,
}

module _ {Expr S : Type 0} (bel : Evaluator Expr) (send : S → String → IpAddr → S × Delivery) where
  open bel use {Context}

  -- An action lets the request pass, and takes the limiters from `s` to `t`.
  abbrev pub ActionPasses : Rule Expr → Bool → IpAddr → Action → S → S → Type 0
  ActionPasses rule verified ip block s t = ⊥
  ActionPasses rule verified ip captcha s t = (verified ≡ true) × (s ≡ t)
  ActionPasses rule verified ip limit s t =
      ((rule.limiter_tx ≡ none) × (s ≡ t))
      ⊎ ((is_some rule.limiter_tx ≡ true) × (send s rule.name ip ≡ (t, answered (ok true))))

  -- All actions of a rule let it pass, in order.
  abbrev pub ActionsPass : Rule Expr → Bool → IpAddr → List Action → S → S → Type 0
  ActionsPass rule verified ip [] s t = s ≡ t
  ActionsPass rule verified ip (a ∷ actions) s t =
      (u : S) × ActionPasses rule verified ip a s u × ActionsPass rule verified ip actions u t

  -- All rules that match let it pass, in order.
  abbrev pub RulesPass : Context → Bool → IpAddr → List (Rule Expr) → S → S → Type 0
  RulesPass ctx verified ip [] s t = s ≡ t
  RulesPass ctx verified ip (rule ∷ rules) s t =
      ((match_request bel rule ctx ≡ false) × RulesPass ctx verified ip rules s t)
      ⊎ ((match_request bel rule ctx ≡ true)
          × ((u : S) × (ActionsPass rule verified ip rule.actions s u
                × RulesPass ctx verified ip rules u t)))

  apply_action-eq-next_iff :
      (rule : Rule Expr) (verified : Bool) (ip : IpAddr) (a : Action) (s t : S)
      → (apply_action bel send rule verified ip a s ≡ (t, next))
        ↔ ActionPasses rule verified ip a s t
  unfolding apply_action limit_http_request
  apply_action-eq-next_iff rule verified ip block s t = ground arith
  apply_action-eq-next_iff rule true ip captcha s t = ground arith
  apply_action-eq-next_iff rule false ip captcha s t = ground arith
  apply_action-eq-next_iff rule verified ip limit s t = ground arith

  and_then-eq-next :
      (r : S × Flow) (k : S → S × Flow) {t : S}
      → and_then bel send r k ≡ (t, next)
      → (u : S) × (r ≡ (u, next)) × (k u ≡ (t, next))
  and_then-eq-next (s, respond r) k h = ground arith
  and_then-eq-next (s, next) k h = (s, refl, h)

  and_then-eq-later :
      (r : S × Flow) (k : S → S × Flow) (u : S) → r ≡ (u, next) → and_then bel send r k ≡ k u
  and_then-eq-later r k u h = ap (λ x. and_then bel send x k) h

  apply_actions-eq-next :
      (rule : Rule Expr) (verified : Bool) (ip : IpAddr) (actions : List Action) (s t : S)
      → apply_actions bel send rule verified ip actions s ≡ (t, next)
      → ActionsPass rule verified ip actions s t
  unfolding apply_actions
  apply_actions-eq-next rule verified ip [] s t h = ground arith
  apply_actions-eq-next rule verified ip (a ∷ actions) s t h =
      let (u, e, rest) =
        and_then-eq-next (apply_action bel send rule verified ip a s)
          (apply_actions bel send rule verified ip actions) h in
      (
        u,
        (apply_action-eq-next_iff rule verified ip a s u).0 e,
        apply_actions-eq-next rule verified ip actions u t rest,
      )

  apply_actions-next :
      (rule : Rule Expr) (verified : Bool) (ip : IpAddr) (actions : List Action) (s t : S)
      → ActionsPass rule verified ip actions s t
      → apply_actions bel send rule verified ip actions s ≡ (t, next)
  unfolding apply_actions
  apply_actions-next rule verified ip [] s t h = ground arith
  apply_actions-next rule verified ip (a ∷ actions) s t (u, pass, rest) =
      and_then-eq-later (apply_action bel send rule verified ip a s)
        (apply_actions bel send rule verified ip actions) u
        ((apply_action-eq-next_iff rule verified ip a s u).1 pass)
      ∙ apply_actions-next rule verified ip actions u t rest

  abbrev step : Context → Bool → IpAddr → Rule Expr → S → S × Flow
  step ctx verified ip rule s =
      if match_request bel rule ctx
      then apply_actions bel send rule verified ip rule.actions s
      else (s, next)

  pub apply_rules-eq-next :
      (ctx : Context) (verified : Bool) (ip : IpAddr) (rules : List (Rule Expr)) (s t : S)
      → apply_rules bel send ctx verified ip rules s ≡ (t, next)
      → RulesPass ctx verified ip rules s t
  unfolding apply_rules
  apply_rules-eq-next ctx verified ip [] s t h = ground arith
  apply_rules-eq-next ctx verified ip (rule ∷ rules) s t h =
      let (u, e, rest) =
        and_then-eq-next (step ctx verified ip rule s) (apply_rules bel send ctx verified ip rules)
          h in
      let ih = apply_rules-eq-next ctx verified ip rules u t rest in
      elim (Bool-cases (match_request bel rule ctx)) [
        | inl m ↦
            inr
              (m, (u, (apply_actions-eq-next rule verified ip rule.actions s u (ground arith), ih)))
        | inr m ↦ inl (m, subst (λ x. RulesPass ctx verified ip rules x t) (ground arith) ih)
      ]

  pub apply_rules-next :
      (ctx : Context) (verified : Bool) (ip : IpAddr) (rules : List (Rule Expr)) (s t : S)
      → RulesPass ctx verified ip rules s t
      → apply_rules bel send ctx verified ip rules s ≡ (t, next)
  unfolding apply_rules
  apply_rules-next ctx verified ip [] s t h = ground arith
  apply_rules-next ctx verified ip (rule ∷ rules) s t (inl (m, rest)) =
      and_then-eq-later (step ctx verified ip rule s) (apply_rules bel send ctx verified ip rules) s
        (ground arith)
      ∙ apply_rules-next ctx verified ip rules s t rest
  apply_rules-next ctx verified ip (rule ∷ rules) s t (inr (m, (u, (pass, rest)))) =
      and_then-eq-later (step ctx verified ip rule s) (apply_rules bel send ctx verified ip rules) u
        (ground (arith, apply_actions-next rule verified ip rule.actions s u pass))
      ∙ apply_rules-next ctx verified ip rules u t rest

  pub finish-eq :
      (k : S → Reply) (r : S × Flow) {t : S} {reply : Reply}
      → finish bel send k r ≡ (t, reply)
      → (r ≡ (t, respond reply)) ⊎ ((r ≡ (t, next)) × (k t ≡ reply))
  finish-eq k (s, respond r) h = ground arith
  finish-eq k (s, next) h = ground arith

  -- what the rules may answer: a response of pingoo, or the captcha to a client that is not verified
  abbrev pub RuleReply : Bool → Reply → Type 0
  RuleReply verified (canned r) = Unit
  RuleReply verified captcha_page = verified ≡ false
  RuleReply verified captcha_request = ⊥
  RuleReply verified (served_by name context) = ⊥

  abbrev pub FlowReply : Bool → S × Flow → Type 0
  FlowReply verified (s, respond r) = RuleReply verified r
  FlowReply verified (s, next) = Unit

  and_then-FlowReply :
      (verified : Bool) (r : S × Flow) (k : S → S × Flow)
      → FlowReply verified r
      → ((u : S) → FlowReply verified (k u))
      → FlowReply verified (and_then bel send r k)
  and_then-FlowReply verified (s, respond r) k h hk = h
  and_then-FlowReply verified (s, next) k h hk = hk s

  apply_action-FlowReply :
      (rule : Rule Expr) (verified : Bool) (ip : IpAddr) (a : Action) (s : S)
      → FlowReply verified (apply_action bel send rule verified ip a s)
  unfolding apply_action limit_http_request
  apply_action-FlowReply rule verified ip block s = tt
  apply_action-FlowReply rule true ip captcha s = tt
  apply_action-FlowReply rule false ip captcha s = refl
  apply_action-FlowReply rule verified ip limit s = ground arith

  apply_actions-FlowReply :
      (rule : Rule Expr) (verified : Bool) (ip : IpAddr) (actions : List Action) (s : S)
      → FlowReply verified (apply_actions bel send rule verified ip actions s)
  unfolding apply_actions
  apply_actions-FlowReply rule verified ip [] s = tt
  apply_actions-FlowReply rule verified ip (a ∷ actions) s =
      and_then-FlowReply verified (apply_action bel send rule verified ip a s)
        (apply_actions bel send rule verified ip actions)
        (apply_action-FlowReply rule verified ip a s)
        (apply_actions-FlowReply rule verified ip actions)

  step-FlowReply :
      (ctx : Context) (verified : Bool) (ip : IpAddr) (rule : Rule Expr) (s : S)
      → FlowReply verified (step ctx verified ip rule s)
  step-FlowReply ctx verified ip rule s = elim (Bool-cases (match_request bel rule ctx)) [
    | inl m ↦ ground (arith, apply_actions-FlowReply rule verified ip rule.actions s)
    | inr m ↦ ground arith
  ]

  pub apply_rules-FlowReply :
      (ctx : Context) (verified : Bool) (ip : IpAddr) (rules : List (Rule Expr)) (s : S)
      → FlowReply verified (apply_rules bel send ctx verified ip rules s)
  unfolding apply_rules
  apply_rules-FlowReply ctx verified ip [] s = tt
  apply_rules-FlowReply ctx verified ip (rule ∷ rules) s =
      and_then-FlowReply verified (step ctx verified ip rule s)
        (apply_rules bel send ctx verified ip rules) (step-FlowReply ctx verified ip rule s)
        (apply_rules-FlowReply ctx verified ip rules)
