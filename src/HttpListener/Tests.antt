-- ===== src/HttpListener/Tests.antt =====
-- Requests through the HTTP listener: two services, a rule that limits and one that asks for a captcha.
use pingoo.Prelude.{
  ℕ, ◌+◌, String, [], ◌∷◌, none, some, Bool, true, false, ◌≡◌, ◌↔◌, refl, ltb, ok, string_eq, ◌==◌,
  str_starts_with,
}
use pingoo.Net.{IpAddr, SocketAddr, ipv4}
use pingoo.Http.{get_path, new_too_many_requests_response_429}
use pingoo.RateLimiter.{Delivery, answered, limit_http_request}
use pingoo.Config.File.{captcha, limit}
use pingoo.Config.Load.{Rule}
use pingoo.Rules.{Evaluator, match_request, expression_matches}
use pingoo.HttpListener.{
  Request, RequestData, Listener, canned, served_by, handle_request, filter_and_route, apply_rules,
  apply_actions, apply_action, route, get_host, get_user_agent, request_context_of,
}
use pingoo.HttpListener.Handler.{IsServed, handle_request-eq-IsServed_iff}

-- an expression asks whether the path starts with a text
abbrev by_path : Evaluator String
by_path = record {
  Context = RequestData;
  Value = Bool;
  execute = λ e ctx. some (str_starts_with ctx.path e);
  equals_true = λ v. v;
}

-- three requests pass the limiter
abbrev three : ℕ → String → IpAddr → ℕ × Delivery
three n name ip = (n + 1, answered (ok (ltb n 3)))

abbrev slow : Rule String
slow = record {
  name = "slow";
  expression = some "/api";
  actions = limit ∷ [];
  limiter_tx = some (record { max = 3; window = 60; capacity = 8 });
}

abbrev humans : Rule String
humans = record { name = "humans"; expression = none; actions = captcha ∷ []; limiter_tx = none }

abbrev listener : Listener by_path three
listener = record {
  address = record { ip = ipv4 0 0 0 0; port = 8080 };
  tls = false;
  services =
      record { name = "api"; matches = λ (c : RequestData). str_starts_with c.path "/api" }
      ∷ record { name = "web"; matches = λ (c : RequestData). true }
      ∷ [];
  rules = slow ∷ humans ∷ [];
  geoip = none;
  parse_cookies = λ text. record { name = "__pingoo_captcha_verified"; value = text } ∷ [];
  client_id = λ ip agent host. agent;
  cookie_is_valid = λ value id. value == id;
  new_context = λ request client. request;
}

abbrev client : SocketAddr
client = record { ip = ipv4 1 1 1 1; port = 40000 }

abbrev request : String → Request
request path = record {
  method = "GET";
  uri_host = none;
  uri = path;
  uri_path = path;
  headers =
      ("host", some "example.com") ∷ ("user-agent", some "curl ") ∷ ("cookie", some "curl") ∷ [];
}

handle_request-eq-IsServed_iff_example :
    (handle_request by_path three listener (request "/api/") client 1
      ≡ (2, served_by "api" (request_context_of by_path three listener (request "/api/") client)))
    ↔ (IsServed by_path three listener (request "/api/") client 1 2 "api"
        × (request_context_of by_path three listener (request "/api/") client
            ≡ request_context_of by_path three listener (request "/api/") client))
handle_request-eq-IsServed_iff_example =
    handle_request-eq-IsServed_iff by_path three listener (request "/api/") client 1 2 "api"
      (request_context_of by_path three listener (request "/api/") client)

served :
    handle_request by_path three listener (request "/api/") client 1
    ≡ (2, served_by "api" (request_context_of by_path three listener (request "/api/") client))
unfolding handle_request filter_and_route apply_rules apply_actions apply_action route get_host
    get_user_agent get_path match_request expression_matches limit_http_request
served = refl

limited :
    handle_request by_path three listener (request "/api/") client 3
    ≡ (4, canned new_too_many_requests_response_429)
unfolding handle_request filter_and_route apply_rules apply_actions apply_action route get_host
    get_user_agent get_path match_request expression_matches limit_http_request
limited = refl
