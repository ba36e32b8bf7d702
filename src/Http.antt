-- ===== src/Http.antt =====
-- pingoo/services/http_utils.rs: the responses that pingoo builds itself, and the request path.
use pingoo.Prelude.{ℕ, String, List, [], ◌∷◌, trim_end_matches}

pub record Response : Type 0 where
  pub status : ℕ
  pub headers : List (String × String)
  pub body : String

abbrev pub cache_control_no_cache : String
cache_control_no_cache = "private, no-cache, no-store, must-revalidate"

abbrev pub cache_control_dynamic : String
cache_control_dynamic = "public, no-cache, must-revalidate"

abbrev pub user_agent_max_length : ℕ
user_agent_max_length = 256

abbrev pub hostname_max_length : ℕ
hostname_max_length = 256

abbrev canned : ℕ → String → Response
canned status body = record {
  status = status;
  headers = ("cache-control", cache_control_no_cache) ∷ [];
  body = body;
}

abbrev pub new_internal_error_response_500 : Response
new_internal_error_response_500 = canned 500 "500 Internal Server Error"

abbrev pub new_bad_gateway_error : Response
new_bad_gateway_error = canned 502 "502 Bad Gateway"

abbrev pub new_service_unavailable_error_503 : Response
new_service_unavailable_error_503 = canned 503 "503 Service Unavailable"

abbrev pub new_not_found_error : Response
new_not_found_error = canned 404 "404 Not Found."

abbrev pub new_blocked_response : Response
new_blocked_response = canned 403 "Permission Denied"

abbrev pub new_method_not_allowed_error : Response
new_method_not_allowed_error = canned 405 "405 Method Not Allowed"

abbrev pub new_too_many_requests_response_429 : Response
new_too_many_requests_response_429 = canned 429 "429 Too Many Requests"

-- `get_path`, over the path of the request's URI
unfoldable pub get_path : String → String
get_path uri_path = trim_end_matches b'/' uri_path
