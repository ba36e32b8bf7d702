-- ===== src/Services/HeaderMap.antt =====
-- The names and values of a header map after the changes of pingoo/services/http_proxy_service.rs.
use pingoo.Prelude.{
  String, List, [], ◌∷◌, Option, ◌≡◌, refl, arith, ◌==◌, string_eq, if◌then◌else◌, contains,
}
use pingoo.Services.HttpProxy.{Headers, remove_header, insert_header, get_all, remove_headers}

get_all-remove :
    (k j : String) (hs : Headers)
    → get_all j (remove_header k hs) ≡ (if k == j then [] else get_all j hs)
unfolding get_all remove_header
get_all-remove k j [] = ground arith
get_all-remove k j ((i, v) ∷ hs) = ground (
  arith,
  get_all-remove k j hs,
  string_eq.same_iff i k,
  string_eq.same_iff i j,
  string_eq.same_iff k j,
)

pub get_all-insert :
    (k : String) (v : Option String) (j : String) (hs : Headers)
    → get_all j (insert_header k v hs) ≡ (if k == j then v ∷ [] else get_all j hs)
unfolding get_all insert_header
get_all-insert k v j hs = ground (arith, get_all-remove k j hs)

pub get_all-remove_headers :
    (ks : List String) (j : String) (hs : Headers)
    → get_all j (remove_headers ks hs) ≡ (if contains ks j then [] else get_all j hs)
unfolding remove_headers
get_all-remove_headers [] j hs = refl
get_all-remove_headers (k ∷ ks) j hs =
    ground (arith, get_all-remove_headers ks j (remove_header k hs), get_all-remove k j hs)
