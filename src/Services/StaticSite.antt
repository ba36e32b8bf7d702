-- ===== src/Services/StaticSite.antt =====
-- pingoo/services/http_static_site_service.rs: files by their path, with a cache of small ones. The file
-- system and the hash of the ETag are parameters; the eviction of the cache is not modelled.
use pingoo.Prelude.{
  ℕ, String, List, [], ◌∷◌, Option, none, some, Bool, false, not, ◌&&◌, ◌||◌, HashMap, get, insert,
  remove, string_eq, ◌==◌, if◌then◌else◌, leb, eqb, length, append, split, trim, trim_start_matches,
  trim_end_matches, str_contains, str_is_empty, path_push,
}
use Prim.Native.Char.{code}
use pingoo.Http.{
  Response, new_internal_error_response_500, new_method_not_allowed_error, new_not_found_error,
}

abbrev pub caching_file_size_limit : ℕ
caching_file_size_limit = 500_000

-- nanoseconds, bytes and content
pub record CachedFile : Type 0 where
  pub modified_at : ℕ
  pub size : ℕ
  pub content : String

abbrev pub Cache : Type 0
Cache = HashMap String CachedFile

-- `fs::metadata`: a file has its size and, where it can be read, the time of its last modification
pub data Metadata : Type 0 where
  not_found : Metadata
  failed : Metadata
  directory : Metadata
  regular : ℕ → Option ℕ → Metadata

pub record FileSystem : Type 0 where
  pub metadata : String → Metadata
  pub read : String → Option String
  pub open_file : String → Option String

-- where the content of an answer comes from
pub data Content : Type 0 where
  nothing : Content
  cached : String → Content
  whole : String → Content
  streamed : String → Content

pub data StaticReply : Type 0 where
  canned : Response → StaticReply
  file : ℕ → String → ℕ → Option String → Content → StaticReply

abbrev last_part : String → List String → String
last_part d [] = d
last_part d (x ∷ xs) = last_part x xs

abbrev pub file_name : String → String
file_name path = last_part "" (split b'/' (trim_end_matches b'/' path))

-- `Path::extension`, none for a name that only starts with a dot
abbrev extension_of : List String → Option String
extension_of [] = none
extension_of (stem ∷ []) = none
extension_of (stem ∷ x ∷ xs) =
    if str_is_empty stem && eqb (length xs) 0 then none else some (last_part x xs)

abbrev pub extension : String → Option String
extension path =
    let name = file_name path in if name == ".." then none else extension_of (split b'.' name)

-- `set_extension("html")` where there is no extension
abbrev pub with_html : String → String
with_html path =
    if file_name path == ".." then path else append (trim_end_matches b'/' path) ".html"

abbrev pub url_path_of : String → String
url_path_of uri_path = trim (trim_end_matches b'/' (trim_start_matches b'/' uri_path))

-- "prevent directory traversal and other similar attacks"
abbrev pub is_attack : String → Bool
is_attack url_path =
    str_contains url_path "/.." || str_contains url_path "../" || str_contains url_path "//"

abbrev weak_off : String → String
weak_off String.[] = ""
weak_off (String.◌∷◌ c String.[]) = String.◌∷◌ c ""
weak_off (String.◌∷◌ c (String.◌∷◌ d s)) =
    let rest = weak_off s in
    if eqb (code c) b'W' && eqb (code d) b'/' then rest else String.◌∷◌ c (String.◌∷◌ d s)

-- the value of `if-none-match` as it is compared
abbrev pub if_none_match : String → String
if_none_match value = trim_end_matches b'"' (trim_start_matches b'"' (weak_off (trim value)))

-- The file that a path leads to, with its size and time, or an early answer.
pub data Found : Type 0 where
  early : Response → Found
  found : String → ℕ → Option ℕ → Found

abbrev pub is_get_or_head : String → Bool
is_get_or_head method = method == "GET" || method == "HEAD"

module _ (fs : FileSystem) where
  unfoldable pub try_metadata : String → Found
  try_metadata path = elim (fs.metadata path) [
    | directory ↦ early new_not_found_error
    | regular size modified ↦ found path size modified
    | not_found ↦ early new_not_found_error
    | failed ↦ early new_internal_error_response_500
  ]

  unfoldable pub find_file : String → Found
  find_file path = elim (fs.metadata path) [
    | directory ↦ try_metadata (path_push path "index.html")
    | regular size modified ↦ found path size modified
    | not_found ↦ elim (extension path) [
      | some e ↦ early new_not_found_error
      | none ↦ try_metadata (with_html path)
    ]
    | failed ↦ early new_internal_error_response_500
  ]

  -- a small file that is not in the cache is read and put there
  unfoldable pub read_and_cache : Cache → String → ℕ → ℕ → Option String → Cache × StaticReply
  read_and_cache cache path size modified etag = elim (fs.read path) [
    | none ↦ (cache, canned new_internal_error_response_500)
    | some content ↦ (
      insert cache path (record { modified_at = modified; size = size; content = content }),
      file 200 path size etag (whole content),
    )
  ]

  -- a cached file that has changed is removed from the cache first
  unfoldable pub serve_small : Cache → String → ℕ → ℕ → Option String → Cache × StaticReply
  serve_small cache path size modified etag = elim (get cache path) [
    | none ↦ read_and_cache cache path size modified etag
    | some f ↦
        if eqb f.modified_at modified && eqb f.size size
        then (cache, file 200 path size etag (cached f.content))
        else read_and_cache (remove cache path) path size modified etag
  ]

  unfoldable pub stream_file : Cache → String → ℕ → Option String → Cache × StaticReply
  stream_file cache path size etag = elim (fs.open_file path) [
    | none ↦ (cache, canned new_internal_error_response_500)
    | some content ↦ (cache, file 200 path size etag (streamed content))
  ]

  module _ (hash : String → ℕ → ℕ → String) where
    -- with the time of the last modification a file has an ETag and may be cached
    unfoldable pub serve_dated : Cache → Option String → String → ℕ → ℕ → Cache × StaticReply
    serve_dated cache none_match path size modified =
        let etag = hash path size modified in
        if elim none_match [ none ↦ false | some v ↦ etag == if_none_match v ]
        then (cache, file 304 path size (some etag) nothing)
        else if leb size caching_file_size_limit
        then serve_small cache path size modified (some etag)
        else stream_file cache path size (some etag)

    unfoldable pub serve_found : Cache → Option String → Found → Cache × StaticReply
    serve_found cache none_match (early response) = (cache, canned response)
    serve_found cache none_match (found path size (some modified)) =
        serve_dated cache none_match path size modified
    serve_found cache none_match (found path size none) = stream_file cache path size none

    unfoldable pub handle_http_request :
        String → Cache → String → String → Option String → Cache × StaticReply
    handle_http_request root cache method uri_path none_match =
        let url_path = url_path_of uri_path in
        if not (is_get_or_head method)
        then (cache, canned new_method_not_allowed_error)
        else if is_attack url_path
        then (cache, canned new_not_found_error)
        else serve_found cache none_match (find_file (path_push root url_path))
