-- ===== src/Services/Cached.antt =====
-- The cache of pingoo/services/http_static_site_service.rs never serves what a file no longer holds.
use pingoo.Prelude.{
  ℕ, String, Option, none, some, Bool, false, not, ◌&&◌, ◌≡◌, inl, inr, refl, sym, ap, ◌∙◌, subst,
  arith, get, insert, remove, string_eq, ◌==◌, if◌then◌else◌, leb, eqb, Option-cases, Bool-cases,
  path_push,
}
use pingoo.Http.{new_internal_error_response_500, new_not_found_error, new_method_not_allowed_error}
use pingoo.Services.StaticSite.{
  CachedFile, Cache, regular, FileSystem, Content, nothing, cached, whole, streamed, StaticReply,
  canned, file, Found, early, found, find_file, read_and_cache, serve_small, stream_file,
  serve_dated, serve_found, handle_http_request, is_get_or_head, is_attack, url_path_of,
  if_none_match, caching_file_size_limit,
}
use pingoo.Services.FoundFile.{GoodFound, find_file-GoodFound}
use pingoo.Services.Fresh.{IsFresh, insert-IsFresh, remove-IsFresh}

-- `history path size time` is what the file held when it had that size and that time.
module _ (fs : FileSystem) (history : String → ℕ → ℕ → String) where
  -- What is read of a file now is what its present size and time stand for.
  abbrev pub IsVersioned : Type 0
  IsVersioned =
      (path : String) (size time : ℕ) (content : String)
      → fs.metadata path ≡ regular size (some time)
      → fs.read path ≡ some content
      → content ≡ history path size time

  -- A content is the one of a file of this size and time.
  abbrev pub IsCurrent : String → ℕ → Option ℕ → Content → Type 0
  IsCurrent path size modified nothing = Unit
  IsCurrent path size modified (cached c) =
      (t : ℕ) × ((modified ≡ some t) × (c ≡ history path size t))
  IsCurrent path size modified (whole c) =
      (t : ℕ) × ((modified ≡ some t) × (c ≡ history path size t))
  IsCurrent path size modified (streamed c) = fs.open_file path ≡ some c

  -- An answer with a file has its present size and content.
  abbrev pub IsServed : StaticReply → Type 0
  IsServed (canned r) = Unit
  IsServed (file status path size etag content) =
      (modified : Option ℕ) × ((fs.metadata path ≡ regular size modified)
        × IsCurrent path size modified content)

  abbrev Good : Cache × StaticReply → Type 0
  Good (cache, reply) = IsFresh history cache × IsServed reply

  module _ (versioned : IsVersioned) where
    read_and_cache-Good :
        (cache : Cache) (path : String) (size time : ℕ) (etag : Option String)
        → IsFresh history cache
        → fs.metadata path ≡ regular size (some time)
        → Good (read_and_cache fs cache path size time etag)
    unfolding read_and_cache
    read_and_cache-Good cache path size time etag h m =
        let go : Option String → Cache × StaticReply = λ o. elim o [
          | none ↦ (cache, canned new_internal_error_response_500)
          | some content ↦ (
            insert cache path (record { modified_at = time; size = size; content = content }),
            file 200 path size etag (whole content),
          )
        ] in
        elim (Option-cases (fs.read path)) [
          | inl e ↦ subst (λ o. Good (go o)) (sym e) (h, tt)
          | inr (content, e) ↦
              let now = versioned path size time content m e in
              subst (λ o. Good (go o)) (sym e)
                (
                  insert-IsFresh history cache path
                      (record { modified_at = time; size = size; content = content }) h now,
                  (some time, (m, (time, (refl, now)))),
                )
        ]

    serve_small-Good :
        (cache : Cache) (path : String) (size time : ℕ) (etag : Option String)
        → IsFresh history cache
        → fs.metadata path ≡ regular size (some time)
        → Good (serve_small fs cache path size time etag)
    unfolding serve_small
    serve_small-Good cache path size time etag h m =
        let hit : CachedFile → Bool → Cache × StaticReply = λ f b.
          if b
          then (cache, file 200 path size etag (cached f.content))
          else read_and_cache fs (remove cache path) path size time etag in
        let go : Option CachedFile → Cache × StaticReply = λ o. elim o [
          | none ↦ read_and_cache fs cache path size time etag
          | some f ↦ hit f (eqb f.modified_at time && eqb f.size size)
        ] in
        elim (Option-cases (get cache path)) [
          | inl e ↦
              subst (λ o. Good (go o)) (sym e) (read_and_cache-Good cache path size time etag h m)
          | inr (f, e) ↦
              subst (λ o. Good (go o)) (sym e)
                (elim (Bool-cases (eqb f.modified_at time && eqb f.size size)) [
                  | inl b ↦
                      let kept = h path f e in
                      let now : f.content ≡ history path size time =
                        kept ∙ ap (λ (p : ℕ × ℕ). history path p.0 p.1) (ground arith) in
                      subst (λ x. Good (hit f x)) (sym b) (h, (some time, (m, (time, (refl, now)))))
                  | inr b ↦
                      subst (λ x. Good (hit f x)) (sym b)
                        (read_and_cache-Good (remove cache path) path size time etag
                          (remove-IsFresh history cache path h) m)
                ])
        ]

    stream_file-Good :
        (cache : Cache) (path : String) (size : ℕ) (modified : Option ℕ) (etag : Option String)
        → IsFresh history cache
        → fs.metadata path ≡ regular size modified
        → Good (stream_file fs cache path size etag)
    unfolding stream_file
    stream_file-Good cache path size modified etag h m =
        let go : Option String → Cache × StaticReply = λ o. elim o [
          | none ↦ (cache, canned new_internal_error_response_500)
          | some content ↦ (cache, file 200 path size etag (streamed content))
        ] in
        elim (Option-cases (fs.open_file path)) [
          | inl e ↦ subst (λ o. Good (go o)) (sym e) (h, tt)
          | inr (content, e) ↦ subst (λ o. Good (go o)) (sym e) (h, (modified, (m, e)))
        ]

    module _ (hash : String → ℕ → ℕ → String) where
      serve_dated-Good :
          (cache : Cache) (none_match : Option String) (path : String) (size time : ℕ)
          → IsFresh history cache
          → fs.metadata path ≡ regular size (some time)
          → Good (serve_dated fs hash cache none_match path size time)
      unfolding serve_dated
      serve_dated-Good cache none_match path size time h m =
          let etag = hash path size time in
          let small : Bool → Cache × StaticReply = λ b.
            if b
            then serve_small fs cache path size time (some etag)
            else stream_file fs cache path size (some etag) in
          let go : Bool → Cache × StaticReply = λ b.
            if b
            then (cache, file 304 path size (some etag) nothing)
            else small (leb size caching_file_size_limit) in
          let same : Bool = elim none_match [ none ↦ false | some v ↦ etag == if_none_match v ] in
          elim (Bool-cases same) [
            | inl e ↦ subst (λ b. Good (go b)) (sym e) (h, (some time, (m, tt)))
            | inr e ↦
                subst (λ b. Good (go b)) (sym e)
                  (elim (Bool-cases (leb size caching_file_size_limit)) [
                    | inl f ↦
                        subst (λ b. Good (small b)) (sym f)
                          (serve_small-Good cache path size time (some etag) h m)
                    | inr f ↦
                        subst (λ b. Good (small b)) (sym f)
                          (stream_file-Good cache path size (some time) (some etag) h m)
                  ])
          ]

      serve_found-Good :
          (cache : Cache) (none_match : Option String) (f : Found)
          → IsFresh history cache
          → GoodFound fs f
          → Good (serve_found fs hash cache none_match f)
      unfolding serve_found
      serve_found-Good cache none_match (early response) h g = (h, tt)
      serve_found-Good cache none_match (found path size (some time)) h g =
          serve_dated-Good cache none_match path size time h g
      serve_found-Good cache none_match (found path size none) h g =
          stream_file-Good cache path size none none h g

      -- A request keeps every cached content what its file held at the size and time kept with it, and
      -- an answer with a file has the file's present size and, from the cache or read whole, the content
      -- that the present size and time stand for; this holds where size and time determine the content
      -- that is read.
      pub handle_http_request-IsFresh :
          (root : String) (cache : Cache) (method uri_path : String) (none_match : Option String)
          → IsFresh history cache
          → IsFresh history (handle_http_request fs hash root cache method uri_path none_match).0
            × IsServed (handle_http_request fs hash root cache method uri_path none_match).1
      unfolding handle_http_request
      handle_http_request-IsFresh root cache method uri_path none_match h =
          let served =
            serve_found fs hash cache none_match
              (find_file fs (path_push root (url_path_of uri_path))) in
          let attack : Bool → Cache × StaticReply =
            λ b. if b then (cache, canned new_not_found_error) else served in
          let refuse : Bool → Cache × StaticReply = λ b.
            if b
            then (cache, canned new_method_not_allowed_error)
            else attack (is_attack (url_path_of uri_path)) in
          elim (Bool-cases (not (is_get_or_head method))) [
            | inl e ↦ subst (λ b. Good (refuse b)) (sym e) (h, tt)
            | inr e ↦
                subst (λ b. Good (refuse b)) (sym e)
                  (elim (Bool-cases (is_attack (url_path_of uri_path))) [
                    | inl a ↦ subst (λ b. Good (attack b)) (sym a) (h, tt)
                    | inr a ↦
                        subst (λ b. Good (attack b)) (sym a)
                          (serve_found-Good cache none_match
                            (find_file fs (path_push root (url_path_of uri_path))) h
                            (find_file-GoodFound fs (path_push root (url_path_of uri_path))))
                  ])
          ]
