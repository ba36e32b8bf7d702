-- ===== src/Services/Fresh.antt =====
-- Caches of pingoo/services/http_static_site_service.rs whose contents are the files'.
use pingoo.Prelude.{
  ℕ, String, some, ◌≡◌, inl, inr, sym, ◌∙◌, subst, arith, get, insert, remove, get-insert,
  get-remove, string_eq, ◌==◌, Bool-cases,
}
use pingoo.Services.StaticSite.{CachedFile, Cache}

-- `history path size time` is what the file held when it had that size and that time.
module _ (history : String → ℕ → ℕ → String) where
  -- Every cached content is what the file held at the size and the time kept with it.
  abbrev pub IsFresh : Cache → Type 0
  IsFresh cache =
      (path : String) (f : CachedFile)
      → get cache path ≡ some f
      → f.content ≡ history path f.size f.modified_at

  pub insert-IsFresh :
      (cache : Cache) (path : String) (f : CachedFile)
      → IsFresh cache
      → f.content ≡ history path f.size f.modified_at
      → IsFresh (insert cache path f)
  insert-IsFresh cache path f h e j g at =
      let eq = sym (get-insert cache path f j) ∙ at in
      elim (Bool-cases (path == j)) [
        | inl here ↦
            let same : f ≡ g = ground arith in
            let there = (string_eq.same_iff path j).0 here in
            subst (λ (x : CachedFile). x.content ≡ history j x.size x.modified_at) same
              (subst (λ p. f.content ≡ history p f.size f.modified_at) there e)
        | inr other ↦ h j g (ground arith)
      ]

  pub remove-IsFresh : (cache : Cache) (path : String) → IsFresh cache → IsFresh (remove cache path)
  remove-IsFresh cache path h j g at =
      let eq = sym (get-remove cache path j) ∙ at in
      h j g (elim (Bool-cases (path == j)) [ inl here ↦ ground arith | inr other ↦ ground arith ])
