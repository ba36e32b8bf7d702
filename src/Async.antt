-- ===== src/Async.antt =====
-- Tokio's futures: what an `await` gives and after how many nanoseconds, or that it never returns.
use pingoo.Prelude.{ℕ, ◌+◌, ◌≡◌, Option, none, some, leb, if◌then◌else◌, arith}

pub data Future (A : Type 0) : Type 0 where
  ready : ℕ → A → Future A
  never : Future A

abbrev pub delayed : {A : Type 0} → ℕ → Future A → Future A
delayed t (ready u a) = ready (t + u) a
delayed t never = never

-- `k(f.await).await`
abbrev pub and_then : {A B : Type 0} → Future A → (A → Future B) → Future B
and_then (ready t a) k = delayed t (k a)
and_then never k = never

-- `time::timeout(limit, f)`, with `none` for its error
abbrev pub timeout : {A : Type 0} → ℕ → Future A → Future (Option A)
timeout limit (ready t a) = if leb t limit then ready t (some a) else ready limit none
timeout limit never = ready limit none

pub delayed-eq-ready :
    {A : Type 0} (u : ℕ) (f : Future A) {t : ℕ} {a : A}
    → delayed u f ≡ ready t a
    → (v : ℕ) × ((f ≡ ready v a) × (t ≡ u + v))
delayed-eq-ready u (ready v a) h = (v, ground arith)
delayed-eq-ready u never h = ground arith
