-- ===== src/RateLimit.antt =====
-- backend/app/core/rate_limit.py: requests counted in fixed windows. A time is in seconds; the table is a
-- function, since the statement reads and writes the one row of its key. A limit that cannot be read is
-- an answer of the database that is missing.
pub mod Bounds
use appbi_integration.Base.{
  ℕ, zero, suc, ◌+◌, ◌-◌, ◌*◌, ◌/◌, String, Bool, true, false, Option, none, some, leb, ◌==◌,
  str_eq, if◌then◌else◌,
}
use appbi_integration.Workflows.Flow.Edit.{take_chars}

-- A row of `rate_limit_buckets`.
pub record Bucket : Type 0 where
  pub window_start : ℕ
  pub hits : ℕ
  pub updated_at : ℕ

abbrev pub Buckets : Type 0
Buckets = String → Option Bucket

-- `window_start(window_seconds, now)`
unfoldable pub window_start : ℕ → ℕ → ℕ
window_start window_seconds now = now / window_seconds * window_seconds

-- The statement `_HIT`, on the row that there is.
unfoldable pub hit_row : ℕ → ℕ → Option Bucket → Bucket
hit_row start now none = record { window_start = start; hits = 1; updated_at = now }
hit_row start now (some b) = record {
  window_start = start;
  hits = if b.window_start == start then suc b.hits else 1;
  updated_at = now;
}

abbrev pub set_row : String → Bucket → Buckets → Buckets
set_row key b table k = if str_eq k key then some b else table k

-- `hit(session, bucket_key, limit=…, window_seconds=…)`
unfoldable pub hit : ℕ → ℕ → String → ℕ → Buckets → (Bool × ℕ) × Buckets
unfolding window_start hit_row take_chars
hit limit window_seconds bucket_key now table =
    let key = take_chars 200 bucket_key in
    let b = hit_row (window_start window_seconds now) now (table key) in
    ((leb b.hits limit, b.hits), set_row key b table)

-- `check`: it allows the request if the database fails
abbrev pub check : Option (Bool × ℕ) → Bool × ℕ
check none = (true, 0)
check (some answer) = answer

abbrev pub unless_old : ℕ → ℕ → Option Bucket → Option Bucket
unless_old age now none = none
unless_old age now (some b) = if leb now (b.updated_at + age) then some b else none

-- `prune`
unfoldable pub prune : ℕ → ℕ → Buckets → Buckets
prune age now table k = unless_old age now (table k)
