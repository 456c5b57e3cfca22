-- ===== src/RateLimit/Bounds.antt =====
-- backend/app/core/rate_limit.py: how many requests a window lets pass.
use appbi_integration.Base.{
  ℕ, suc, ◌+◌, ◌-◌, ◌≤◌, ◌<◌, String, ◌≡◌, refl, sym, subst, Bool, true, false, ◌&&◌, Option, none,
  some, List, [], ◌∷◌, leb, ltb, ◌==◌, ==→eq, ltb→lt, arith, str_eq, eq_iff, eq_refl, Bool-cases,
  inl, inr, if◌then◌else◌,
}
use appbi_integration.Workflows.Flow.Edit.{take_chars}
use appbi_integration.RateLimit.{Bucket, Buckets, window_start, hit_row, set_row, hit}

pub record Hit : Type 0 where
  pub key : String
  pub at : ℕ

abbrev pub one_if : Bool → ℕ
one_if true = 1
one_if false = 0

-- How many of the requests on one row in one window are allowed, among requests on any rows.
unfoldable pub allowed_in : ℕ → ℕ → ℕ → String → List Hit → Buckets → ℕ
unfolding hit window_start take_chars
allowed_in limit seconds start key [] table = 0
allowed_in limit seconds start key (h ∷ rest) table =
    let (answer, after) = hit limit seconds h.key h.at table in
    one_if (str_eq key (take_chars 200 h.key) && window_start seconds h.at == start && answer.0)
    + allowed_in limit seconds start key rest after

-- The requests come in the order of their windows, none before a given one.
abbrev pub InOrder : ℕ → ℕ → List Hit → Type 0
InOrder seconds last [] = Unit {0}
InOrder seconds last (h ∷ rest) =
    (last ≤ window_start seconds h.at) × InOrder seconds (window_start seconds h.at) rest

abbrev pub window_of : Option Bucket → ℕ
window_of none = 0
window_of (some b) = b.window_start

abbrev pub counted : ℕ → Option Bucket → ℕ
counted start none = 0
counted start (some b) = if b.window_start == start then b.hits else 0

hit_row-window : (w now : ℕ) (o : Option Bucket) → (hit_row w now o).window_start ≡ w
unfolding hit_row
hit_row-window w now none = refl
hit_row-window w now (some b) = refl

-- A request in the window counts one more than were counted.
hit_row-counted :
    (start now : ℕ) (o : Option Bucket) → (hit_row start now o).hits ≡ suc (counted start o)
unfolding hit_row
hit_row-counted start now none = refl
hit_row-counted start now (some b) = elim (Bool-cases (b.window_start == start)) [
  | inl k ↦ rw k refl
  | inr k ↦ rw k refl
]

counted-hit_row :
    (start w now : ℕ) (o : Option Bucket)
    → (w == start) ≡ true
    → counted start (some (hit_row w now o)) ≡ suc (counted start o)
counted-hit_row start w now o h = rw (hit_row-window w now o) (
    rw h (
      subst (λ (x : ℕ). (hit_row x now o).hits ≡ suc (counted start o)) (sym (==→eq w start h))
        (hit_row-counted start now o)))

counted-later : (start : ℕ) (o : Option Bucket) → window_of o < start → counted start o ≡ 0
counted-later start none h = refl
counted-later start (some b) h = ground arith

not_counted : (a b c : Bool) → b ≡ false → one_if (a && b && c) ≡ 0
not_counted a b c h = ground arith

other_key : (a b c : Bool) → a ≡ false → one_if (a && b && c) ≡ 0
other_key a b c h = ground arith

one_more :
    (c limit rest : ℕ) (a b : Bool)
    → a ≡ true
    → b ≡ true
    → rest ≤ limit - suc c
    → one_if (a && b && leb (suc c) limit) + rest ≤ limit - c
one_more c limit rest a b p q h = ground arith

apart : (a b c : ℕ) → a < b → b ≤ c → (c == a) ≡ false
apart a b c h k = ground arith

-- After the window has passed, no request is in it.
passed :
    (limit seconds start : ℕ) (key : String) (last : ℕ) (rest : List Hit) (table : Buckets)
    → start < last
    → InOrder seconds last rest
    → allowed_in limit seconds start key rest table ≡ 0
unfolding allowed_in hit
passed limit seconds start key last [] table h order = refl
passed limit seconds start key last (x ∷ rest) table h (next, order) =
    rw
      (not_counted (str_eq key (take_chars 200 x.key)) (window_start seconds x.at == start)
        (leb (hit_row (window_start seconds x.at) x.at (table (take_chars 200 x.key))).hits limit)
        (apart start last (window_start seconds x.at) h next))
      (omega (
        arith,
        passed limit seconds start key (window_start seconds x.at) rest
            (hit limit seconds x.key x.at table).1 (omega (arith, h, next)) order,
      ))

module _ (limit seconds start : ℕ) (key : String) where
  -- A request on the row itself.
  on_row :
      (w now last : ℕ) (rest : List Hit) (table : Buckets)
      → window_of (table key) ≤ last
      → last ≤ w
      → InOrder seconds w rest
      → ((later : Buckets)
          → window_of (later key) ≤ w
          → allowed_in limit seconds start key rest later ≤ limit - counted start (later key))
      → one_if (str_eq key key && w == start && leb (hit_row w now (table key)).hits limit)
          + allowed_in limit seconds start key rest (set_row key (hit_row w now (table key)) table)
        ≤ limit - counted start (table key)
  on_row w now last rest table old next order later = elim (Bool-cases (w == start)) [
    | inl k ↦
        let hits =
          subst (λ (v : ℕ). (hit_row v now (table key)).hits ≡ suc (counted start (table key)))
            (sym (==→eq w start k)) (hit_row-counted start now (table key)) in
        let more = counted-hit_row start w now (table key) k in
        subst
          (λ (n : ℕ).
            one_if (str_eq key key && w == start && leb n limit) + rest_allowed
            ≤ limit - counted start (table key))
          (sym hits)
          (one_more (counted start (table key)) limit rest_allowed (str_eq key key) (w == start)
            (eq_refl key) k (subst (λ (n : ℕ). rest_allowed ≤ limit - n) more rest_bound))
    | inr k ↦
        rw
          (not_counted (str_eq key key) (w == start) (leb (hit_row w now (table key)).hits limit) k)
          (elim (Bool-cases (ltb start w)) [
            | inl j ↦
                omega (arith, passed limit seconds start key w rest after (ltb→lt start w j) order)
            | inr j ↦ omega (
              arith,
              rest_bound,
              counted-later start (table key) (below_of j k),
              counted-later start (some row) (now_below j k),
            )
          ])
  ]
    where
      row : Bucket
      row = hit_row w now (table key)

      after : Buckets
      after = set_row key row table

      rest_allowed : ℕ
      rest_allowed = allowed_in limit seconds start key rest after

      here : after key ≡ some row
      here = rw (eq_refl key) refl

      rest_bound : rest_allowed ≤ limit - counted start (some row)
      rest_bound =
          subst (λ (o : Option Bucket). rest_allowed ≤ limit - counted start o) here
            (later after (
              subst (λ (o : Option Bucket). window_of o ≤ w) (sym here)
                (omega (arith, hit_row-window w now (table key)))))

      below_of : ltb start w ≡ false → (w == start) ≡ false → window_of (table key) < start
      below_of j k = ground arith

      under : ltb start w ≡ false → (w == start) ≡ false → w < start
      under j k = ground arith

      now_below : ltb start w ≡ false → (w == start) ≡ false → window_of (some row) < start
      now_below j k =
          subst (λ (v : ℕ). v < start) (sym (hit_row-window w now (table key))) (under j k)

  -- A request on another row.
  elsewhere :
      (other : String) (b : Bucket) (w : ℕ) (rest : List Hit) (last : ℕ) (table : Buckets)
      → str_eq key other ≡ false
      → window_of (table key) ≤ last
      → last ≤ w
      → ((later : Buckets)
          → window_of (later key) ≤ w
          → allowed_in limit seconds start key rest later ≤ limit - counted start (later key))
      → allowed_in limit seconds start key rest (set_row other b table)
        ≤ limit - counted start (table key)
  elsewhere other b w rest last table k old next later =
      subst
        (λ (o : Option Bucket).
          allowed_in limit seconds start key rest (set_row other b table) ≤ limit - counted start o)
        untouched
        (later (set_row other b table) (
          subst (λ (o : Option Bucket). window_of o ≤ w) (sym untouched)
            (omega (arith, old, next))))
    where
      untouched : set_row other b table key ≡ table key
      untouched = rw k refl

  -- The row has counted some of them; the others that pass are at most as many as are left.
  left_in :
      (last : ℕ) (hits : List Hit) (table : Buckets)
      → window_of (table key) ≤ last
      → InOrder seconds last hits
      → allowed_in limit seconds start key hits table ≤ limit - counted start (table key)
  unfolding allowed_in hit
  left_in last [] table old order = omega arith
  left_in last (x ∷ rest) table old (next, order) =
      elim (Bool-cases (str_eq key (take_chars 200 x.key))) [
        | inl k ↦
            subst
              (λ (j : String).
                one_if (
                    str_eq key j
                    && window_start seconds x.at == start
                    && leb (hit_row (window_start seconds x.at) x.at (table j)).hits limit)
                  + allowed_in limit seconds start key rest
                      (set_row j (hit_row (window_start seconds x.at) x.at (table j)) table)
                ≤ limit - counted start (table key))
              ((eq_iff key (take_chars 200 x.key)).0 k)
              (on_row (window_start seconds x.at) x.at last rest table old next order
                (λ later before. left_in (window_start seconds x.at) rest later before order))
        | inr k ↦
            rw
              (other_key (str_eq key (take_chars 200 x.key)) (window_start seconds x.at == start)
                (leb (hit_row (window_start seconds x.at) x.at (table (take_chars 200 x.key))).hits
                  limit)
                k)
              (omega (
                arith,
                elsewhere (take_chars 200 x.key)
                    (hit_row (window_start seconds x.at) x.at (table (take_chars 200 x.key)))
                    (window_start seconds x.at) rest last table k old next
                    (λ later before. left_in (window_start seconds x.at) rest later before order),
              ))
      ]

-- Of the requests in one window that come to one key, at most `limit` are allowed, however many there are
-- and whatever comes to other keys between them, if the requests come in the order of their windows and
-- the key has no row yet.
pub hit-bounds :
    (limit seconds start : ℕ) (key : String) (hits : List Hit) (table : Buckets)
    → table key ≡ none
    → InOrder seconds 0 hits
    → allowed_in limit seconds start key hits table ≤ limit
hit-bounds limit seconds start key hits table fresh order = omega (
  arith,
  subst
      (λ (o : Option Bucket).
        allowed_in limit seconds start key hits table ≤ limit - counted start o)
      fresh
      (left_in limit seconds start key 0 hits table
        (subst (λ (o : Option Bucket). window_of o ≤ 0) (sym fresh) (omega arith)) order),
)
