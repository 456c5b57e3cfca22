-- ===== src/Schedules/Fires.antt =====
-- backend/app/services/schedules.py: what is accepted, and when it fires.
use appbi_integration.Base.{
  ℕ, zero, suc, ◌+◌, ◌*◌, ◌%◌, ◌≤◌, ◌<◌, String, ◌≡◌, refl, subst, Bool, true, false, ◌&&◌, Option,
  none, some, List, [], ◌∷◌, ltb, leb, arith, str_eq, if◌then◌else◌, Bool-cases, inl, inr, ltb→lt,
  ltb-false, ltb→lt, leb→le, &&_split,
}
use appbi_integration.Json.{Fields, get}
use appbi_integration.Json.Text.{str_or}
use appbi_integration.Graph.Text.{strip}
use appbi_integration.Errors.{Result, ok, err, schedule_invalid, bind-ok, ok-injective}
use appbi_integration.Schedules.{
  Calendar, Timing, interval, daily, cron, Schedule, min_interval_seconds, or_zero, resolve_zone,
  timing_of, long_enough, in_day, time_of, validate, replace_time, next_daily, fires_after,
  next_run_at, preview_from, known_type,
}
use appbi_integration.Schedules.Parse.{read_int, int_of, split_colon, Number, below, at}

-- What `validate` promises of a schedule: an interval of a minute or more, a time of day, or a cron
-- expression that croniter takes.
abbrev pub IsSound : Calendar → Timing → Type 0
IsSound cal (interval seconds) = min_interval_seconds ≤ seconds
IsSound cal (daily hour minute) = (hour < 24) × (minute < 60)
IsSound cal (cron expression) = cal.cron_valid expression ≡ true

long_enough-IsSound :
    (cal : Calendar) (n : Option Number) (t : Timing) → long_enough n ≡ ok t → IsSound cal t
long_enough-IsSound cal none t h = cc
long_enough-IsSound cal (some below) t h = cc
long_enough-IsSound cal (some (at seconds)) t h =
    elim (Bool-cases (ltb seconds min_interval_seconds)) [
      | inl k ↦ cc (rw k at h)
      | inr k ↦
          subst (λ (x : Timing). IsSound cal x) (ok-injective (rw k at h))
            (ltb-false seconds min_interval_seconds k)
    ]

in_day-IsSound :
    (cal : Calendar) (a b : Option Number) (t : Timing) → in_day a b ≡ ok t → IsSound cal t
in_day-IsSound cal none b t h = cc
in_day-IsSound cal (some below) b t h = cc
in_day-IsSound cal (some (at hour)) none t h = cc
in_day-IsSound cal (some (at hour)) (some below) t h = cc
in_day-IsSound cal (some (at hour)) (some (at minute)) t h =
    elim (Bool-cases (ltb hour 24 && ltb minute 60)) [
      | inl k ↦
          let (p, q) = &&_split (ltb hour 24) (ltb minute 60) k in
          subst (λ (x : Timing). IsSound cal x) (ok-injective (rw k at h))
            (ltb→lt hour 24 p, ltb→lt minute 60 q)
      | inr k ↦ cc (rw k at h)
    ]

time_of-IsSound :
    (cal : Calendar) (o : Option (String × String)) (t : Timing) → time_of o ≡ ok t → IsSound cal t
time_of-IsSound cal none t h = cc
time_of-IsSound cal (some (a, b)) t h = in_day-IsSound cal (read_int a) (read_int b) t h

cron-IsSound :
    (cal : Calendar) (e : String) (t : Timing)
    → (if cal.cron_valid e then ok (cron e) else err schedule_invalid) ≡ ok t
    → IsSound cal t
cron-IsSound cal e t h = elim (Bool-cases (cal.cron_valid e)) [
  | inl k ↦ subst (λ (x : Timing). IsSound cal x) (ok-injective (rw k at h)) k
  | inr k ↦ cc (rw k at h)
]

-- What holds of the answers of both branches holds of the answer.
if-ok :
    (P : Timing → Type 0) (b : Bool) (x y : Result Timing)
    → ((t : Timing) → x ≡ ok t → P t)
    → ((t : Timing) → y ≡ ok t → P t)
    → (t : Timing) → (if b then x else y) ≡ ok t
    → P t
if-ok P true x y p q t h = p t h
if-ok P false x y p q t h = q t h

abbrev expression_of : Fields → String
expression_of config = strip (str_or "" (get "cron_expression" config))

timing_of-IsSound :
    (cal : Calendar) (raw : String) (config : Fields) (t : Timing)
    → timing_of cal raw config ≡ ok t
    → IsSound cal t
unfolding timing_of
timing_of-IsSound cal raw config =
    if-ok (IsSound cal) (str_eq raw "INTERVAL") _ _
      (long_enough-IsSound cal (int_of (or_zero (get "interval_seconds" config))))
      (if-ok (IsSound cal) (str_eq raw "DAILY") _ _
        (time_of-IsSound cal (split_colon (str_or "02:00" (get "time_of_day" config))))
        (cron-IsSound cal (expression_of config)))

-- A schedule that is accepted has an interval of a minute at least, a time that a day has, or a cron expression
-- that croniter calls valid; and zoneinfo knows its zone.
pub validate-IsSound :
    (cal : Calendar) (config : Fields) (zone : String) (s : Schedule)
    → validate cal config zone ≡ ok s
    → IsSound cal s.timing × ((z : String) × (resolve_zone cal s.timezone ≡ ok z))
unfolding validate
validate-IsSound cal config zone s h =
    let (raw, known, h1) =
      bind-ok (known_type (cal.upper (str_or "INTERVAL" (get "schedule_type" config)))) _ h in
    let (z, placed, h2) = bind-ok (resolve_zone cal (str_or zone (get "timezone" config))) _ h1 in
    let (t, timed, h3) = bind-ok (timing_of cal raw config) _ h2 in
    subst
      (λ (x : Schedule).
        IsSound cal x.timing × ((z : String) × (resolve_zone cal x.timezone ≡ ok z)))
      (ok-injective h3) (timing_of-IsSound cal raw config t timed, (z, placed))

leb-false : (a b : ℕ) → leb a b ≡ false → b < a
leb-false a b h = ground arith

-- The next time of day is later than the clock, by a day at most, and it shows that time.
pub next_daily-bounds :
    (hour minute local : ℕ)
    → hour < 24
    → minute < 60
    → (local < next_daily hour minute local)
      × (next_daily hour minute local ≤ local + 86400000)
      × (next_daily hour minute local % 86400000 ≡ hour * 3600000 + minute * 60000)
unfolding next_daily
next_daily-bounds hour minute local h m =
    elim (Bool-cases (leb (replace_time hour minute local) local)) [
      | inl k ↦
          rw k (
            omega arith,
            omega (arith, leb→le (replace_time hour minute local) local k),
            omega arith,
          )
      | inr k ↦ rw k (
        omega (arith, leb-false (replace_time hour minute local) local k),
        omega arith,
        omega arith,
      )
    ]

-- `preview` of an interval gives at least one moment, as many as it is asked for.
abbrev pub steps_from : ℕ → ℕ → ℕ → List ℕ
steps_from seconds zero cursor = []
steps_from seconds (suc n) cursor =
    (cursor + seconds * 1000) ∷ steps_from seconds n (cursor + seconds * 1000)

preview_from-interval :
    (cal : Calendar) (s : Schedule) (z : String) (seconds n cursor : ℕ)
    → s.timing ≡ interval seconds
    → resolve_zone cal s.timezone ≡ ok z
    → preview_from cal s n cursor ≡ ok (steps_from seconds n cursor)
unfolding preview_from next_run_at fires_after
preview_from-interval cal s z seconds zero cursor t h = refl
preview_from-interval cal s z seconds (suc n) cursor t h =
    rw h (rw t (rw (preview_from-interval cal s z seconds n (cursor + seconds * 1000) t h) refl))
