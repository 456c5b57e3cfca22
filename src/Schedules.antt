-- ===== src/Schedules.antt =====
-- backend/app/services/schedules.py: which schedules are accepted, and when they fire next. Times are
-- milliseconds; the time of a zone is its wall clock, as a time of its own. The zones are zoneinfo's and
-- the cron expressions croniter's: both are arguments. A normalised schedule is its type with its fields,
-- where the code has a dict with the same entries.
pub mod Parse
pub mod Fires
use appbi_integration.Base.{
  ℕ, zero, suc, ◌+◌, ◌-◌, ◌*◌, ◌/◌, String, Bool, true, false, not, ◌&&◌, Option, none, some, List,
  [], ◌∷◌, ltb, leb, str_eq, if◌then◌else◌,
}
use appbi_integration.Json.{Json, num, str, Fields, get, truthy}
use appbi_integration.Json.Text.{str_or}
use appbi_integration.Graph.Text.{strip}
use appbi_integration.Errors.{Result, ok, err, ◌>>=◌, schedule_invalid, uncaught}
use appbi_integration.Schedules.Parse.{Number, below, at, int_of, read_int, split_colon}

-- `str.upper`, zoneinfo and croniter. `wall` and `fold` are what `astimezone(zone)` gives for a moment: the
-- clock, and whether it is the second time that the clock shows it; `utc` is the moment of such a pair.
pub record Calendar : Type 0 where
  pub upper : String → String
  pub is_zone : String → Bool
  pub wall : String → ℕ → ℕ
  pub fold : String → ℕ → Bool
  pub utc : String → ℕ → Bool → ℕ
  pub cron_valid : String → Bool
  pub cron_next : String → String → ℕ → Option ℕ

pub data Timing : Type 0 where
  interval : ℕ → Timing
  daily : ℕ → ℕ → Timing
  cron : String → Timing

pub record Schedule : Type 0 where
  pub timing : Timing
  pub timezone : String
  pub overlap_policy : String

abbrev pub min_interval_seconds : ℕ
min_interval_seconds = 60

abbrev pub or_fallback : String → String
or_fallback name = if str_eq name "" then "Asia/Bangkok" else name

-- `resolve_zone(name)`; the zone is its name
unfoldable pub resolve_zone : Calendar → String → Result String
resolve_zone cal name =
    if cal.is_zone (or_fallback name) then ok (or_fallback name) else err schedule_invalid

-- `d.get(key) or 0`
abbrev pub or_zero : Option Json → Json
or_zero none = num 0
or_zero (some x) = if truthy x then x else num 0

abbrev pub long_enough : Option Number → Result Timing
long_enough none = err uncaught
long_enough (some below) = err schedule_invalid
long_enough (some (at seconds)) =
    if ltb seconds min_interval_seconds then err schedule_invalid else ok (interval seconds)

abbrev pub in_day : Option Number → Option Number → Result Timing
in_day (some (at hour)) (some (at minute)) =
    if ltb hour 24 && ltb minute 60 then ok (daily hour minute) else err schedule_invalid
in_day _ _ = err schedule_invalid

abbrev pub time_of : Option (String × String) → Result Timing
time_of none = err schedule_invalid
time_of (some (hour, minute)) = in_day (read_int hour) (read_int minute)

-- The branches of `validate` on the type.
unfoldable pub timing_of : Calendar → String → Fields → Result Timing
unfolding get str_or int_of split_colon read_int strip truthy
timing_of cal raw_type config =
    if str_eq raw_type "INTERVAL"
    then long_enough (int_of (or_zero (get "interval_seconds" config)))
    else if str_eq raw_type "DAILY"
    then time_of (split_colon (str_or "02:00" (get "time_of_day" config)))
    else if cal.cron_valid (strip (str_or "" (get "cron_expression" config)))
    then ok (cron (strip (str_or "" (get "cron_expression" config))))
    else err schedule_invalid

-- `ScheduleType(raw_type)`
abbrev pub known_type : String → Result String
known_type raw =
    if str_eq raw "INTERVAL"
    then ok raw
    else if str_eq raw "DAILY"
    then ok raw
    else if str_eq raw "CRON"
    then ok raw
    else err schedule_invalid

-- `validate(config, workspace_timezone=…)`
unfoldable pub validate : Calendar → Fields → String → Result Schedule
unfolding resolve_zone timing_of get str_or
validate cal config workspace_timezone = do
  raw_type ← known_type (cal.upper (str_or "INTERVAL" (get "schedule_type" config)))
  let zone_name = str_or workspace_timezone (get "timezone" config)
  zone ← resolve_zone cal zone_name
  timing ← timing_of cal raw_type config
  ok (record {
    timing = timing;
    timezone = zone_name;
    overlap_policy = str_or "SKIP_IF_RUNNING" (get "overlap_policy" config);
  })

-- `local.replace(hour=…, minute=…, second=0, microsecond=0)`
abbrev pub replace_time : ℕ → ℕ → ℕ → ℕ
replace_time hour minute local = local / 86400000 * 86400000 + hour * 3600000 + minute * 60000

-- The wall clock of the next time of day.
unfoldable pub next_daily : ℕ → ℕ → ℕ → ℕ
next_daily hour minute local =
    let candidate = replace_time hour minute local in
    if leb candidate local then candidate + 86400000 else candidate

abbrev pub found_next : Option ℕ → Result ℕ
found_next none = err uncaught
found_next (some t) = ok t

-- The fold of that time: `replace` keeps it, and `+ timedelta(days=1)` drops it.
abbrev pub next_fold : ℕ → ℕ → ℕ → Bool → Bool
next_fold hour minute local fold =
    if leb (replace_time hour minute local) local then false else fold

unfoldable pub fires_after : Calendar → Timing → String → ℕ → Result ℕ
unfolding next_daily
fires_after cal (interval seconds) zone base = ok (base + seconds * 1000)
fires_after cal (daily hour minute) zone base = ok (
    cal.utc zone (next_daily hour minute (cal.wall zone base))
      (next_fold hour minute (cal.wall zone base) (cal.fold zone base)))
fires_after cal (cron expression) zone base = found_next (cal.cron_next expression zone base)

-- `next_run_at(config, after=…)`
unfoldable pub next_run_at : Calendar → Schedule → ℕ → Result ℕ
unfolding resolve_zone fires_after
next_run_at cal s after = do zone ← resolve_zone cal s.timezone; fires_after cal s.timing zone after

abbrev pub at_least_one : ℕ → ℕ
at_least_one zero = 1
at_least_one (suc n) = suc n

-- The loop of `preview`, from a cursor.
unfoldable pub preview_from : Calendar → Schedule → ℕ → ℕ → Result (List ℕ)
unfolding next_run_at
preview_from cal s zero cursor = ok []
preview_from cal s (suc n) cursor = do
  next ← next_run_at cal s cursor
  later ← preview_from cal s n next
  ok (next ∷ later)

-- `preview(config, count=…)` at a moment
unfoldable pub preview : Calendar → Schedule → ℕ → ℕ → Result (List ℕ)
unfolding preview_from
preview cal s count now = preview_from cal s (at_least_one count) now
