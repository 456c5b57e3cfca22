-- ===== src/Triggers/Fired.antt =====
-- backend/app/services/triggers.py, `fire_schedule`: a binding that was fired is not due at once again.
use appbi_integration.Base.{
  ℕ, ◌<◌, ◌≤◌, ◌+◌, ◌-◌, String, ◌≡◌, refl, sym, ap, ◌∙◌, subst, Bool, true, false, ◌&&◌, ◌⊎◌,
  Option, none, some, ltb, arith, Bool-cases, inl, inr, unsome, if◌then◌else◌,
}
use appbi_integration.Errors.{Result, ok, err, bind-ok, ok-injective}
use appbi_integration.Executions.{Execution, Workflow, Store, Env}
use appbi_integration.Context.{system}
use appbi_integration.Executions.Create.{create}
use appbi_integration.Schedules.{
  Calendar, Timing, interval, daily, cron, Schedule, resolve_zone, fires_after, next_run_at,
  or_fallback, found_next,
}
use appbi_integration.Schedules.Fires.{IsSound, next_daily-bounds}
use appbi_integration.Workflows.Flow.{BindingConfig, Binding}
use appbi_integration.Workflows.Flow.Publish.{schedule_of}
use appbi_integration.Triggers.{
  Placed, is_due, live_workflow, disabled, is_uncaught, advanced, advance, active_runs, skips,
  Firing, attempt, with_advanced, fire_if_live, fire_schedule, fired_or_kept, schedule_request,
}

-- Between a moment and the same time a day later the zone does not change its clock: a clock time of that day
-- is as far from the moment as it is from the clock that the moment has, and comes only once.
abbrev pub IsSteady : Calendar → String → ℕ → Type 0
IsSteady cal zone now =
    (t : ℕ) (fold : Bool) → t ≤ 86400000 → cal.utc zone (cal.wall zone now + t) fold ≡ now + t

-- What is asked of the calendar, by the type of a schedule: that the zone has no change of its clock within the
-- day, for a time of day; and for a cron expression what croniter documents, that the next time is
-- after the one that is asked from.
abbrev pub Advances : Calendar → Timing → String → ℕ → Type 0
Advances cal (interval seconds) zone now = Unit {0}
Advances cal (daily hour minute) zone now = IsSteady cal (or_fallback zone) now
Advances cal (cron expression) zone now =
    (next : ℕ) → cal.cron_next expression (or_fallback zone) now ≡ some next → now < next

moved_by : (l n : ℕ) → l < n → n ≤ l + 86400000 → (t : ℕ) × (n ≡ l + t) × (0 < t) × (t ≤ 86400000)
moved_by l n h k = (n - l, omega arith, omega arith, omega arith)

after_moment : (now t n : ℕ) → 0 < t → n ≡ now + t → now < n
after_moment now t n h k = omega arith

steady-later :
    (cal : Calendar) (zone : String) (now local : ℕ) (fold : Bool)
    → IsSteady cal zone now
    → cal.wall zone now < local
    → local ≤ cal.wall zone now + 86400000
    → now < cal.utc zone local fold
steady-later cal zone now local fold steady h k =
    let (t, at_t, positive, within) = moved_by (cal.wall zone now) local h k in
    after_moment now t (cal.utc zone local fold) positive
      (ap (λ (x : ℕ). cal.utc zone x fold) at_t ∙ steady t fold within)

fires_after-later :
    (cal : Calendar) (t : Timing) (name : String) (now next : ℕ)
    → Advances cal t name now
    → IsSound cal t
    → fires_after cal t (or_fallback name) now ≡ ok next
    → now < next
unfolding fires_after
fires_after-later cal (interval seconds) name now next c sound h =
    subst (λ (x : ℕ). now < x) (ok-injective h) (omega (arith, sound))
fires_after-later cal (daily hour minute) name now next c (hours, minutes) h =
    let zone = or_fallback name in
    let (later, within, shown) = next_daily-bounds hour minute (cal.wall zone now) hours minutes in
    subst (λ (x : ℕ). now < x) (ok-injective h) (steady-later cal zone now _ _ c later within)
fires_after-later cal (cron expression) name now next c sound h =
    go (cal.cron_next expression (or_fallback name) now) refl h
  where
    go :
        (o : Option ℕ)
        → cal.cron_next expression (or_fallback name) now ≡ o
        → found_next o ≡ ok next
        → now < next
    go none p q = cc
    go (some t) p q = c next (p ∙ ap (λ (x : ℕ). some x) (ok-injective q))

resolved :
    (cal : Calendar) (name zone : String)
    → resolve_zone cal name ≡ ok zone
    → or_fallback name ≡ zone
unfolding resolve_zone
resolved cal name zone h = elim (Bool-cases (cal.is_zone (or_fallback name))) [
  | inl k ↦ ok-injective (rw k at h)
  | inr k ↦ cc (rw k at h)
]

-- The next fire time of a schedule that was accepted is after the moment that it is asked at.
next_run_at-later :
    (cal : Calendar) (s : Schedule) (now next : ℕ)
    → Advances cal s.timing s.timezone now
    → IsSound cal s.timing
    → next_run_at cal s now ≡ ok next
    → now < next
unfolding next_run_at
next_run_at-later cal s now next c sound h =
    let (zone, placed, h1) = bind-ok (resolve_zone cal s.timezone) _ h in
    fires_after-later cal s.timing s.timezone now next c sound (
      subst (λ (z : String). fires_after cal s.timing z now ≡ ok next)
        (sym (resolved cal s.timezone zone placed)) h1)

not_past :
    (now : ℕ) (b : Binding) (t : ℕ)
    → now < t
    → is_due now (record b { next_run_at = some t }) ≡ false
not_past now b t h = ground arith

disabled-not_due : (now : ℕ) (b : Binding) → is_due now (disabled b) ≡ false
disabled-not_due now b = refl

advance-not_due :
    (cal : Calendar) (now : ℕ) (b next : Binding)
    → Advances cal (schedule_of b.config).timing (schedule_of b.config).timezone now
    → IsSound cal (schedule_of b.config).timing
    → advance cal now b ≡ ok next
    → is_due now next ≡ false
unfolding advance
advance-not_due cal now b next c sound h = go (next_run_at cal (schedule_of b.config) now) refl h
  where
    go :
        (r : Result ℕ)
        → next_run_at cal (schedule_of b.config) now ≡ r
        → advanced b r ≡ ok next
        → is_due now next ≡ false
    go (ok t) p q =
        subst (λ (x : Binding). is_due now x ≡ false) (ok-injective q)
          (not_past now b t (next_run_at-later cal (schedule_of b.config) now t c sound p))
    go (err e) p q = elim (Bool-cases (is_uncaught e)) [
      | inl k ↦ cc (rw k at q)
      | inr k ↦
          subst (λ (x : Binding). is_due now x ≡ false) (ok-injective (rw k at q))
            (disabled-not_due now b)
    ]

-- The run comes from `create`, with the version that the binding is pinned to, and under SKIP_IF_RUNNING only
-- where no run of the workflow is active; the schedule itself is not touched.
abbrev pub Tried : Env → ℕ → ℕ → ℕ → Binding → Store → Firing → Type 0
Tried env now workflow workspace b s (none, after, written) = after.config ≡ b.config
Tried env now workflow workspace b s (some e, after, written) =
    (version : ℕ) × (b.workflow_version_id ≡ some version)
    × ((skips b.overlap_policy ≡ false) ⊎ (active_runs s workflow ≡ 0))
    × (create env (system workspace) (schedule_request workflow version) now s s ≡ ok (e, written))
    × (after.config ≡ b.config)

module _ (env : Env) (now workflow workspace : ℕ) (b : Binding) (s : Store) where
  Tried-create :
      (version : ℕ) (r : Result (Execution × Store))
      → b.workflow_version_id ≡ some version
      → (skips b.overlap_policy ≡ false) ⊎ (active_runs s workflow ≡ 0)
      → create env (system workspace) (schedule_request workflow version) now s s ≡ r
      → Tried env now workflow workspace b s (fired_or_kept b s r)
  Tried-create version (ok (e, written)) pinned free made = (version, pinned, free, made, refl)
  Tried-create version (err e) pinned free made = refl

  free_of :
      (skips b.overlap_policy && ltb 0 (active_runs s workflow)) ≡ false
      → (skips b.overlap_policy ≡ false) ⊎ (active_runs s workflow ≡ 0)
  free_of h = elim (Bool-cases (skips b.overlap_policy)) [
    | inl k ↦ inr (no_run (active_runs s workflow) (rw k at h))
    | inr k ↦ inl k
  ]
    where
      no_run : (n : ℕ) → ltb 0 n ≡ false → n ≡ 0
      no_run n h = ground arith

  attempt-Tried : Tried env now workflow workspace b s (attempt env now workflow workspace b s)
  unfolding attempt
  attempt-Tried =
      go (skips b.overlap_policy && ltb 0 (active_runs s workflow)) refl b.workflow_version_id refl
    where
      go :
          (c : Bool)
          → (skips b.overlap_policy && ltb 0 (active_runs s workflow)) ≡ c
          → (o : Option ℕ) → b.workflow_version_id ≡ o
          → Tried env now workflow workspace b s (
              if c then (none, b, s) else elim o [
                | none ↦ (none, disabled b, s)
                | some version ↦
                    fired_or_kept b s
                      (create env (system workspace) (schedule_request workflow version) now s s)
              ])
      go true p o q = refl
      go false p none q = refl
      go false p (some version) q = Tried-create version _ q (free_of p) refl

Tried-config :
    (env : Env) (now workflow workspace : ℕ) (b : Binding) (s : Store) (t : Firing)
    → Tried env now workflow workspace b s t
    → t.1.config ≡ b.config
Tried-config env now workflow workspace b s (none, after, written) h = h
Tried-config env now workflow workspace b s (some e, after, written)
      (version, pinned, free, made, same) =
    same

-- After a firing the binding is not due at that moment any more: the fire time has moved past it, or the
-- binding is switched off. The schedule has to be one that was accepted; under a time of day its zone
-- must not change its clock within a day of that moment, and under a cron expression croniter must give a time
-- after the one that it is asked from.
pub fire_schedule-not_due :
    (env : Env) (cal : Calendar) (now : ℕ) (exists : Bool) (p : Placed) (s s' : Store)
    (fired : Option Execution) (b : Binding)
    → Advances cal (schedule_of p.binding.config).timing (schedule_of p.binding.config).timezone now
    → IsSound cal (schedule_of p.binding.config).timing
    → fire_schedule env cal now exists p s ≡ ok (fired, b, s')
    → is_due now b ≡ false
unfolding fire_schedule
fire_schedule-not_due env cal now exists p s s' fired b c sound h =
    go (live_workflow s p.workflow_id) exists
      (attempt env now p.workflow_id p.workspace_id p.binding s)
      (Tried-config env now p.workflow_id p.workspace_id p.binding s _
        (attempt-Tried env now p.workflow_id p.workspace_id p.binding s))
      h
  where
    is_binding : (x : Firing) → ok x ≡ ok (fired, b, s') → x.1 ≡ b
    is_binding x k = ap (λ (y : Firing). y.1) (ok-injective k)

    moved : (t : Firing) (r : Result Binding) → with_advanced t r ≡ ok (fired, b, s') → r ≡ ok b
    moved (f, x, y) (ok next) k = ap (λ (z : Firing). ok z.1) (ok-injective k)
    moved (f, x, y) (err e) k = cc

    go :
        (o : Option Workflow) (there : Bool) (t : Firing)
        → t.1.config ≡ p.binding.config
        → fire_if_live o there t cal now p.binding s ≡ ok (fired, b, s')
        → is_due now b ≡ false
    go none there t same k =
        subst (λ (x : Binding). is_due now x ≡ false) (is_binding _ k)
          (disabled-not_due now p.binding)
    go (some w) false t same k =
        subst (λ (x : Binding). is_due now x ≡ false) (is_binding _ k)
          (disabled-not_due now p.binding)
    go (some w) true t same k =
        advance-not_due cal now t.1 b
          (subst
            (λ (config : BindingConfig).
              Advances cal (schedule_of config).timing (schedule_of config).timezone now)
            (sym same) c)
          (subst (λ (config : BindingConfig). IsSound cal (schedule_of config).timing) (sym same)
            sound)
          (moved t (advance cal now t.1) k)

-- A run that a schedule fires is one that `create` made for the version the binding is pinned to; under
-- SKIP_IF_RUNNING no run of the workflow was active then.
pub fire_schedule-fires :
    (env : Env) (cal : Calendar) (now : ℕ) (exists : Bool) (p : Placed) (s s' : Store)
    (e : Execution) (b : Binding)
    → fire_schedule env cal now exists p s ≡ ok (some e, b, s')
    → (version : ℕ) × (p.binding.workflow_version_id ≡ some version)
      × ((skips p.binding.overlap_policy ≡ false) ⊎ (active_runs s p.workflow_id ≡ 0))
      × (create env (system p.workspace_id) (schedule_request p.workflow_id version) now s s
          ≡ ok (e, s'))
unfolding fire_schedule
fire_schedule-fires env cal now exists p s s' e b h =
    go (live_workflow s p.workflow_id) exists
      (attempt env now p.workflow_id p.workspace_id p.binding s)
      (attempt-Tried env now p.workflow_id p.workspace_id p.binding s) h
  where
    Made : Execution → Store → Type 0
    Made x y =
        (version : ℕ) × (p.binding.workflow_version_id ≡ some version)
        × ((skips p.binding.overlap_policy ≡ false) ⊎ (active_runs s p.workflow_id ≡ 0))
        × (create env (system p.workspace_id) (schedule_request p.workflow_id version) now s s
            ≡ ok (x, y))

    finish :
        (t : Firing) (r : Result Binding)
        → Tried env now p.workflow_id p.workspace_id p.binding s t
        → with_advanced t r ≡ ok (some e, b, s')
        → Made e s'
    finish (none, a, y) (ok n) tried k = cc (ap (λ (z : Firing). z.0) (ok-injective k))
    finish (some x, a, y) (ok n) (version, pinned, free, made, same) k =
        let whole = ok-injective k in
        subst (λ (z : Store). Made e z) (ap (λ (z : Firing). z.2) whole)
          (subst (λ (z : Execution). Made z y) (unsome (ap (λ (z : Firing). z.0) whole))
            (version, pinned, free, made))
    finish (some x, a, y) (err f) tried k = cc
    finish (none, a, y) (err f) tried k = cc

    go :
        (o : Option Workflow) (there : Bool) (t : Firing)
        → Tried env now p.workflow_id p.workspace_id p.binding s t
        → fire_if_live o there t cal now p.binding s ≡ ok (some e, b, s')
        → Made e s'
    go none there t tried k = cc
    go (some w) false t tried k = cc
    go (some w) true t tried k = finish t (advance cal now t.1) tried k
