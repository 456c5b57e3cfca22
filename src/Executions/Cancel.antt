-- ===== src/Executions/Cancel.antt =====
-- backend/app/services/executions.py: `cancel` of a run that the engine was not yet given, and what
-- a `dispatch` that was waiting for the engine makes of it.
use appbi_integration.Base.{
  ℕ, String, ◌≡◌, refl, sym, ap, subst, ◌∙◌, false, none, some, if◌then◌else◌,
}
use appbi_integration.Permissions.{Module, Action, granted}
use appbi_integration.Context.{RequestContext, require_context}
use appbi_integration.Executions.{
  dispatching, running, is_terminal, Execution, Store, Env, ok, save,
}
use appbi_integration.Executions.Engine.{accepted, amend, dispatch_end, dispatch_answered}
use appbi_integration.Executions.Control.{
  CancelAnswer, record_cancel, request_cancel, cancelled_row, cancel_active, cancel,
}
use appbi_integration.Executions.Control
use appbi_integration.Executions.Lookup.{get-same, get-save, get-amend}

module _ (env : Env) (ctx : RequestContext) (answer : CancelAnswer) (now id : ℕ) (s : Store)
    (e : Execution) (permitted : require_context ctx Module.executions Action.execute ≡ granted)
    (found : Control.get s ctx id ≡ ok e) where
  cancel_found :
      cancel env ctx answer now id s
      ≡ (if is_terminal e.status then ok s else cancel_active env answer now e s)
  unfolding cancel
  cancel_found = rw permitted (rw found refl)

-- The store after the cancellation of a run that has no reference to the engine.
unfoldable pub cancelled_store : ℕ → Execution → Store → Store
unfolding record_cancel cancelled_row save
cancelled_store now e s =
    record_cancel e.id (save (cancelled_row now (request_cancel e)) (save (request_cancel e) s))

cancel_active-none :
    (env : Env) (answer : CancelAnswer) (now : ℕ) (e : Execution) (s : Store)
    → e.engine_ref ≡ none
    → cancel_active env answer now e s ≡ ok (cancelled_store now e s)
unfolding cancel_active cancelled_store
cancel_active-none env answer now e s h = rw h refl

cancel_undispatched :
    (env : Env) (ctx : RequestContext) (answer : CancelAnswer) (now id : ℕ) (s : Store)
    (e : Execution)
    → require_context ctx Module.executions Action.execute ≡ granted
    → Control.get s ctx id ≡ ok e
    → e.engine_ref ≡ none
    → is_terminal e.status ≡ false
    → cancel env ctx answer now id s ≡ ok (cancelled_store now e s)
cancel_undispatched env ctx answer now id s e permitted found h live =
    cancel_found env ctx answer now id s e permitted found
    ∙ rw live (cancel_active-none env answer now e s h)

get-record_cancel :
    (s : Store) (ctx : RequestContext) (id other : ℕ)
    → Control.get (record_cancel other s) ctx id ≡ Control.get s ctx id
unfolding record_cancel Control.get
get-record_cancel s ctx id other = refl

get-cancelled :
    (ctx : RequestContext) (now id : ℕ) (s : Store) (e : Execution)
    → Control.get s ctx id ≡ ok e
    → Control.get (cancelled_store now e s) ctx id ≡ ok (cancelled_row now (request_cancel e))
unfolding cancelled_store
get-cancelled ctx now id s e found =
    let (same, ws) = get-same s ctx id e found in
    let asked = request_cancel e in
    subst
      (λ (i : ℕ).
        Control.get (cancelled_store now e s) ctx i ≡ ok (cancelled_row now (request_cancel e)))
      same
      (get-record_cancel (save (cancelled_row now asked) (save asked s)) ctx e.id e.id
        ∙ get-save (save asked s) ctx (cancelled_row now asked) asked ws (
            get-save s ctx asked e ws
              (subst (λ (i : ℕ). Control.get s ctx i ≡ ok e) (sym same) found)))

-- If the caller may execute runs and finds one that has not ended and has no reference to the
-- engine, cancelling it succeeds whatever the engine would say, ends it as cancelled at that
-- moment, and a second cancellation changes nothing.
pub cancel_settles :
    (env : Env) (ctx : RequestContext) (answer again : CancelAnswer) (now later id : ℕ) (s : Store)
    (e : Execution)
    → require_context ctx Module.executions Action.execute ≡ granted
    → Control.get s ctx id ≡ ok e
    → e.engine_ref ≡ none
    → is_terminal e.status ≡ false
    → (s' : Store) × (cancel env ctx answer now id s ≡ ok s')
      × (Control.get s' ctx id ≡ ok (cancelled_row now (request_cancel e)))
      × (cancel env ctx again later id s' ≡ ok s')
cancel_settles env ctx answer again now later id s e permitted found h live =
    let s' = cancelled_store now e s in
    let after = get-cancelled ctx now id s e found in
    (
      s',
      cancel_undispatched env ctx answer now id s e permitted found h live,
      after,
      cancel_found env ctx again later id s' (cancelled_row now (request_cancel e)) permitted after
          ∙ unfold cancelled_row in refl,
    )

dispatched_rows :
    (env : Env) (ref : String) (now : ℕ) (e : Execution) (s : Store)
    → dispatch_answered env (accepted ref) now e s
      ≡ amend e.id (dispatch_end (accepted ref) now e) s
unfolding dispatch_answered
dispatched_rows env ref now e s = refl

get-accepted :
    (env : Env) (ctx : RequestContext) (ref : String) (now id : ℕ) (s : Store) (e row : Execution)
    → e.id ≡ id
    → Control.get s ctx id ≡ ok row
    → Control.get (dispatch_answered env (accepted ref) now e s) ctx id
      ≡ ok (dispatch_end (accepted ref) now e row)
unfolding dispatch_end
get-accepted env ctx ref now id s e row same found =
    rw (dispatched_rows env ref now e s)
      (rw same (get-amend ctx id (dispatch_end (accepted ref) now e) (λ x. refl) s row found))

-- If a caller who may execute runs cancels one while its dispatch waits for the engine, the run
-- does not stay cancelled: once the engine accepts it, the row is running again, with the end time
-- of the cancellation.
pub cancel_lost :
    (env : Env) (ctx : RequestContext) (answer : CancelAnswer) (ref : String) (now later id : ℕ)
    (s : Store) (e : Execution)
    → require_context ctx Module.executions Action.execute ≡ granted
    → Control.get s ctx id ≡ ok e
    → e.engine_ref ≡ none
    → e.status ≡ dispatching
    → (s' : Store) × (f : Execution) × (cancel env ctx answer now id s ≡ ok s')
      × (Control.get s' ctx id ≡ ok (cancelled_row now (request_cancel e)))
      × (Control.get (dispatch_answered env (accepted ref) later e s') ctx id ≡ ok f)
      × (f.status ≡ running)
      × (f.ended_at ≡ some now)
cancel_lost env ctx answer ref now later id s e permitted found h live =
    let s' = cancelled_store now e s in
    let after = get-cancelled ctx now id s e found in
    (
      s',
      dispatch_end (accepted ref) later e (cancelled_row now (request_cancel e)),
      cancel_undispatched env ctx answer now id s e permitted found h (ap is_terminal live),
      after,
      get-accepted env ctx ref later id s' e (cancelled_row now (request_cancel e))
          (get-same s ctx id e found).0 after,
      unfold dispatch_end in refl,
      unfold dispatch_end cancelled_row in refl,
    )
