-- ===== src/Executions/Slots.antt =====
-- backend/app/services/executions.py: what the end of a run does to the counts that `_check_concurrency` takes.
use appbi_integration.Base.{
  ℕ, suc, String, ◌≡◌, refl, ap, ◌∙◌, Bool, true, false, not, ◌&&◌, Option, none, some, List, [],
  ◌∷◌, ◌++◌, map, arith, ◌==◌, ==_refl, &&_split,
}
use appbi_integration.Base.Lists.{count_if, count_if-append, all}
use appbi_integration.Executions.{
  Status, is_terminal, is_active, Execution, Store, Env, save, write_row, active_in_workspace,
  active_in_workflow,
}
use appbi_integration.Executions.Engine.{EngineStatus, finish}
use appbi_integration.Executions.Ingest.{
  ended_row, is_running, interrupted_row, never_started_row, ingest, mark_interrupted, replace_rows,
  interrupt_stale,
}

abbrev pub is_apart : Execution → Execution → Bool
is_apart e x = not (x.id == e.id)

-- `e` is a row of the table, and no other row has its id.
abbrev pub IsOnlyRow : Execution → Store → Type 0
IsOnlyRow e s =
    (before : List Execution) × (after : List Execution) × (s.executions ≡ before ++ e ∷ after)
    × (all (is_apart e) before ≡ true)
    × (all (is_apart e) after ≡ true)

-- The slots that runs hold in the workspace and in the workflow of `e`.
abbrev pub slots : Execution → Store → ℕ × ℕ
slots e s = (
  count_if (active_in_workspace e.workspace_id) s.executions,
  count_if (active_in_workflow e.workspace_id e.workflow_id) s.executions,
)

-- One slot less in both.
abbrev pub Releases : Execution → Store → Store → Type 0
Releases e s s' = (suc (slots e s').0 ≡ (slots e s).0) × (suc (slots e s').1 ≡ (slots e s).1)

others-stay :
    (e f : Execution) (l : List Execution)
    → f.id ≡ e.id
    → all (is_apart e) l ≡ true
    → map (write_row f) l ≡ l
others-stay e f [] same h = refl
others-stay e f (x ∷ l) same h =
    let (here, later) = &&_split (is_apart e x) (all (is_apart e) l) h in
    rw (other x.id e.id f.id same here) (ap (λ m. x ∷ m) (others-stay e f l same later))
  where
    other : (a b c : ℕ) → c ≡ b → not (a == b) ≡ true → (a == c) ≡ false
    other a b c h k = ground arith

map-append :
    (g : Execution → Execution) (l m : List Execution) → map g (l ++ m) ≡ map g l ++ map g m
map-append g [] m = refl
map-append g (x ∷ l) m = ap (λ k. g x ∷ k) (map-append g l m)

-- The table after a write over the only row of an id.
written :
    (e f : Execution) (before after : List Execution)
    → f.id ≡ e.id
    → all (is_apart e) before ≡ true
    → all (is_apart e) after ≡ true
    → map (write_row f) (before ++ e ∷ after) ≡ before ++ f ∷ after
written e f before after same h k =
    map-append (write_row f) before (e ∷ after)
    ∙ rw (others-stay e f before same h)
        (rw (others-stay e f after same k) (rw same (rw (==_refl e.id) refl)))

count-one :
    (p : Execution → Bool) (e f : Execution) (before after : List Execution)
    → p e ≡ true
    → p f ≡ false
    → suc (count_if p (before ++ f ∷ after)) ≡ count_if p (before ++ e ∷ after)
count-one p e f before after h k =
    rw (count_if-append p before (f ∷ after))
      (rw (count_if-append p before (e ∷ after)) (rw h (rw k (omega arith))))

module _ (e f : Execution) (s : Store) where
  save-Releases :
      IsOnlyRow e s
      → is_active e.status ≡ true
      → f.id ≡ e.id
      → is_active f.status ≡ false
      → Releases e s (save f s)
  unfolding save
  save-Releases (before, after, rows, h, k) held same over = rw rows (
      rw (written e f before after same h k) (
        count-one (active_in_workspace e.workspace_id) e f before after
            (rw held (rw (==_refl e.workspace_id) refl))
            (rw over (none_of (f.workspace_id == e.workspace_id))),
        count-one (active_in_workflow e.workspace_id e.workflow_id) e f before after
            (rw held (rw (==_refl e.workspace_id) (rw (==_refl e.workflow_id) refl)))
            (rw over
              (none_of2 (f.workspace_id == e.workspace_id) (f.workflow_id == e.workflow_id))),
      ))
    where
      none_of : (b : Bool) → (b && false) ≡ false
      none_of b = ground arith

      none_of2 : (b c : Bool) → (b && c && false) ≡ false
      none_of2 b c = ground arith

over_status : (t : Status) → is_terminal t ≡ true → (is_active t ≡ false) × (is_running t ≡ false)
over_status t h = (ground arith, ground arith)

-- An active run whose row is the only one of its id holds a slot in its workspace and in its workflow, and each
-- of its ends gives back that slot and no other: a report of the engine with a status that is
-- terminal, an interruption, and the time-out of the reconciler, whether the run has a reference or not.
pub endings_release :
    (env : Env) (status : EngineStatus) (reason : String) (now : ℕ) (e : Execution) (s : Store)
    → IsOnlyRow e s
    → is_active e.status ≡ true
    → is_terminal status.status ≡ true
    → Releases e s (ingest env status now e s)
      × Releases e s (mark_interrupted env reason now e s)
      × Releases e s (interrupt_stale env now e s e.engine_ref)
unfolding ingest ended_row replace_rows finish mark_interrupted interrupt_stale interrupted_row
    never_started_row save
endings_release env status reason now e s only held ends =
    let (over, still) = over_status status.status ends in
    (
      rw still (save-Releases e (ended_row status now e) s only held refl over),
      save-Releases e (interrupted_row reason now e) s only held refl refl,
      timed_out e.engine_ref,
    )
  where
    timed_out : (o : Option String) → Releases e s (interrupt_stale env now e s o)
    timed_out none = save-Releases e (never_started_row now e) s only held refl refl
    timed_out (some ref) =
        save-Releases e
          (interrupted_row "Engine không xác nhận lần chạy này trong thời gian cho phép." now e) s
          only held refl refl
