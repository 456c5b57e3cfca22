-- ===== src/Executions/Lookup.antt =====
-- backend/app/services/executions.py: what `get` finds after a write.
use appbi_integration.Base.{
  ℕ, ◌≡◌, refl, ap, ◌∙◌, Bool, true, false, ◌&&◌, Option, none, some, List, [], ◌∷◌, map, ◌==◌,
  ==_refl, if◌then◌else◌, arith, Bool-cases, inl, inr,
}
use appbi_integration.Base.Lists.{find_first}
use appbi_integration.Context.{RequestContext}
use appbi_integration.Executions.{
  Execution, Store, Result, ok, err, save, write_row, execution_not_found,
}
use appbi_integration.Executions.Engine.{amend, amend_row}
use appbi_integration.Executions.Control

-- The rows that `get` looks for.
abbrev pub is_row : RequestContext → ℕ → Execution → Bool
is_row ctx id e = e.id == id && e.workspace_id == ctx.workspace_id

pub get-find :
    (s : Store) (ctx : RequestContext) (id : ℕ) (e : Execution)
    → Control.get s ctx id ≡ ok e
    → find_first (is_row ctx id) s.executions ≡ some e
unfolding Control.get
get-find s ctx id e h = go (find_first (is_row ctx id) s.executions) h
  where
    go :
        (o : Option Execution)
        → ◌≡◌ {A = Result Execution}
            (elim o [ none ↦ err execution_not_found | some x ↦ ok x ])
            (ok e)
        → o ≡ some e
    go none p = cc
    go (some x) p = cc

pub find-get :
    (s : Store) (ctx : RequestContext) (id : ℕ) (e : Execution)
    → find_first (is_row ctx id) s.executions ≡ some e
    → Control.get s ctx id ≡ ok e
unfolding Control.get
find-get s ctx id e h = rw (h, Control.get) refl

found-is_row :
    (p : Execution → Bool) (l : List Execution) (e : Execution)
    → find_first p l ≡ some e
    → p e ≡ true
found-is_row p [] e h = cc
found-is_row p (x ∷ l) e h = ground (arith, found-is_row p l e)

is_row-same :
    (ctx : RequestContext) (id : ℕ) (e : Execution)
    → is_row ctx id e ≡ true
    → (e.id ≡ id) × (e.workspace_id ≡ ctx.workspace_id)
is_row-same ctx id e h = ground arith

pub get-same :
    (s : Store) (ctx : RequestContext) (id : ℕ) (e : Execution)
    → Control.get s ctx id ≡ ok e
    → (e.id ≡ id) × (e.workspace_id ≡ ctx.workspace_id)
get-same s ctx id e h =
    is_row-same ctx id e (found-is_row (is_row ctx id) s.executions e (get-find s ctx id e h))

step_found :
    (b : Bool) (x : Execution) (o : Option Execution) {e : Execution}
    → (if b then some x else o) ≡ some e
    → b ≡ false
    → o ≡ some e
step_found true x o h p = cc
step_found false x o h p = h

step_head :
    (b : Bool) (x : Execution) (o : Option Execution) {e : Execution}
    → (if b then some x else o) ≡ some e
    → b ≡ true
    → x ≡ e
step_head true x o h p = cc
step_head false x o h p = cc

other_id :
    (ctx : RequestContext) (id : ℕ) (x : Execution) → (x.id == id) ≡ false → is_row ctx id x ≡ false
other_id ctx id x h = rw h refl

find-write :
    (ctx : RequestContext) (f : Execution) (l : List Execution) (e : Execution)
    → f.workspace_id ≡ ctx.workspace_id
    → find_first (is_row ctx f.id) l ≡ some e
    → find_first (is_row ctx f.id) (map (write_row f) l) ≡ some f
find-write ctx f [] e ws h = cc
find-write ctx f (x ∷ l) e ws h = elim (Bool-cases (x.id == f.id)) [
  | inl q ↦ rw q (rw (==_refl f.id) (rw ws (rw (==_refl ctx.workspace_id) refl)))
  | inr q ↦ rw q (
      rw (other_id ctx f.id x q)
        (find-write ctx f l e ws (step_found _ x _ h (other_id ctx f.id x q))))
]

-- After a row is written, `get` finds it.
pub get-save :
    (s : Store) (ctx : RequestContext) (f e : Execution)
    → f.workspace_id ≡ ctx.workspace_id
    → Control.get s ctx f.id ≡ ok e
    → Control.get (save f s) ctx f.id ≡ ok f
unfolding save
get-save s ctx f e ws h =
    find-get (save f s) ctx f.id f (find-write ctx f s.executions e ws (get-find s ctx f.id e h))

module _ (ctx : RequestContext) (id : ℕ) (g : Execution → Execution)
    (keeps : (x : Execution) → is_row ctx id (g x) ≡ is_row ctx id x) where
  find-amend :
      (l : List Execution) (e : Execution)
      → find_first (is_row ctx id) l ≡ some e
      → find_first (is_row ctx id) (map (amend_row id g) l) ≡ some (g e)
  find-amend [] e h = cc
  find-amend (x ∷ l) e h = elim (Bool-cases (x.id == id)) [
    | inl q ↦ elim (Bool-cases (is_row ctx id x)) [
      | inl r ↦ rw q (rw (keeps x ∙ r) (ap (λ (y : Execution). some (g y)) (step_head _ x _ h r)))
      | inr r ↦ rw q (rw (keeps x ∙ r) (find-amend l e (step_found _ x _ h r)))
    ]
    | inr q ↦
        rw q (rw (other_id ctx id x q) (find-amend l e (step_found _ x _ h (other_id ctx id x q))))
  ]

  -- After a row is amended, `get` finds what was made of it.
  pub get-amend :
      (s : Store) (e : Execution)
      → Control.get s ctx id ≡ ok e
      → Control.get (amend id g s) ctx id ≡ ok (g e)
  unfolding amend
  get-amend s e h =
      find-get (amend id g s) ctx id (g e) (find-amend s.executions e (get-find s ctx id e h))
