-- ===== src/Workflows/Flow/Always.antt =====
-- backend/app/services/workflows.py and models/workflow.py: what holds after any sequence of requests.
use appbi_integration.Base.{
  ℕ, ◌<◌, ◌≡◌, refl, sym, ap, ◌∙◌, Bool, true, false, ◌||◌, List, [], ◌∷◌, ◌++◌, inl, inr, arith,
}
use appbi_integration.Base.Lists.{any, all, any-append}
use appbi_integration.Errors.{Result, ok, err}
use appbi_integration.Workflows.Flow.{FlowVersion, Flows, Tools}
use appbi_integration.Workflows.Flow.Publish.{max_number, is_numbered}
use appbi_integration.Workflows.Flow.Synced.{agrees}
use appbi_integration.Workflows.Flow.Requests.{FlowRequest, serve, FlowChange}
use appbi_integration.Workflows.Flow.Served.{serve-FlowChange}

-- A request that raises is rolled back.
abbrev pub or_same : Flows → Result Flows → Flows
or_same s (ok d) = d
or_same s (err e) = s

-- Requests one after the other, each with the tools of its moment.
unfoldable pub serve_all : List (Tools × FlowRequest) → Flows → Flows
unfolding serve
serve_all [] s = s
serve_all ((tools, r) ∷ rest) s = serve_all rest (or_same s (serve tools r s))

-- What every request keeps, every sequence keeps.
module _ (P : Flows → Type 0) (keeps : (s d : Flows) → FlowChange s d → P s → P d) where
  serve_all-keeps :
      (requests : List (Tools × FlowRequest)) (s : Flows) → P s → P (serve_all requests s)
  unfolding serve_all
  serve_all-keeps [] s h = h
  serve_all-keeps ((tools, r) ∷ rest) s h =
      serve_all-keeps rest (or_same s (serve tools r s)) (go (serve tools r s) refl)
    where
      go : (o : Result Flows) → serve tools r s ≡ o → P (or_same s o)
      go (ok d) p = keeps s d (serve-FlowChange tools r s d p) h
      go (err e) p = h

-- A workflow is active exactly where its trigger is enabled, and the trigger then fires the active
-- version: no sequence of requests breaks this for any of the workflows.
pub serve_all-agrees :
    (requests : List (Tools × FlowRequest)) (s : Flows)
    → all agrees s.flows ≡ true
    → all agrees (serve_all requests s).flows ≡ true
serve_all-agrees requests s h =
    serve_all-keeps (λ x. all agrees x.flows ≡ true) (λ s d c k. c.agreed k) requests s h

-- No two versions of a workflow have the same number.
abbrev pub DistinctNumbers : List FlowVersion → Type 0
DistinctNumbers [] = Unit {0}
DistinctNumbers (v ∷ rest) =
    (any (is_numbered v.workflow_id v.version_number) rest ≡ false) × DistinctNumbers rest

-- A number above all those of a workflow is none of them.
above_all : (w n : ℕ) (l : List FlowVersion) → max_number w l < n → any (is_numbered w n) l ≡ false
unfolding max_number
above_all w n [] h = refl
above_all w n (v ∷ rest) h = ground (arith, above_all w n rest)

is_numbered-swap :
    (v u : FlowVersion)
    → is_numbered v.workflow_id v.version_number u ≡ is_numbered u.workflow_id u.version_number v
is_numbered-swap v u = ground arith

-- A version with the next number of its workflow has a number of its own.
add-DistinctNumbers :
    (l : List FlowVersion) (v : FlowVersion)
    → any (is_numbered v.workflow_id v.version_number) l ≡ false
    → DistinctNumbers l
    → DistinctNumbers (l ++ v ∷ [])
add-DistinctNumbers [] v h d = (refl, tt)
add-DistinctNumbers (u ∷ l) v h (apart, d) =
    let (first, rest) =
      or_false (is_numbered v.workflow_id v.version_number u)
        (any (is_numbered v.workflow_id v.version_number) l) h in
    (
      any-append (is_numbered u.workflow_id u.version_number) l (v ∷ [])
          ∙ both_false _ _ apart (sym (is_numbered-swap v u) ∙ first),
      add-DistinctNumbers l v rest d,
    )
  where
    or_false : (a b : Bool) → (a || b) ≡ false → (a ≡ false) × (b ≡ false)
    or_false a b h = ground arith

    both_false : (a b : Bool) → a ≡ false → b ≡ false → (a || (b || false)) ≡ false
    both_false a b h k = ground arith

FlowChange-DistinctNumbers :
    (s d : Flows) → FlowChange s d → DistinctNumbers s.versions → DistinctNumbers d.versions
FlowChange-DistinctNumbers s d c h = elim c.grown [
  | inl same ↦ rw same h
  | inr (v, number, more) ↦ rw more (
      add-DistinctNumbers s.versions v
        (above_all v.workflow_id v.version_number s.versions (omega (arith, number))) h)
]

-- The numbers of the versions of a workflow stay distinct through any sequence of requests.
pub serve_all-DistinctNumbers :
    (requests : List (Tools × FlowRequest)) (s : Flows)
    → DistinctNumbers s.versions
    → DistinctNumbers (serve_all requests s).versions
serve_all-DistinctNumbers requests s h =
    serve_all-keeps (λ x. DistinctNumbers x.versions) FlowChange-DistinctNumbers requests s h

abbrev pub Extends : List FlowVersion → List FlowVersion → Type 0
Extends before after = (new : List FlowVersion) × (after ≡ before ++ new)

append_assoc : (a b c : List FlowVersion) → (a ++ b) ++ c ≡ a ++ (b ++ c)
append_assoc [] b c = refl
append_assoc (x ∷ a) b c = rw (append_assoc a b c) refl

append_nothing : (a : List FlowVersion) → a ++ [] ≡ a
append_nothing [] = refl
append_nothing (x ∷ a) = rw (append_nothing a) refl

FlowChange-Extends :
    (before : List FlowVersion) (s d : Flows)
    → FlowChange s d
    → Extends before s.versions
    → Extends before d.versions
FlowChange-Extends before s d c (new, h) = elim c.grown [
  | inl same ↦ (new, same ∙ h)
  | inr (v, number, more) ↦ (
    new ++ v ∷ [],
    more ∙ ap (λ (l : List FlowVersion). l ++ v ∷ []) h ∙ append_assoc before new (v ∷ []),
  )
]

-- A version is never changed nor removed: after any sequence of requests the versions are the ones that
-- were there, in their order and with their graphs, and new ones after them.
pub serve_all-Extends :
    (requests : List (Tools × FlowRequest)) (s : Flows)
    → Extends s.versions (serve_all requests s).versions
serve_all-Extends requests s =
    serve_all-keeps (λ x. Extends s.versions x.versions) (FlowChange-Extends s.versions) requests s
      ([], sym (append_nothing s.versions))
