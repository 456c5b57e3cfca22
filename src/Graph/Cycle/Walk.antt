-- ===== src/Graph/Cycle/Walk.antt =====
-- What a cycle is: a walk along edges from a node back to itself.
use mathlib.Core.List.{Memᴰ}
use appbi_integration.Base.{String, ◌≡◌, ◌⊎◌, inl, inr, subst, sym}
use appbi_integration.Graph.Cycle.{Adjacency, neighbours}

abbrev pub Edge : Adjacency → String → String → Type 0
Edge adjacency u v = Memᴰ v (neighbours adjacency u)

-- A walk of at least one edge.
pub data Walk (adjacency : Adjacency) (u : String) : String → Type 0 where
  one : {v : String} → Edge adjacency u v → Walk adjacency u v
  more : {v w : String} → Walk adjacency u v → Edge adjacency v w → Walk adjacency u w

-- A walk of any length.
abbrev pub Reaches : Adjacency → String → String → Type 0
Reaches adjacency u v = (u ≡ v) ⊎ Walk adjacency u v

abbrev pub Cyclic : Adjacency → Type 0
Cyclic adjacency = (u : String) × Walk adjacency u u

pub Walk-Edge :
    {adjacency : Adjacency} {u v w : String}
    → Reaches adjacency u v
    → Edge adjacency v w
    → Walk adjacency u w
Walk-Edge {adjacency} {w = w} (inl p) e = one (subst (λ x. Edge adjacency x w) (sym p) e)
Walk-Edge (inr r) e = more r e
