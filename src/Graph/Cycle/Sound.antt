-- ===== src/Graph/Cycle/Sound.antt =====
-- A cycle that the search reports is there.
use mathlib.Core.List.{Memᴰ}
use appbi_integration.Base.{
  ℕ, zero, suc, String, ◌≡◌, ◌≢◌, refl, sym, inl, inr, Bool, true, false, none, some, List, [], ◌∷◌,
  arith,
}
use appbi_integration.Base.Lists.{length}
use appbi_integration.Graph.Dict.{keys}
use appbi_integration.Graph.Cycle.{
  Colour, white, grey, black, Colours, paint, Adjacency, neighbours, Visited, unless_found,
  on_colour, scan, visit, search_from, has_cycle, found,
}
use appbi_integration.Graph.Cycle.Steps.{Hit, on_stack, below, later, scan-true}
use appbi_integration.Graph.Cycle.Walk.{Edge, Walk, Reaches, Cyclic, Walk-Edge}
use appbi_integration.Graph.Cycle.Kept.{
  paint_cases, Finishes, Passed-Kept, visit-true, visit-Finishes,
}

-- Every node on the stack has a walk to `n`.
abbrev StackReaches : Adjacency → Colours → String → Type 0
StackReaches adjacency c n = (g : String) → c g ≡ grey → Reaches adjacency g n

abbrev StackWalks : Adjacency → Colours → String → Type 0
StackWalks adjacency c n = (g : String) → c g ≡ grey → Walk adjacency g n

-- A visit below the stack that reports a cycle is right.
abbrev Reports : Adjacency → (String → Colours → Visited) → Type 0
Reports adjacency v =
    (n : String) (c d : Colours)
    → c n ≡ white
    → StackWalks adjacency c n
    → v n c ≡ some (true, d)
    → Cyclic adjacency

module _ (adjacency : Adjacency) (v : String → Colours → Visited) (fin : Finishes v)
    (rep : Reports adjacency v) (node : String) where
  scan-Cyclic :
      (ns : List String) (c d : Colours)
      → ((x : String) → Memᴰ x ns → Edge adjacency node x)
      → StackReaches adjacency c node
      → scan v ns c ≡ some (true, d)
      → Cyclic adjacency
  scan-Cyclic [] c d edges stack h = unfold scan in cc
  scan-Cyclic (n ∷ ns) c d edges stack h =
      go (scan-true v n ns c h) (λ e. scan-Cyclic ns e d (λ x m. edges x (Memᴰ.tail m)))
    where
      edge : Edge adjacency node n
      edge = edges n (Memᴰ.head refl)

      go :
          Hit v n c (scan v ns) (some (true, d))
          → ((e : Colours)
              → StackReaches adjacency e node
              → scan v ns e ≡ some (true, d)
              → Cyclic adjacency)
          → Cyclic adjacency
      go (on_stack g) rest = (n, Walk-Edge (stack n g) edge)
      go (below e w r) rest = rep n c e w (λ g p. Walk-Edge (stack g p) edge) r
      go (later p) rest =
          rest p.left (λ g q. stack g ((Passed-Kept v fin p.how).0.grey_old g q)) p.then

painted_stack :
    (adjacency : Adjacency) (n : String) (c : Colours)
    → StackWalks adjacency c n
    → StackReaches adjacency (paint n grey c) n
painted_stack adjacency n c stack g p = elim (paint_cases n grey c g) [
  | inl e ↦ inl (sym e)
  | inr e ↦ inr (stack g (rw e at p))
]

visit-Reports : (adjacency : Adjacency) (fuel : ℕ) → Reports adjacency (visit adjacency fuel)
visit-Reports adjacency zero n c d w stack h = unfold visit in cc
visit-Reports adjacency (suc fuel) n c d w stack h =
    scan-Cyclic adjacency (visit adjacency fuel) (visit-Finishes adjacency fuel)
      (visit-Reports adjacency fuel) n (neighbours adjacency n) (paint n grey c) d (λ x m. m)
      (painted_stack adjacency n c stack) (visit-true adjacency fuel n c d h)

-- No node is on the stack.
abbrev pub IsIdle : Colours → Type 0
IsIdle c = (x : String) → c x ≢ grey

search_from-Cyclic :
    (adjacency : Adjacency) (fuel : ℕ) (ns : List String) (c d : Colours)
    → IsIdle c
    → search_from (visit adjacency fuel) ns c ≡ some (true, d)
    → Cyclic adjacency
search_from-Cyclic adjacency fuel [] c d idle h = unfold search_from in cc
search_from-Cyclic adjacency fuel (n ∷ ns) c d idle h =
    go (c n) (visit adjacency fuel n c) refl refl (unfold search_from in h)
      (λ e. search_from-Cyclic adjacency fuel ns e d)
  where
    later : Colours → Visited
    later = search_from (visit adjacency fuel) ns

    go :
        (k : Colour) (m : Visited)
        → c n ≡ k
        → visit adjacency fuel n c ≡ m
        → on_colour k (unless_found m later) (later c) (later c) ≡ some (true, d)
        → ((e : Colours) → IsIdle e → later e ≡ some (true, d) → Cyclic adjacency)
        → Cyclic adjacency
    go white none p q r rest = cc
    go white (some (true, e)) p q r rest =
        visit-Reports adjacency fuel n c e p (λ g s. absurd (idle g s)) q
    go white (some (false, e)) p q r rest =
        rest e (λ x s. idle x ((visit-Finishes adjacency fuel n c e p q).0.grey_old x s)) r
    go grey m p q r rest = absurd (idle n p)
    go black m p q r rest = rest c idle r

pub found-some : (m : Visited) {b : Bool} → found m ≡ some b → (d : Colours) × (m ≡ some (b, d))
found-some none h = cc
found-some (some (b, d)) h = (d, ground arith)

-- If the search reports a cycle, some node has a walk along the edges back to itself.
pub has_cycle_sound : (adjacency : Adjacency) → has_cycle adjacency ≡ some true → Cyclic adjacency
unfolding has_cycle
has_cycle_sound adjacency h =
    let (d, e) =
      found-some
        (search_from (visit adjacency (suc (length (keys adjacency)))) (keys adjacency)
          (λ _. white))
        h in
    search_from-Cyclic adjacency (suc (length (keys adjacency))) (keys adjacency) (λ _. white) d
      (λ x p. cc) e
