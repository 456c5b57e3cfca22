-- ===== src/Graph/Cycle.antt =====
-- backend/app/services/graph.py: `_has_cycle`, a depth-first search with three colours. The
-- colours are a function of the node, white where the dict has no entry; `none` is fuel run out.
pub mod Steps
pub mod Kept
pub mod Walk
pub mod Sound
pub mod Complete
pub mod Total
use appbi_integration.Base.{
  ℕ, zero, suc, String, Bool, true, false, Option, none, some, List, [], ◌∷◌, str_eq, if◌then◌else◌,
}
use appbi_integration.Base.Lists.{length}
use appbi_integration.Graph.Dict.{Dict, lookup, keys}

pub data Colour : Type 0 where
  white grey black : Colour

abbrev pub Colours : Type 0
Colours = String → Colour

-- `colour[node] = value`
unfoldable pub paint : String → Colour → Colours → Colours
paint node value colour x = if str_eq node x then value else colour x

abbrev pub Adjacency : Type 0
Adjacency = Dict (List String)

abbrev pub or_empty : Option (List String) → List String
or_empty none = []
or_empty (some l) = l

-- `adjacency.get(node, ())`
unfoldable pub neighbours : Adjacency → String → List String
unfolding lookup
neighbours adjacency node = or_empty (lookup node adjacency)

-- A call of `visit`: whether it found a cycle, and the colours it left.
abbrev pub Visited : Type 0
Visited = Option (Bool × Colours)

-- Go on with the loop unless the call found a cycle.
abbrev pub unless_found : Visited → (Colours → Visited) → Visited
unless_found none rest = none
unless_found (some (true, colour)) rest = some (true, colour)
unless_found (some (false, colour)) rest = rest colour

abbrev pub on_colour : Colour → Visited → Visited → Visited → Visited
on_colour white w g b = w
on_colour grey w g b = g
on_colour black w g b = b

-- The `for` loop of `visit`, over the function that visits one node.
unfoldable pub scan : (String → Colours → Visited) → List String → Colours → Visited
scan visit [] colour = some (false, colour)
scan visit (neighbour ∷ rest) colour =
    let later = scan visit rest in
    on_colour (colour neighbour) (unless_found (visit neighbour colour) later) (some (true, colour))
      (later colour)

unfoldable pub visit : Adjacency → ℕ → String → Colours → Visited
unfolding scan paint neighbours
visit adjacency zero node colour = none
visit adjacency (suc fuel) node colour =
    unless_found (scan (visit adjacency fuel) (neighbours adjacency node) (paint node grey colour))
      (λ after. some (false, paint node black after))

-- `any(colour[node] == WHITE and visit(node) for node in list(adjacency))`
unfoldable pub search_from : (String → Colours → Visited) → List String → Colours → Visited
search_from visit [] colour = some (false, colour)
search_from visit (node ∷ rest) colour =
    let later = search_from visit rest in
    on_colour (colour node) (unless_found (visit node colour) later) (later colour) (later colour)

abbrev pub found : Visited → Option Bool
found none = none
found (some (b, colour)) = some b

-- `_has_cycle(adjacency)`: one unit of fuel for each node, and one to spare
unfoldable pub has_cycle : Adjacency → Option Bool
unfolding visit search_from keys
has_cycle adjacency =
    found
      (search_from (visit adjacency (suc (length (keys adjacency)))) (keys adjacency) (λ _. white))
