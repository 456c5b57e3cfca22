-- ===== src/Graph/Cycle/Steps.antt =====
-- How one round of the search's loop ends: what a result says of the call that it rests on.
use appbi_integration.Base.{String, ◌≡◌, refl, true, false, none, some, List, ◌∷◌}
use appbi_integration.Graph.Cycle.{
  Colour, white, grey, black, Colours, Visited, unless_found, on_colour, scan,
}

pub data Passed (visit : String → Colours → Visited) (n : String) (c : Colours) (d : Colours)
    : Type 0 where
  visited : c n ≡ white → visit n c ≡ some (false, d) → Passed visit n c d
  skipped : c n ≡ black → c ≡ d → Passed visit n c d

-- The loop went past `n` without finding a cycle, and left the colours `d`.
pub record Past (visit : String → Colours → Visited) (n : String) (c : Colours)
    (rest : Colours → Visited) (r : Visited) : Type 0 where
  pub left : Colours
  pub how : Passed visit n c left
  pub then : rest left ≡ r

pub data Hit (visit : String → Colours → Visited) (n : String) (c : Colours)
    (rest : Colours → Visited) (r : Visited) : Type 0 where
  on_stack : c n ≡ grey → Hit visit n c rest r
  below : (d : Colours) → c n ≡ white → visit n c ≡ some (true, d) → Hit visit n c rest r
  later : Past visit n c rest r → Hit visit n c rest r

module _ (visit : String → Colours → Visited) (n : String) (c : Colours) (rest : Colours → Visited)
    {c' : Colours} where
  past :
      (k : Colour) (m : Visited)
      → c n ≡ k
      → visit n c ≡ m
      → on_colour k (unless_found m rest) (some (true, c)) (rest c) ≡ some (false, c')
      → Past visit n c rest (some (false, c'))
  past white none p q h = cc
  past white (some (true, d)) p q h = cc
  past white (some (false, d)) p q h = record { left = d; how = visited p q; then = h }
  past grey m p q h = cc
  past black m p q h = record { left = c; how = skipped p refl; then = h }

  hit :
      (k : Colour) (m : Visited)
      → c n ≡ k
      → visit n c ≡ m
      → on_colour k (unless_found m rest) (some (true, c)) (rest c) ≡ some (true, c')
      → Hit visit n c rest (some (true, c'))
  hit white none p q h = cc
  hit white (some (true, d)) p q h = below d p q
  hit white (some (false, d)) p q h = later (record { left = d; how = visited p q; then = h })
  hit grey m p q h = on_stack p
  hit black m p q h = later (record { left = c; how = skipped p refl; then = h })

module _ (visit : String → Colours → Visited) (n : String) (ns : List String) (c : Colours)
    {c' : Colours} where
  pub scan-false :
      scan visit (n ∷ ns) c ≡ some (false, c') → Past visit n c (scan visit ns) (some (false, c'))
  unfolding scan
  scan-false h = past visit n c (scan visit ns) (c n) (visit n c) refl refl h

  pub scan-true :
      scan visit (n ∷ ns) c ≡ some (true, c') → Hit visit n c (scan visit ns) (some (true, c'))
  unfolding scan
  scan-true h = hit visit n c (scan visit ns) (c n) (visit n c) refl refl h
