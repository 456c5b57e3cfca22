-- ===== src/Graph/Cycle/Complete.antt =====
-- A cycle that is there is reported.
use mathlib.Core.List.{Memᴰ}
use mathlib.Core.List.Memᴰ
use appbi_integration.Base.{
  ℕ, zero, suc, String, ◌≡◌, refl, sym, subst, inl, inr, true, false, none, some, List, [], ◌∷◌,
  arith, str_eq, eq_iff, Bool-cases,
}
use appbi_integration.Base.Lists.{length}
use appbi_integration.Graph.Dict.{keys}
use appbi_integration.Graph.Cycle.{
  Colour, white, grey, black, Colours, paint, Adjacency, neighbours, Visited, unless_found,
  on_colour, scan, visit, search_from, has_cycle,
}
use appbi_integration.Graph.Cycle.Steps.{Passed, visited, skipped, scan-false}
use appbi_integration.Graph.Cycle.Walk.{Edge, Walk, one, more, Reaches, Cyclic, Walk-Edge}
use appbi_integration.Graph.Cycle.Kept.{
  Kept, Kept-refl, Kept-trans, same_colours, paint_self, paint_cases, scan-Kept, visit-false,
  visit-Finishes,
}
use appbi_integration.Graph.Cycle.Sound.{IsIdle, found-some}

-- The finished nodes lead only to finished nodes, and none of them is on a cycle.
record Finished (adjacency : Adjacency) (c : Colours) : Type 0 where
  closed : (x y : String) → c x ≡ black → Edge adjacency x y → c y ≡ black
  acyclic : (x : String) → c x ≡ black → ¬ Walk adjacency x x

Walk-black :
    {adjacency : Adjacency} {c : Colours} {x y : String}
    → Finished adjacency c
    → Walk adjacency x y
    → c x ≡ black
    → c y ≡ black
Walk-black f (one e) b = f.closed _ _ b e
Walk-black f (more r e) b = f.closed _ _ (Walk-black f r b) e

-- The first edge of a walk, and where the rest leads.
first_edge :
    {adjacency : Adjacency} {x y : String}
    → Walk adjacency x y
    → (z : String) × Edge adjacency x z × Reaches adjacency z y
first_edge {y = y} (one e) = (y, e, inl refl)
first_edge (more r e) = let (z, f, rest) = first_edge r in (z, f, inr (Walk-Edge rest e))

Reaches-black :
    {adjacency : Adjacency} {c : Colours} {x y : String}
    → Finished adjacency c
    → Reaches adjacency x y
    → c x ≡ black
    → c y ≡ black
Reaches-black {c = c} f (inl p) b = subst (λ v. c v ≡ black) p b
Reaches-black f (inr r) b = Walk-black f r b

Finished-same :
    {adjacency : Adjacency} {c d : Colours}
    → ((x : String) → d x ≡ black → c x ≡ black)
    → ((x : String) → c x ≡ black → d x ≡ black)
    → Finished adjacency c
    → Finished adjacency d
Finished-same back forth f = record {
  closed = λ x y b e. forth y (f.closed x y (back x b) e);
  acyclic = λ x b. f.acyclic x (back x b);
}

-- Painting an unvisited node grey finishes nothing.
Finished-grey :
    (adjacency : Adjacency) (n : String) (c : Colours)
    → c n ≡ white
    → Finished adjacency c
    → Finished adjacency (paint n grey c)
unfolding paint
Finished-grey adjacency n c w =
    Finished-same (λ x b. ground (arith, eq_iff n x)) (λ x b. ground (arith, eq_iff n x))

black_stays : (n : String) (c : Colours) (y : String) → c y ≡ black → paint n black c y ≡ black
unfolding paint
black_stays n c y b = ground arith

not_through :
    {adjacency : Adjacency} (n : String) (c : Colours)
    → c n ≡ grey
    → ((x : String) → Edge adjacency n x → c x ≡ black)
    → Finished adjacency c
    → ¬ Walk adjacency n n
not_through n c g all f r =
    let (z, e, rest) = first_edge r in let b = Reaches-black f rest (all z e) in cc

-- A node whose neighbours are all finished, and which is not, may be finished.
Finished-black :
    (adjacency : Adjacency) (n : String) (c : Colours)
    → c n ≡ grey
    → ((x : String) → Edge adjacency n x → c x ≡ black)
    → Finished adjacency c
    → Finished adjacency (paint n black c)
Finished-black adjacency n c g all f = record {
  closed = λ x y b e. elim (paint_cases n black c x) [
    | inl p ↦ black_stays n c y (all y (subst (λ v. Edge adjacency v y) (sym p) e))
    | inr p ↦ black_stays n c y (f.closed x y (rw p at b) e)
  ];
  acyclic = λ x b r. elim (paint_cases n black c x) [
    | inl p ↦ not_through n c g all f (subst (λ v. Walk adjacency v v) (sym p) r)
    | inr p ↦ f.acyclic x (rw p at b) r
  ];
}

scan-nil : (v : String → Colours → Visited) {c d : Colours} → scan v [] c ≡ some (false, d) → c ≡ d
unfolding scan
scan-nil v h = same_colours h

search_from-nil :
    (v : String → Colours → Visited) {c d : Colours} → search_from v [] c ≡ some (false, d) → c ≡ d
unfolding search_from
search_from-nil v h = same_colours h

-- A visit that finds nothing leaves only finished nodes that lead to finished nodes.
abbrev Settles : Adjacency → (String → Colours → Visited) → Type 0
Settles adjacency v =
    (n : String) (c d : Colours)
    → c n ≡ white
    → v n c ≡ some (false, d)
    → Finished adjacency c
    → Finished adjacency d

module _ (adjacency : Adjacency) (v : String → Colours → Visited)
    (settles : Settles adjacency v) where
  Passed-Finished :
      {n : String} {c d : Colours} → Passed v n c d → Finished adjacency c → Finished adjacency d
  Passed-Finished {n} {c} {d} (visited w h) f = settles n c d w h f
  Passed-Finished (skipped b e) f = subst (Finished adjacency) e f

  scan-Finished :
      (ns : List String) (c d : Colours)
      → scan v ns c ≡ some (false, d)
      → Finished adjacency c
      → Finished adjacency d
  scan-Finished [] c d h f = subst (Finished adjacency) (scan-nil v h) f
  scan-Finished (n ∷ ns) c d h f =
      let p = scan-false v n ns c h in scan-Finished ns p.left d p.then (Passed-Finished p.how f)

visit-Settles : (adjacency : Adjacency) (fuel : ℕ) → Settles adjacency (visit adjacency fuel)
visit-Settles adjacency zero n c d w h f = unfold visit in cc
visit-Settles adjacency (suc fuel) n c d w h f =
    let (e, scanned, painted) = visit-false adjacency fuel n c d h in
    let (k, all) =
      scan-Kept (visit adjacency fuel) (visit-Finishes adjacency fuel) (neighbours adjacency n)
        (paint n grey c) e scanned in
    subst (Finished adjacency) painted (
      Finished-black adjacency n e (k.grey_kept n (paint_self n grey c)) all (
        scan-Finished adjacency (visit adjacency fuel) (visit-Settles adjacency fuel)
          (neighbours adjacency n) (paint n grey c) e scanned (Finished-grey adjacency n c w f)))

search_from-Finished :
    (adjacency : Adjacency) (fuel : ℕ) (ns : List String) (c d : Colours)
    → IsIdle c
    → Finished adjacency c
    → search_from (visit adjacency fuel) ns c ≡ some (false, d)
    → Finished adjacency d × Kept c d × ((x : String) → Memᴰ x ns → d x ≡ black)
search_from-Finished adjacency fuel [] c d idle f h =
    let same = search_from-nil (visit adjacency fuel) h in
    (
      subst (Finished adjacency) same f,
      subst (Kept c) same (Kept-refl c),
      λ x m. absurd (Memᴰ.not-nil m),
    )
search_from-Finished adjacency fuel (n ∷ ns) c d idle f h =
    go (c n) (visit adjacency fuel n c) refl refl (unfold search_from in h)
      (λ e. search_from-Finished adjacency fuel ns e d)
  where
    later : Colours → Visited
    later = search_from (visit adjacency fuel) ns

    After : Colours → List String → Type 0
    After e l = Finished adjacency d × Kept e d × ((x : String) → Memᴰ x l → d x ≡ black)

    with_head : (e : Colours) → Kept c e → e n ≡ black → After e ns → After c (n ∷ ns)
    with_head e k b (g, l, all) = (
      g,
      Kept-trans k l,
      λ x mem. elim (Memᴰ.cases_cons mem) [
        | inl p ↦ subst (λ (y : String). d y ≡ black) (sym p) (l.black_kept n b)
        | inr t ↦ all x t
      ],
    )

    go :
        (k : Colour) (m : Visited)
        → c n ≡ k
        → visit adjacency fuel n c ≡ m
        → on_colour k (unless_found m later) (later c) (later c) ≡ some (false, d)
        → ((e : Colours) → IsIdle e → Finished adjacency e → later e ≡ some (false, d) → After e ns)
        → After c (n ∷ ns)
    go white none p q r rest = cc
    go white (some (true, e)) p q r rest = cc
    go white (some (false, e)) p q r rest =
        let (k, b) = visit-Finishes adjacency fuel n c e p q in
        with_head e k b
          (rest e (λ x s. idle x (k.grey_old x s)) (visit-Settles adjacency fuel n c e p q f) r)
    go grey m p q r rest = absurd (idle n p)
    go black m p q r rest = with_head c (Kept-refl c) p (rest c idle f r)

-- Only a key of the dict has neighbours.
pub Edge-keys :
    (adjacency : Adjacency) (x y : String) → Edge adjacency x y → Memᴰ x (keys adjacency)
unfolding neighbours keys
Edge-keys [] x y e = absurd (Memᴰ.not-nil e)
Edge-keys ((k, l) ∷ rest) x y e = elim (Bool-cases (str_eq k x)) [
  | inl same ↦ Memᴰ.head (sym ((eq_iff k x).0 same))
  | inr other ↦ Memᴰ.tail (Edge-keys rest x y (rw other at e))
]

start-Finished : (adjacency : Adjacency) → Finished adjacency (λ _. white)
start-Finished adjacency = record { closed = λ x y b e. cc; acyclic = λ x b. cc }

-- If the search reports no cycle, no node has a walk along the edges back to itself.
pub has_cycle_complete :
    (adjacency : Adjacency) → has_cycle adjacency ≡ some false → ¬ Cyclic adjacency
unfolding has_cycle
has_cycle_complete adjacency h (u, r) =
    let (d, e) =
      found-some
        (search_from (visit adjacency (suc (length (keys adjacency)))) (keys adjacency)
          (λ _. white))
        h in
    let (f, k, all) =
      search_from-Finished adjacency (suc (length (keys adjacency))) (keys adjacency) (λ _. white) d
        (λ x p. cc) (start-Finished adjacency) e in
    let (z, first, rest) = first_edge r in f.acyclic u (all u (Edge-keys adjacency u z first)) r
