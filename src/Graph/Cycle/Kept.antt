-- ===== src/Graph/Cycle/Kept.antt =====
-- What a search that finds nothing does to the colours.
use mathlib.Core.List.{Memᴰ}
use mathlib.Core.List.Memᴰ
use appbi_integration.Base.{
  ℕ, zero, suc, String, ◌≡◌, refl, sym, ap, subst, ◌⊎◌, inl, inr, Bool, true, false, none, some,
  List, [], ◌∷◌, arith, str_eq, eq_iff, eq_refl, Bool-cases,
}
use appbi_integration.Graph.Cycle.{
  Colour, white, grey, black, Colours, paint, Adjacency, neighbours, Visited, unless_found, scan,
  visit,
}
use appbi_integration.Graph.Cycle.Steps.{Passed, visited, skipped, scan-false}

-- A search from `c` that left `d`: the nodes on the stack are the same, a finished node stays
-- finished, and no node becomes unvisited.
pub record Kept (c d : Colours) : Type 0 where
  pub grey_kept : (x : String) → c x ≡ grey → d x ≡ grey
  pub grey_old : (x : String) → d x ≡ grey → c x ≡ grey
  pub black_kept : (x : String) → c x ≡ black → d x ≡ black
  pub white_old : (x : String) → d x ≡ white → c x ≡ white

pub Kept-refl : (c : Colours) → Kept c c
Kept-refl c = record {
  grey_kept = λ x p. p;
  grey_old = λ x p. p;
  black_kept = λ x p. p;
  white_old = λ x p. p;
}

pub Kept-trans : {c d e : Colours} → Kept c d → Kept d e → Kept c e
Kept-trans p q = record {
  grey_kept = λ x h. q.grey_kept x (p.grey_kept x h);
  grey_old = λ x h. p.grey_old x (q.grey_old x h);
  black_kept = λ x h. q.black_kept x (p.black_kept x h);
  white_old = λ x h. p.white_old x (q.white_old x h);
}

pub paint_self : (n : String) (k : Colour) (c : Colours) → paint n k c n ≡ k
unfolding paint
paint_self n k c = rw (eq_refl n)

-- A node is the painted one, or keeps its colour.
pub paint_cases :
    (n : String) (k : Colour) (c : Colours) (x : String) → (n ≡ x) ⊎ (paint n k c x ≡ c x)
unfolding paint
paint_cases n k c x = elim (Bool-cases (str_eq n x)) [
  | inl same ↦ inl ((eq_iff n x).0 same)
  | inr other ↦ inr (rw other)
]

-- Painting a node grey for the time of a search and black after it.
pub Kept-paint :
    (n : String) (c d : Colours) → c n ≡ white → Kept (paint n grey c) d → Kept c (paint n black d)
unfolding paint
Kept-paint n c d w k = record {
  grey_kept = λ x h. ground (arith, eq_iff n x, k.grey_kept x);
  grey_old = λ x h. ground (arith, eq_iff n x, k.grey_old x);
  black_kept = λ x h. ground (arith, eq_iff n x, k.black_kept x);
  white_old = λ x h. ground (arith, eq_iff n x, k.white_old x);
}

colours_of : Colours → Visited → Colours
colours_of c none = c
colours_of c (some (b, d)) = d

pub same_colours :
    {b : Bool} {c d : Colours} → ◌≡◌ {A = Visited} (some (b, c)) (some (b, d)) → c ≡ d
unfolding colours_of
same_colours {c = c} h = ap (colours_of c) h

-- A visit that finds nothing keeps the colours, and finishes its node.
abbrev pub Finishes : (String → Colours → Visited) → Type 0
Finishes v =
    (n : String) (c d : Colours) → c n ≡ white → v n c ≡ some (false, d) → Kept c d × (d n ≡ black)

module _ (v : String → Colours → Visited) (fin : Finishes v) where
  pub Passed-Kept : {n : String} {c d : Colours} → Passed v n c d → Kept c d × (d n ≡ black)
  Passed-Kept {n} {c} {d} (visited w h) = fin n c d w h
  Passed-Kept {n} {c} {d} (skipped b e) =
      (subst (Kept c) e (Kept-refl c), subst (λ f. f n ≡ black) e b)

  pub scan-Kept :
      (ns : List String) (c d : Colours)
      → scan v ns c ≡ some (false, d)
      → Kept c d × ((x : String) → Memᴰ x ns → d x ≡ black)
  unfolding scan
  scan-Kept [] c d h =
      (subst (Kept c) (same_colours h) (Kept-refl c), λ x m. absurd (Memᴰ.not-nil m))
  scan-Kept (n ∷ ns) c d h =
      let p = scan-false v n ns c h in
      let (k, b) = Passed-Kept p.how in
      let (l, m) = scan-Kept ns p.left d p.then in
      (
        Kept-trans k l,
        λ x mem. elim (Memᴰ.cases_cons mem) [
          | inl e ↦ subst (λ (y : String). d y ≡ black) (sym e) (l.black_kept n b)
          | inr t ↦ m x t
        ],
      )

-- What a visit rests on: the loop over the neighbours, from the node painted grey.
pub visit-false :
    (adjacency : Adjacency) (fuel : ℕ) (n : String) (c d : Colours)
    → visit adjacency (suc fuel) n c ≡ some (false, d)
    → (e : Colours) × (scan (visit adjacency fuel) (neighbours adjacency n) (paint n grey c)
        ≡ some (false, e))
      × (paint n black e ≡ d)
unfolding visit
visit-false adjacency fuel n c d h =
    go (scan (visit adjacency fuel) (neighbours adjacency n) (paint n grey c)) refl h
  where
    go :
        (m : Visited)
        → scan (visit adjacency fuel) (neighbours adjacency n) (paint n grey c) ≡ m
        → unless_found m (λ after. some (false, paint n black after)) ≡ some (false, d)
        → (e : Colours) × (scan (visit adjacency fuel) (neighbours adjacency n) (paint n grey c)
            ≡ some (false, e))
          × (paint n black e ≡ d)
    go none p q = cc
    go (some (true, e)) p q = cc
    go (some (false, e)) p q = (e, p, same_colours q)

pub visit-true :
    (adjacency : Adjacency) (fuel : ℕ) (n : String) (c d : Colours)
    → visit adjacency (suc fuel) n c ≡ some (true, d)
    → (scan (visit adjacency fuel) (neighbours adjacency n) (paint n grey c) ≡ some (true, d))
unfolding visit
visit-true adjacency fuel n c d h =
    go (scan (visit adjacency fuel) (neighbours adjacency n) (paint n grey c)) refl h
  where
    go :
        (m : Visited)
        → scan (visit adjacency fuel) (neighbours adjacency n) (paint n grey c) ≡ m
        → unless_found m (λ after. some (false, paint n black after)) ≡ some (true, d)
        → scan (visit adjacency fuel) (neighbours adjacency n) (paint n grey c) ≡ some (true, d)
    go none p q = cc
    go (some (true, e)) p q = cc
    go (some (false, e)) p q = cc

pub visit-Finishes : (adjacency : Adjacency) (fuel : ℕ) → Finishes (visit adjacency fuel)
visit-Finishes adjacency zero n c d w h = unfold visit in cc
visit-Finishes adjacency (suc fuel) n c d w h =
    let (e, scanned, painted) = visit-false adjacency fuel n c d h in
    let (k, all) =
      scan-Kept (visit adjacency fuel) (visit-Finishes adjacency fuel) (neighbours adjacency n)
        (paint n grey c) e scanned in
    (subst (Kept c) painted (Kept-paint n c e w k), rw (← painted) (paint_self n black e))
