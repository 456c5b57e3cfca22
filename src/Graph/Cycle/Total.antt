-- ===== src/Graph/Cycle/Total.antt =====
-- The search always ends: one unit of fuel for each node of the dict, and one to spare, is enough.
use mathlib.Core.List.{Memᴰ}
use appbi_integration.Base.{
  ℕ, zero, suc, ◌<◌, ◌≤◌, String, ◌≡◌, ◌≢◌, refl, subst, ◌⊎◌, inl, inr, Bool, true, false, Option,
  none, some, List, [], ◌∷◌, arith, eq_iff,
}
use appbi_integration.Base.Lists.{length, count_if}
use appbi_integration.Graph.Dict.{keys}
use appbi_integration.Graph.Cycle.{
  Colour, white, grey, black, Colours, paint, Adjacency, neighbours, Visited, unless_found,
  on_colour, scan, visit, search_from, has_cycle, found,
}
use appbi_integration.Graph.Cycle.Walk.{Cyclic}
use appbi_integration.Graph.Cycle.Kept.{Finishes, visit-Finishes}
use appbi_integration.Graph.Cycle.Sound.{has_cycle_sound}
use appbi_integration.Graph.Cycle.Complete.{has_cycle_complete, Edge-keys}

found-none : (m : Visited) → found m ≡ none → m ≡ none
found-none none h = refl
found-none (some (b, d)) h = cc

scan_empty : (v : String → Colours → Visited) (c : Colours) → scan v [] c ≡ none → ⊥
unfolding scan
scan_empty v c h = cc

abbrev is_white : Colour → Bool
is_white white = true
is_white grey = false
is_white black = false

is_white-eq : (k : Colour) → is_white k ≡ true → k ≡ white
is_white-eq k h = ground arith

-- How many of the keys are still unvisited.
abbrev unvisited : List String → Colours → ℕ
unvisited ks c = count_if (λ x. is_white (c x)) ks

unvisited_mono :
    (ks : List String) (c d : Colours)
    → ((x : String) → d x ≡ white → c x ≡ white)
    → unvisited ks d ≤ unvisited ks c
unvisited_mono [] c d h = omega arith
unvisited_mono (k ∷ ks) c d h = ground (arith, unvisited_mono ks c d h, h k)

painted_white : (n : String) (c : Colours) (x : String) → paint n grey c x ≡ white → c x ≡ white
unfolding paint
painted_white n c x h = ground arith

unvisited_painted :
    (ks : List String) (n : String) (c : Colours)
    → Memᴰ n ks
    → c n ≡ white
    → unvisited ks (paint n grey c) < unvisited ks c
unvisited_painted [] n c m w = elim m [ ]
unvisited_painted (k ∷ ks) n c (Memᴰ.head p) w =
    unfold paint in
    ground (arith, unvisited_mono ks c (paint n grey c) (painted_white n c), eq_iff n k)
unvisited_painted (k ∷ ks) n c (Memᴰ.tail m) w =
    ground (arith, unvisited_painted ks n c m w, painted_white n c k)

-- With more fuel than unvisited keys a visit returns.
abbrev Returns : List String → ℕ → (String → Colours → Visited) → Type 0
Returns ks fuel v = (n : String) (c : Colours) → c n ≡ white → unvisited ks c < fuel → v n c ≢ none

module _ (ks : List String) (fuel : ℕ) (v : String → Colours → Visited) (fin : Finishes v)
    (returns : Returns ks fuel v) where
  scan-Returns : (ns : List String) (c : Colours) → unvisited ks c < fuel → scan v ns c ≢ none
  scan-Returns [] c room h = unfold scan in cc
  scan-Returns (n ∷ ns) c room h = go (c n) (v n c) refl refl (unfold scan in h) (scan-Returns ns)
    where
      later : Colours → Visited
      later = scan v ns

      go :
          (k : Colour) (m : Visited)
          → c n ≡ k
          → v n c ≡ m
          → on_colour k (unless_found m later) (some (true, c)) (later c) ≡ none
          → ((e : Colours) → unvisited ks e < fuel → later e ≢ none)
          → ⊥
      go white none p q r rest = returns n c p room q
      go white (some (true, e)) p q r rest = cc
      go white (some (false, e)) p q r rest =
          rest e (omega (arith, unvisited_mono ks c e (fin n c e p q).0.white_old)) r
      go grey m p q r rest = cc
      go black m p q r rest = rest c room r

  search_from-Returns :
      (ns : List String) (c : Colours) → unvisited ks c < fuel → search_from v ns c ≢ none
  search_from-Returns [] c room h = unfold search_from in cc
  search_from-Returns (n ∷ ns) c room h =
      go (c n) (v n c) refl refl (unfold search_from in h) (search_from-Returns ns)
    where
      later : Colours → Visited
      later = search_from v ns

      go :
          (k : Colour) (m : Visited)
          → c n ≡ k
          → v n c ≡ m
          → on_colour k (unless_found m later) (later c) (later c) ≡ none
          → ((e : Colours) → unvisited ks e < fuel → later e ≢ none)
          → ⊥
      go white none p q r rest = returns n c p room q
      go white (some (true, e)) p q r rest = cc
      go white (some (false, e)) p q r rest =
          rest e (omega (arith, unvisited_mono ks c e (fin n c e p q).0.white_old)) r
      go grey m p q r rest = rest c room r
      go black m p q r rest = rest c room r

visit-none :
    (adjacency : Adjacency) (fuel : ℕ) (n : String) (c : Colours)
    → visit adjacency (suc fuel) n c ≡ none
    → scan (visit adjacency fuel) (neighbours adjacency n) (paint n grey c) ≡ none
unfolding visit
visit-none adjacency fuel n c h =
    go (scan (visit adjacency fuel) (neighbours adjacency n) (paint n grey c)) h
  where
    go :
        (m : Visited)
        → unless_found m (λ after. some (false, paint n black after)) ≡ none
        → m ≡ none
    go none q = refl
    go (some (true, e)) q = cc
    go (some (false, e)) q = cc

visit-Returns :
    (adjacency : Adjacency) (fuel : ℕ) → Returns (keys adjacency) fuel (visit adjacency fuel)
visit-Returns adjacency zero n c w room h = elim room [ ]
visit-Returns adjacency (suc fuel) n c w room h =
    go (neighbours adjacency n) refl (visit-none adjacency fuel n c h)
      (visit-Returns adjacency fuel)
  where
    go :
        (ns : List String)
        → neighbours adjacency n ≡ ns
        → scan (visit adjacency fuel) (neighbours adjacency n) (paint n grey c) ≡ none
        → Returns (keys adjacency) fuel (visit adjacency fuel)
        → ⊥
    go [] p q smaller =
        scan_empty (visit adjacency fuel) (paint n grey c)
          (subst (λ ns. scan (visit adjacency fuel) ns (paint n grey c) ≡ none) p q)
    go (y ∷ ys) p q smaller =
        scan-Returns (keys adjacency) fuel (visit adjacency fuel) (visit-Finishes adjacency fuel)
          smaller (neighbours adjacency n) (paint n grey c)
          (omega (
            arith,
            unvisited_painted (keys adjacency) n c (Edge-keys adjacency n y (rw p (Memᴰ.head refl)))
                w,
          ))
          q

unvisited-le : (ks : List String) (c : Colours) → unvisited ks c ≤ length ks
unvisited-le [] c = omega arith
unvisited-le (k ∷ ks) c = ground (arith, unvisited-le ks c)

-- The search returns an answer on every graph.
pub has_cycle-total : (adjacency : Adjacency) → has_cycle adjacency ≢ none
unfolding has_cycle
has_cycle-total adjacency h =
    search_from-Returns (keys adjacency) (suc (length (keys adjacency)))
      (visit adjacency (suc (length (keys adjacency))))
      (visit-Finishes adjacency (suc (length (keys adjacency))))
      (visit-Returns adjacency (suc (length (keys adjacency)))) (keys adjacency) (λ _. white)
      (omega (arith, unvisited-le (keys adjacency) (λ _. white))) (found-none _ h)

-- The search decides whether the graph has a cycle: it returns true exactly when some node has a
-- walk along the edges back to itself, and false otherwise.
pub has_cycle_decides :
    (adjacency : Adjacency)
    → ((has_cycle adjacency ≡ some true) × Cyclic adjacency)
      ⊎ ((has_cycle adjacency ≡ some false) × (¬ Cyclic adjacency))
has_cycle_decides adjacency = go (has_cycle adjacency) refl
  where
    go :
        (r : Option Bool)
        → has_cycle adjacency ≡ r
        → ((has_cycle adjacency ≡ some true) × Cyclic adjacency)
          ⊎ ((has_cycle adjacency ≡ some false) × (¬ Cyclic adjacency))
    go none p = absurd (has_cycle-total adjacency p)
    go (some true) p = inl (p, has_cycle_sound adjacency p)
    go (some false) p = inr (p, has_cycle_complete adjacency p)
