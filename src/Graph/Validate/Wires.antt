-- ===== src/Graph/Validate/Wires.antt =====
-- backend/app/services/graph.py: the connections that a graph is validated to have.
use mathlib.Core.Path.{subst₂}
use mathlib.Core.List.{Memᴰ}
use mathlib.Core.List.Memᴰ
use appbi_integration.Base.{
  String, ◌≡◌, refl, sym, ap, subst, ◌∙◌, inl, inr, Bool, true, false, ◌&&◌, List, [], ◌∷◌, ◌++◌,
  Option, none, some, map, str_eq, if◌then◌else◌, arith, Option-cases, eq_iff, eq_refl,
}
use appbi_integration.Base.Lists.{any}
use appbi_integration.Json.{Json, Fields}
use appbi_integration.Graph.Dict.{Dict, has, modify}
use appbi_integration.Graph.Issue.{Issue, is_error, Definitions}
use appbi_integration.Graph.Cycle.{Adjacency, neighbours}
use appbi_integration.Graph.Cycle.Walk.{Walk, one, more}
use appbi_integration.Graph.Connections.{
  Edge, edge_of, same_edge, refuse_edge, marks_seen, Wiring, wire, check_connections, no_neighbours,
  add_edges,
}
use appbi_integration.Graph.Validate.{adjacency_of}
use appbi_integration.Graph.Validate.Shape.{NoErrors, some_error}

-- An accepted connection from `u` to `v`.
pub record Link (accepted : List Edge) (u v : String) : Type 0 where
  pub edge : Edge
  pub accepted_edge : Memᴰ edge accepted
  pub source : edge.source_id ≡ u
  pub target : edge.target_id ≡ v

-- A walk along accepted connections.
pub data LinkWalk (accepted : List Edge) (u : String) : String → Type 0 where
  first : {v : String} → Link accepted u v → LinkWalk accepted u v
  next : {v w : String} → LinkWalk accepted u v → Link accepted v w → LinkWalk accepted u w

has-modify : {V : Type 0} (k j : String) (f : V → V) (d : Dict V) → has k (modify j f d) ≡ has k d
unfolding has modify
has-modify k j f [] = refl
has-modify k j f ((i, v) ∷ d) = ground (arith, has-modify k j f d)

-- Appending a target to the list of one node.
neighbours-append :
    (k u x : String) (d : Adjacency)
    → neighbours (modify k (λ targets. targets ++ x ∷ []) d) u
      ≡ (if str_eq k u && has u d then neighbours d u ++ x ∷ [] else neighbours d u)
unfolding neighbours modify has
neighbours-append k u x [] = ground arith
neighbours-append k u x ((i, l) ∷ d) =
    ground (arith, eq_iff i k, eq_iff k u, eq_iff i u, neighbours-append k u x d)

neighbours-kept :
    (k u x v : String) (d : Adjacency)
    → Memᴰ v (neighbours d u)
    → Memᴰ v (neighbours (modify k (λ targets. targets ++ x ∷ []) d) u)
neighbours-kept k u x v d m = rw (neighbours-append k u x d) (go (str_eq k u && has u d))
  where
    go : (b : Bool) → Memᴰ v (if b then neighbours d u ++ x ∷ [] else neighbours d u)
    go true = Memᴰ.append_left _ m
    go false = m

neighbours-new :
    (u x : String) (d : Adjacency)
    → has u d ≡ true
    → Memᴰ x (neighbours (modify u (λ targets. targets ++ x ∷ []) d) u)
neighbours-new u x d h =
    rw (neighbours-append u u x d, eq_refl u, h)
      (Memᴰ.append_right (neighbours d u) (Memᴰ.head refl))

add_edges-kept :
    (es : List Edge) (u v : String) (d : Adjacency)
    → Memᴰ v (neighbours d u)
    → Memᴰ v (neighbours (add_edges es d) u)
unfolding add_edges
add_edges-kept [] u v d m = m
add_edges-kept (e ∷ es) u v d m =
    add_edges-kept es u v _ (neighbours-kept e.source_id u e.target_id v d m)

-- Every accepted connection is an edge of the adjacency.
add_edges-mem :
    (es : List Edge) (e : Edge) (d : Adjacency)
    → Memᴰ e es
    → has e.source_id d ≡ true
    → Memᴰ e.target_id (neighbours (add_edges es d) e.source_id)
unfolding add_edges
add_edges-mem [] e d m h = absurd (Memᴰ.not-nil m)
add_edges-mem (f ∷ es) e d (Memᴰ.head p) h = add_edges-kept es e.source_id e.target_id _ (
    subst
      (λ (g : Edge).
        Memᴰ e.target_id
          (neighbours (modify g.source_id (λ targets. targets ++ g.target_id ∷ []) d) e.source_id))
      p (neighbours-new e.source_id e.target_id d h))
add_edges-mem (f ∷ es) e d (Memᴰ.tail m) h =
    add_edges-mem es e _ m
      (has-modify e.source_id f.source_id (λ targets. targets ++ f.target_id ∷ []) d ∙ h)

has-no_neighbours : (k : String) (by_id : Dict Fields) → has k (no_neighbours by_id) ≡ has k by_id
unfolding has no_neighbours
has-no_neighbours k [] = refl
has-no_neighbours k ((i, node) ∷ rest) = ground (arith, has-no_neighbours k rest)

-- What it takes for a connection to be accepted.
pub record IsSound (by_id : Dict Fields) (edge : Edge) : Type 0 where
  pub source_known : has edge.source_id by_id ≡ true
  pub target_known : has edge.target_id by_id ≡ true
  pub not_self : str_eq edge.source_id edge.target_id ≡ false

pub refuse_edge-none :
    (definitions : Definitions) (by_id : Dict Fields) (seen : List Edge) (edge : Edge)
    → refuse_edge definitions by_id seen edge ≡ none
    → IsSound by_id edge × (any (same_edge edge) seen ≡ false)
unfolding refuse_edge
refuse_edge-none definitions by_id seen edge h = ground arith

refuse_edge-error :
    (definitions : Definitions) (by_id : Dict Fields) (seen : List Edge) (edge : Edge) (i : Issue)
    → refuse_edge definitions by_id seen edge ≡ some i
    → is_error i ≡ true
unfolding refuse_edge
refuse_edge-error definitions by_id seen edge i h = ground arith

refuse_edge-marks :
    (definitions : Definitions) (by_id : Dict Fields) (seen : List Edge) (edge : Edge)
    → refuse_edge definitions by_id seen edge ≡ none
    → marks_seen by_id seen edge ≡ true
unfolding marks_seen
refuse_edge-marks definitions by_id seen edge h =
    let (s, fresh) = refuse_edge-none definitions by_id seen edge h in
    rw (s.source_known, s.target_known, s.not_self, fresh) refl

-- The edges seen after one connection.
abbrev seen_after : Dict Fields → List Edge → Edge → List Edge
seen_after by_id seen edge = if marks_seen by_id seen edge then edge ∷ seen else seen

module _ (definitions : Definitions) (by_id : Dict Fields) where
  check_connections-cons :
      (seen : List Edge) (conn : Json) (rest : List Json) {o : Option Issue}
      → refuse_edge definitions by_id seen (edge_of conn) ≡ o
      → check_connections definitions by_id seen (conn ∷ rest)
        ≡ wire
            (edge_of conn)
            o
            (check_connections definitions by_id (seen_after by_id seen (edge_of conn)) rest)
  unfolding check_connections
  check_connections-cons seen conn rest p = rw p refl

  check_connections-nil :
      (seen : List Edge)
      → check_connections definitions by_id seen [] ≡ record { issues = []; accepted = [] }
  unfolding check_connections
  check_connections-nil seen = refl

  seen_before :
      (f : Edge) (seen : List Edge) (edge : Edge)
      → any (same_edge f) (seen_after by_id seen edge) ≡ false
      → any (same_edge f) seen ≡ false
  seen_before f seen edge h = ground arith

  -- An accepted connection is new, and joins two known nodes that differ.
  pub check_connections-IsSound :
      (seen : List Edge) (connections : List Json) (edge : Edge)
      → Memᴰ edge (check_connections definitions by_id seen connections).accepted
      → IsSound by_id edge × (any (same_edge edge) seen ≡ false)
  check_connections-IsSound seen [] edge m =
      absurd (Memᴰ.not-nil (rw (check_connections-nil seen) at m))
  check_connections-IsSound seen (conn ∷ rest) edge m =
      elim (Option-cases (refuse_edge definitions by_id seen (edge_of conn))) [
        | inl free ↦ elim (Memᴰ.cases_cons (rw (check_connections-cons seen conn rest free) at m)) [
          | inl e ↦
              subst (λ (x : Edge). IsSound by_id x × (any (same_edge x) seen ≡ false)) (sym e)
                (refuse_edge-none definitions by_id seen (edge_of conn) free)
          | inr later ↦
              let (s, fresh) =
                check_connections-IsSound (seen_after by_id seen (edge_of conn)) rest edge later in
              (s, seen_before edge seen (edge_of conn) fresh)
        ]
        | inr (i, stopped) ↦
            let (s, fresh) =
              check_connections-IsSound (seen_after by_id seen (edge_of conn)) rest edge
                (rw (check_connections-cons seen conn rest stopped) at m) in
            (s, seen_before edge seen (edge_of conn) fresh)
      ]

  -- Where no error is reported, every connection is accepted.
  pub check_connections-all :
      (seen : List Edge) (connections : List Json)
      → NoErrors (check_connections definitions by_id seen connections).issues
      → (check_connections definitions by_id seen connections).accepted ≡ map edge_of connections
  check_connections-all seen [] h = rw (check_connections-nil seen) refl
  check_connections-all seen (conn ∷ rest) h =
      elim (Option-cases (refuse_edge definitions by_id seen (edge_of conn))) [
        | inl free ↦
            let eq = check_connections-cons seen conn rest free in
            rw eq (
              ap (λ (l : List Edge). edge_of conn ∷ l)
                (check_connections-all (seen_after by_id seen (edge_of conn)) rest
                  (subst (λ (w : Wiring). NoErrors w.issues) eq h)))
        | inr (i, stopped) ↦ absurd (
            some_error i
              ((check_connections definitions by_id (seen_after by_id seen (edge_of conn))
                rest).issues)
              (refuse_edge-error definitions by_id seen (edge_of conn) i stopped)
              (subst (λ (w : Wiring). NoErrors w.issues)
                (check_connections-cons seen conn rest stopped) h))
      ]

-- No two of the connections have the same ends and ports.
abbrev pub Separate : List Edge → Type 0
Separate [] = Unit {0}
Separate (e ∷ es) = ((f : Edge) → Memᴰ f es → same_edge f e ≡ false) × Separate es

link_edge :
    (by_id : Dict Fields) (accepted : List Edge)
    → ((e : Edge) → Memᴰ e accepted → has e.source_id by_id ≡ true)
    → {u v : String} → Link accepted u v
    → Memᴰ v (neighbours (adjacency_of by_id accepted) u)
unfolding adjacency_of
link_edge by_id accepted known {u} {v} l =
    subst₂ (λ (a b : String). Memᴰ b (neighbours (add_edges accepted (no_neighbours by_id)) a))
      l.source l.target
      (add_edges-mem accepted l.edge (no_neighbours by_id) l.accepted_edge
        (has-no_neighbours l.edge.source_id by_id ∙ known l.edge l.accepted_edge))

same_tail :
    (f e : Edge) (seen : List Edge) → any (same_edge f) (e ∷ seen) ≡ false → same_edge f e ≡ false
same_tail f e seen h = ground arith

-- Whatever the connections, no two of the accepted ones have the same ends and ports.
pub check_connections-Separate :
    (definitions : Definitions) (by_id : Dict Fields) (seen : List Edge) (connections : List Json)
    → Separate (check_connections definitions by_id seen connections).accepted
check_connections-Separate definitions by_id seen [] =
    rw (check_connections-nil definitions by_id seen) tt
check_connections-Separate definitions by_id seen (conn ∷ rest) =
    elim (Option-cases (refuse_edge definitions by_id seen (edge_of conn))) [
      | inl free ↦ rw (check_connections-cons definitions by_id seen conn rest free) (
        λ f m. same_tail f (edge_of conn) seen (
            subst (λ (l : List Edge). any (same_edge f) l ≡ false)
              (marked seen (edge_of conn)
                (refuse_edge-marks definitions by_id seen (edge_of conn) free))
              (check_connections-IsSound definitions by_id (seen_after by_id seen (edge_of conn))
                rest f m).1),
        check_connections-Separate definitions by_id (seen_after by_id seen (edge_of conn)) rest,
      )
      | inr (i, stopped) ↦
          rw (check_connections-cons definitions by_id seen conn rest stopped) (
            check_connections-Separate definitions by_id (seen_after by_id seen (edge_of conn))
              rest)
    ]
  where
    marked :
        (seen : List Edge) (e : Edge)
        → marks_seen by_id seen e ≡ true
        → seen_after by_id seen e ≡ e ∷ seen
    marked seen e h = rw h refl

-- A walk along accepted connections is a walk in the adjacency, if their sources are known.
pub Walk-LinkWalk :
    (by_id : Dict Fields) (accepted : List Edge)
    → ((e : Edge) → Memᴰ e accepted → has e.source_id by_id ≡ true)
    → {u v : String} → LinkWalk accepted u v
    → Walk (adjacency_of by_id accepted) u v
Walk-LinkWalk by_id accepted known (first l) = one (link_edge by_id accepted known l)
Walk-LinkWalk by_id accepted known (next w l) =
    more (Walk-LinkWalk by_id accepted known w) (link_edge by_id accepted known l)
