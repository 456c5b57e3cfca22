-- ===== src/Graph/Validate/Shape.antt =====
-- backend/app/services/graph.py: the ids and the errors of a validated graph.
use appbi_integration.Base.{
  String, ◌≡◌, refl, ap, subst, inl, inr, true, false, List, [], ◌∷◌, ◌++◌, some, map, str_eq,
  arith, Bool-cases,
}
use appbi_integration.Base.Lists.{select, any}
use appbi_integration.Json.{Json}
use appbi_integration.Graph.Dict.{keys}
use appbi_integration.Graph.Text.{node_id_matches}
use appbi_integration.Graph.Schema.{as_fields}
use appbi_integration.Graph.Issue.{Issue, is_error, issue, node_id_invalid, node_id_duplicate}
use appbi_integration.Graph.Nodes.{Collected, collect, node_id_of, add_issue, keep_node, or_none}

-- None of the issues is an error.
abbrev pub NoErrors : List Issue → Type 0
NoErrors issues = select is_error issues ≡ []

pub NoErrors-append : (a b : List Issue) → NoErrors (a ++ b) → NoErrors a × NoErrors b
NoErrors-append [] b h = (refl, h)
NoErrors-append (x ∷ a) b h = ground (arith, NoErrors-append a b)

pub some_error : (i : Issue) (rest : List Issue) → is_error i ≡ true → ¬ NoErrors (i ∷ rest)
some_error i rest e h = ground arith

-- No text of the list is in `seen`, and none comes twice.
abbrev pub Fresh : List String → List String → Type 0
Fresh seen [] = Unit {0}
Fresh seen (x ∷ xs) = (any (str_eq x) seen ≡ false) × Fresh (x ∷ seen) xs

abbrev pub AllValid : List String → Type 0
AllValid [] = Unit {0}
AllValid (x ∷ xs) = (node_id_matches x ≡ true) × AllValid xs

-- What `collect` does with one node: it reports an error and goes on, or keeps it.
data Collect (seen : List String) (node : Json) (nodes : List Json) : Type 0 where
  skipped :
      (i : Issue)
      → is_error i ≡ true
      → collect seen (node ∷ nodes) ≡ add_issue i (collect seen nodes)
      → Collect seen node nodes
  kept :
      node_id_matches (node_id_of node) ≡ true
      → any (str_eq (node_id_of node)) seen ≡ false
      → collect seen (node ∷ nodes)
        ≡ keep_node
            (node_id_of node)
            (as_fields (some node))
            (collect (node_id_of node ∷ seen) nodes)
      → Collect seen node nodes

module _ (seen : List String) (node : Json) (nodes : List Json) where
  collect-bad_id :
      node_id_matches (node_id_of node) ≡ false
      → collect seen (node ∷ nodes)
        ≡ add_issue (issue node_id_invalid (or_none (node_id_of node))) (collect seen nodes)
  unfolding collect
  collect-bad_id bad = rw bad refl

  collect-again :
      node_id_matches (node_id_of node) ≡ true
      → any (str_eq (node_id_of node)) seen ≡ true
      → collect seen (node ∷ nodes)
        ≡ add_issue (issue node_id_duplicate (some (node_id_of node))) (collect seen nodes)
  unfolding collect
  collect-again good again = rw (good, again) refl

  collect-new :
      node_id_matches (node_id_of node) ≡ true
      → any (str_eq (node_id_of node)) seen ≡ false
      → collect seen (node ∷ nodes)
        ≡ keep_node
            (node_id_of node)
            (as_fields (some node))
            (collect (node_id_of node ∷ seen) nodes)
  unfolding collect
  collect-new good new = rw (good, new) refl

  Collect-cases : Collect seen node nodes
  Collect-cases = elim (Bool-cases (node_id_matches (node_id_of node))) [
    | inr bad ↦
        skipped (issue node_id_invalid (or_none (node_id_of node))) refl (collect-bad_id bad)
    | inl good ↦ elim (Bool-cases (any (str_eq (node_id_of node)) seen)) [
      | inl again ↦
          skipped (issue node_id_duplicate (some (node_id_of node))) refl (collect-again good again)
      | inr new ↦ kept good new (collect-new good new)
    ]
  ]

-- Whatever the nodes, the ids that are kept match the pattern and are pairwise distinct.
pub collect-Fresh :
    (seen : List String) (nodes : List Json)
    → Fresh seen (keys (collect seen nodes).by_id) × AllValid (keys (collect seen nodes).by_id)
unfolding keys
collect-Fresh seen [] = unfold collect in (tt, tt)
collect-Fresh seen (node ∷ nodes) = elim (Collect-cases seen node nodes) [
  | skipped i e p ↦ rw p (collect-Fresh seen nodes)
  | kept good new p ↦
      let (f, v) = collect-Fresh (node_id_of node ∷ seen) nodes in rw p ((new, f), (good, v))
]

-- Where no error is reported, every node is kept.
pub collect-all :
    (seen : List String) (nodes : List Json)
    → NoErrors (collect seen nodes).issues
    → keys (collect seen nodes).by_id ≡ map node_id_of nodes
unfolding keys
collect-all seen [] h = unfold collect in refl
collect-all seen (node ∷ nodes) h = elim (Collect-cases seen node nodes) [
  | skipped i e p ↦ absurd (
      some_error i (collect seen nodes).issues e (subst (λ (c : Collected). NoErrors c.issues) p h))
  | kept good new p ↦ rw p (
      ap (λ (ks : List String). node_id_of node ∷ ks)
        (collect-all (node_id_of node ∷ seen) nodes
          (subst (λ (c : Collected). NoErrors c.issues) p h)))
]
