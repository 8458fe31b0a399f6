-- ===== src/Overlay/Traversals/Laws.antt =====
-- The counts of the steps between nodes: frontend/src/builder-v2/execution/run-overlay.ts.
use lang_orch.Base.{
  ℕ, ◌+◌, String, Bool, Option, none, some, get_or, List, [], ◌∷◌, if◌then◌else◌, ◌==◌, ◌≡◌, ap,
  ◌∙◌, arith, eq_iff, Bool-cases, inl, inr, ℤ, at, at-set,
}
use lang_orch.Overlay.Traversals.{
  RunEvent, node_of_event, edge_key, count_one, count_step, count_steps, started_events,
  build_edge_traversal_counts,
}

-- 1 where two nodes are the ends of an edge
unfoldable pub on_edge : String → Option String → Option String → ℕ
on_edge k (some from) (some to) = if edge_key from to == k then 1 else 0
on_edge k from to = 0

-- The neighbours in a sequence of events that are a step along an edge.
unfoldable pub occurrences : String → List RunEvent → ℕ
occurrences k [] = 0
occurrences k (e ∷ es) = elim es [
  | [] ↦ 0
  | f ∷ fs ↦ on_edge k (node_of_event e) (node_of_event f) + occurrences k es
]

count_of : String → List (String × ℕ) → ℕ
count_of k t = get_or (at k t) 0

count_of-count_one :
    (k j : String) (t : List (String × ℕ))
    → count_of j (count_one k t) ≡ count_of j t + (if k == j then 1 else 0)
unfolding count_of count_one
count_of-count_one k j t = rw (at-set k j (get_or (at k t) 0 + 1) t) (elim (Bool-cases (k == j)) [
  | inl same ↦ let e : k ≡ j = (eq_iff k j).0 same in rw same (ap (λ i. get_or (at i t) 0 + 1) e)
  | inr differ ↦ rw differ (omega arith)
])

count_of-count_step :
    (k : String) (from to : Option String) (t : List (String × ℕ))
    → count_of k (count_step from to t) ≡ count_of k t + on_edge k from to
unfolding count_step on_edge
count_of-count_step k none none t = omega arith
count_of-count_step k none (some to) t = omega arith
count_of-count_step k (some from) none t = omega arith
count_of-count_step k (some from) (some to) t = count_of-count_one (edge_key from to) k t

count_of-count_steps :
    (k : String) (es : List RunEvent) (t : List (String × ℕ))
    → count_of k (count_steps es t) ≡ count_of k t + occurrences k es
unfolding count_steps occurrences
count_of-count_steps k [] t = omega arith
count_of-count_steps k (e ∷ []) t = omega arith
count_of-count_steps k (e ∷ f ∷ fs) t =
    count_of-count_steps k (f ∷ fs) (count_step (node_of_event e) (node_of_event f) t)
    ∙ rw (count_of-count_step k (node_of_event e) (node_of_event f) t) (omega arith)

-- The count of an edge is the number of neighbours in the sorted sequence of the started nodes that
-- are a step along the edge; an edge without a count has none.
pub build_edge_traversal_counts-occurrences :
    (time : String → ℤ) (precedes : String → String → Bool) (events : List RunEvent) (k : String)
    → get_or (at k (build_edge_traversal_counts time precedes events)) 0
      ≡ occurrences k (started_events time precedes events)
unfolding build_edge_traversal_counts count_of at
build_edge_traversal_counts-occurrences time precedes events k =
    count_of-count_steps k (started_events time precedes events) [] ∙ omega arith
