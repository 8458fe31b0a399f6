-- ===== src/Validate/Reach.antt =====
-- The breadth-first walk from the start node (lines 140 to 154), on fuel.
pub mod Correct
use lang_orch.Base.{
  ℕ, zero, suc, ◌+◌, String, Bool, not, List, [], ◌∷◌, ◌++◌, keep, length, if◌then◌else◌, is_some,
}
use lang_orch.Draft.{BuilderNodeDraft}
use lang_orch.Store.{targets}
use lang_orch.Validate.Graph.{targets_of, contains}

-- `visited` holds the newest identifier first. One more round than there are transitions is enough.
pub walk : ℕ → List BuilderNodeDraft → List String → List String → List String
walk zero nodes visited queue = visited
walk (suc fuel) nodes visited [] = visited
walk (suc fuel) nodes visited (current ∷ queue) =
    let skipped = walk fuel nodes visited queue in
    let expanded =
      walk fuel nodes (current ∷ visited)
        (queue ++ keep (λ t. not (contains (current ∷ visited) t)) (targets_of nodes current)) in
    if contains visited current then skipped else expanded

-- The number of transitions with a target.
abbrev pub edge_count : List BuilderNodeDraft → ℕ
edge_count [] = 0
edge_count (n ∷ ns) = length (targets n.transitions) + edge_count ns

unfoldable pub visited_from : List BuilderNodeDraft → String → List String
unfolding walk
visited_from nodes start = walk (suc (edge_count nodes)) nodes [] (start ∷ [])
