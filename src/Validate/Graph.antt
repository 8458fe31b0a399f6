-- ===== src/Validate/Graph.antt =====
-- The graph of a draft as the check walks it: `nodeMap` and the targets of a node.
use lang_orch.Base.{String, Bool, true, ◌≡◌, Option, none, some, List, [], map, any, ◌==◌}
use lang_orch.Draft.{BuilderNodeDraft}
use lang_orch.Store.{targets, entry_of}

-- `nodeMap.get(id)`: of several nodes with one identifier the last counts.
unfoldable pub node_of : List BuilderNodeDraft → String → Option BuilderNodeDraft
node_of nodes i = entry_of i (map (λ (n : BuilderNodeDraft). (n.id, n)) nodes)

-- The targets that the walks go on to: none where the node is missing.
unfoldable pub targets_of : List BuilderNodeDraft → String → List String
targets_of nodes i = elim (node_of nodes i) [ none ↦ [] | some n ↦ targets n.transitions ]

-- `set.has(id)`
abbrev pub contains : List String → String → Bool
contains visited i = any (λ j. j == i) visited

-- One step along a transition.
abbrev pub Edge : List BuilderNodeDraft → String → String → Type 0
Edge nodes u v = contains (targets_of nodes u) v ≡ true

-- The identifiers that a walk from `u` meets.
pub data Walk (nodes : List BuilderNodeDraft) (u : String) : String → Type 0 where
  here : Walk nodes u u
  step : {v w : String} → Walk nodes u v → Edge nodes v w → Walk nodes u w
