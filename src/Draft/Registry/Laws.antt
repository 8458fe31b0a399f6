-- ===== src/Draft/Registry/Laws.antt =====
-- The registry has an entry for each kind of node.
use lang_orch.Base.{◌≡◌, refl, some}
use lang_orch.Draft.{
  BuilderNodeKind, sequence, logic, loop, parallel, human_approval, llm_action, processing,
  verification, transform, subflow, terminate,
}
use lang_orch.Draft.Registry.{blueprint, get_builder_node_definition}

-- The lookup by kind finds the entry of that kind, for all eleven kinds.
pub get_builder_node_definition-blueprint :
    (k : BuilderNodeKind)
    → (get_builder_node_definition k ≡ some (blueprint k)) × ((blueprint k).kind ≡ k)
unfolding get_builder_node_definition
get_builder_node_definition-blueprint sequence = (refl, refl)
get_builder_node_definition-blueprint logic = (refl, refl)
get_builder_node_definition-blueprint loop = (refl, refl)
get_builder_node_definition-blueprint parallel = (refl, refl)
get_builder_node_definition-blueprint human_approval = (refl, refl)
get_builder_node_definition-blueprint llm_action = (refl, refl)
get_builder_node_definition-blueprint processing = (refl, refl)
get_builder_node_definition-blueprint verification = (refl, refl)
get_builder_node_definition-blueprint transform = (refl, refl)
get_builder_node_definition-blueprint subflow = (refl, refl)
get_builder_node_definition-blueprint terminate = (refl, refl)
