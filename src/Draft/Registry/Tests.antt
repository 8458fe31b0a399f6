-- ===== src/Draft/Registry/Tests.antt =====
-- The registry at one kind.
use lang_orch.Base.{◌≡◌, refl, some}
use lang_orch.Draft.{loop}
use lang_orch.Draft.Registry.{blueprint, get_builder_node_definition}

loop_definition : get_builder_node_definition loop ≡ some (blueprint loop)
unfolding get_builder_node_definition
loop_definition = refl
