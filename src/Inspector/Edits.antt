-- ===== src/Inspector/Edits.antt =====
-- An edit of a node's configuration in the inspector: the patch of frontend/src/builder-v2/inspector/editor-schema.ts
-- and `updateDraftNodeConfig` of frontend/src/builder-v2/store/builder-store.ts.
use lang_orch.Base.{
  String, false, some, List, ◌∷◌, any, ◌==◌, ◌≡◌, refl, ap, ◌∙◌, Value, Fields, get, merge,
}
use lang_orch.Draft.{BuilderNodeDraft, BuilderDraftDocument}
use lang_orch.Store.{find_node, update_draft_node_config}
use lang_orch.Store.Find.{map_option, find_node-updated, find_node-kept}
use lang_orch.Inspector.{is_undefined, read_config_value, create_config_patch}
use lang_orch.Inspector.Laws.{
  has-create_config_patch, AllAre-create_config_patch, get-merge-AllAre,
  read_config_value-create_config_patch,
}

-- The draft after a control with these keys wrote the value
abbrev pub edited : BuilderDraftDocument → String → List String → Value → BuilderDraftDocument
edited d i keys v = update_draft_node_config d i (create_config_patch keys v)

-- After a control with keys writes a value that is not `undefined` to a node of the draft, it reads the
-- value back from the node, a key that is none of the control's holds what it held, and the other fields
-- of the node and all other nodes are as before.
pub find_node-edited :
    (d : BuilderDraftDocument) (i : String) (n : BuilderNodeDraft) (k : String) (ks : List String)
    (v default_value : Value) (other_key other_id : String)
    → find_node i d.nodes ≡ some n
    → is_undefined v ≡ false
    → any (λ k'. k' == other_key) (k ∷ ks) ≡ false
    → (i == other_id) ≡ false
    → (config : Fields) × (find_node i (edited d i (k ∷ ks) v).nodes
        ≡ some (record n { config = config }))
      × (read_config_value config (k ∷ ks) default_value ≡ v)
      × (get other_key config ≡ get other_key n.config)
      × (find_node other_id (edited d i (k ∷ ks) v).nodes ≡ find_node other_id d.nodes)
unfolding update_draft_node_config
find_node-edited d i n k ks v default_value other_key other_id found defined spared differs =
    let patch = create_config_patch (k ∷ ks) v in
    let f = λ (m : BuilderNodeDraft). record m { config = merge m.config patch } in
    (
      merge n.config patch,
      find_node-updated i f (λ m. refl) d.nodes ∙ ap (map_option f) found,
      read_config_value-create_config_patch n.config k ks v default_value defined,
      get-merge-AllAre v other_key n.config patch (AllAre-create_config_patch v (k ∷ ks))
          ∙ rw (has-create_config_patch other_key (k ∷ ks) v, spared) refl,
      find_node-kept i f (λ m. refl) other_id d.nodes differs,
    )
