-- ===== src/Store/Legacy.antt =====
-- The conversion of older configurations when a draft is loaded (lines 9 to 75 and 272 to 277).
use lang_orch.Base.{
  String, Option, some, List, [], ◌∷◌, map, if◌then◌else◌, is_empty, is_blank, trim, Value, str,
  arr, obj, no_elements, element, Fields, no_fields, field, get, put, merge, remove,
  is_filled_array,
}
use lang_orch.Draft.{BuilderNodeKind, processing, BuilderNodeDraft, BuilderDraftDocument}

-- The text after `trim` of `config.action`, `""` where it is no text.
abbrev pub action_text : Value → String
action_text (str s) = trim s
action_text v = ""

-- The keys that the rest of the destructuring leaves out.
abbrev pub legacy_keys : List String
legacy_keys = "action" ∷ "input_mapping" ∷ "inputMapping" ∷ "output_mapping" ∷ "outputMapping" ∷ []

unfoldable pub remove_all : List String → Fields → Fields
remove_all [] o = o
remove_all (k ∷ ks) o = remove_all ks (remove k o)

-- A parsed text adds its fields if it is an object.
abbrev pub merge_parsed : Option Value → Fields → Fields
merge_parsed (some (obj p)) o = merge o p
merge_parsed _ o = o

module _ (parse_json : String → Option Value) where
  unfoldable pub merge_mapping : Value → Fields → Fields
  merge_mapping (obj p) o = merge o p
  merge_mapping (str s) o = if is_blank s then o else merge_parsed (parse_json s) o
  merge_mapping v o = o

  unfoldable pub normalized_operation : Fields → Fields
  unfolding merge_mapping
  normalized_operation config = merge_mapping (get "outputMapping" config) (
      merge_mapping (get "output_mapping" config) (
        merge_mapping (get "inputMapping" config) (
          merge_mapping (get "input_mapping" config)
            (field "action" (str (action_text (get "action" config))) no_fields))))

  unfoldable pub normalize_legacy_processing_config : Fields → Fields
  unfolding normalized_operation remove_all
  normalize_legacy_processing_config config =
      if is_filled_array (get "operations" config)
      then config
      else if is_empty (action_text (get "action" config))
      then config
      else put "operations" (arr (element (obj (normalized_operation config)) no_elements))
          (remove_all legacy_keys config)

  -- `node.kind === "processing" ? … : …`
  unfoldable pub normalize_config : BuilderNodeKind → Fields → Fields
  normalize_config processing config = normalize_legacy_processing_config config
  normalize_config _ config = config

  unfoldable pub normalize_loaded_node : BuilderNodeDraft → BuilderNodeDraft
  unfolding normalize_config
  normalize_loaded_node node = record node { config = normalize_config node.kind node.config }

  unfoldable pub load_draft_document : BuilderDraftDocument → BuilderDraftDocument
  unfolding normalize_loaded_node
  load_draft_document draft = record draft { nodes = map normalize_loaded_node draft.nodes }
