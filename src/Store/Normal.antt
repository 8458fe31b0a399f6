-- ===== src/Store/Normal.antt =====
-- Loading a draft: the conversion of the legacy processing shape, and that it is done once.
use lang_orch.Base.{
  String, false, Option, List, [], ◌∷◌, map, if◌then◌else◌, Bool-cases, ◌==◌, Value, undefined, any,
  get-remove, str, has, has_once, get-merge, field, no_fields, is_blank, trim, some, true, ◌||◌,
  arr, obj, no_elements, element, Fields, get, remove, get-put, is_filled_array, is_empty, ◌≡◌,
  refl, inl, inr, arith,
}
use lang_orch.Draft.{BuilderNodeKind, processing, BuilderNodeDraft, BuilderDraftDocument}
use lang_orch.Store.{
  merge_mapping, merge_parsed, action_text, legacy_keys, remove_all, normalized_operation,
  normalize_legacy_processing_config, normalize_config, normalize_loaded_node, load_draft_document,
}

get-remove_all :
    (ks : List String) (j : String) (o : Fields)
    → get j (remove_all ks o) ≡ (if any (λ k. k == j) ks then undefined else get j o)
unfolding remove_all
get-remove_all [] j o = refl
get-remove_all (k ∷ ks) j o = ground (arith, get-remove_all ks j (remove k o), get-remove k j o)

module _ (parse_json : String → Option Value) where
  -- A normalized configuration is one that a second pass leaves alone.
  normalize_legacy_processing_config_idem :
      (c : Fields)
      → normalize_legacy_processing_config parse_json
          (normalize_legacy_processing_config parse_json c)
        ≡ normalize_legacy_processing_config parse_json c
  unfolding normalize_legacy_processing_config
  normalize_legacy_processing_config_idem c =
      elim (Bool-cases (is_filled_array (get "operations" c))) [
        | inl filled ↦ simp filled
        | inr empty ↦ elim (Bool-cases (is_empty (action_text (get "action" c)))) [
          | inl blank ↦ simp (empty, blank)
          | inr action ↦ simp (empty, action) (rw get-put refl)
        ]
      ]

  -- The fields that a mapping adds: those of an object, or of the object that a text reads as.
  unfoldable pub mapping_fields : Value → Fields
  mapping_fields (obj p) = p
  mapping_fields (str s) =
      if is_blank s then no_fields else (elim (parse_json s) [ some (obj p) ↦ p | _ ↦ no_fields ])
  mapping_fields v = no_fields

  get-merge_mapping :
      (v : Value) (o : Fields) (j : String)
      → has_once (mapping_fields v) ≡ true
      → get j (merge_mapping parse_json v o)
        ≡ (if has j (mapping_fields v) then get j (mapping_fields v) else get j o)
  unfolding merge_mapping mapping_fields has
  get-merge_mapping (obj p) o j h = get-merge j o p h
  get-merge_mapping (str s) o j h = elim (Bool-cases (is_blank s)) [
    | inl blank ↦ rw blank refl
    | inr full ↦ rw full (parsed (parse_json s) (rw full at h))
  ]
    where
      parsed :
          (r : Option Value)
          → has_once (elim r [ some (obj p) ↦ p | _ ↦ no_fields ]) ≡ true
          → get j (merge_parsed r o) ≡ (
              if has j (elim r [ some (obj p) ↦ p | _ ↦ no_fields ])
              then get j (elim r [ some (obj p) ↦ p | _ ↦ no_fields ])
              else get j o)
      parsed (some (obj p)) h = get-merge j o p h
      parsed _ h = refl
  get-merge_mapping _ o j h = refl

  -- A configuration with an action and no operations gets one operation. A field of it is the one of
  -- `outputMapping`, else of `output_mapping`, else of `inputMapping`, else of `input_mapping`, where a
  -- mapping is an object or a text that reads as one, and has each key once; else `action` is the
  -- trimmed action. The five older keys are gone, and any other key keeps its value.
  pub get-normalize_legacy_processing_config :
      (c : Fields) (action j k : String)
      → is_filled_array (get "operations" c) ≡ false
      → get "action" c ≡ str action
      → is_empty (trim action) ≡ false
      → has_once (mapping_fields (get "outputMapping" c)) ≡ true
      → has_once (mapping_fields (get "output_mapping" c)) ≡ true
      → has_once (mapping_fields (get "inputMapping" c)) ≡ true
      → has_once (mapping_fields (get "input_mapping" c)) ≡ true
      → (operation : Fields) × (get j operation ≡ (
          if has j (mapping_fields (get "outputMapping" c))
          then get j (mapping_fields (get "outputMapping" c))
          else if has j (mapping_fields (get "output_mapping" c))
          then get j (mapping_fields (get "output_mapping" c))
          else if has j (mapping_fields (get "inputMapping" c))
          then get j (mapping_fields (get "inputMapping" c))
          else if has j (mapping_fields (get "input_mapping" c))
          then get j (mapping_fields (get "input_mapping" c))
          else if "action" == j
          then str (trim action)
          else undefined))
        × (get k (normalize_legacy_processing_config parse_json c) ≡ (
            if "operations" == k
            then arr (element (obj operation) no_elements)
            else if "action" == k
                || "input_mapping" == k
                || "inputMapping" == k
                || "output_mapping" == k
                || "outputMapping" == k
            then undefined
            else get k c))
  unfolding normalize_legacy_processing_config normalized_operation get
  get-normalize_legacy_processing_config c action j k empty e full h1 h2 h3 h4 =
      let o0 = field "action" (str (trim action)) no_fields in
      let o1 = merge_mapping parse_json (get "input_mapping" c) o0 in
      let o2 = merge_mapping parse_json (get "inputMapping" c) o1 in
      let o3 = merge_mapping parse_json (get "output_mapping" c) o2 in
      (
        merge_mapping parse_json (get "outputMapping" c) o3,
        rw
            (
              get-merge_mapping (get "outputMapping" c) o3 j h1,
              get-merge_mapping (get "output_mapping" c) o2 j h2,
              get-merge_mapping (get "inputMapping" c) o1 j h3,
              get-merge_mapping (get "input_mapping" c) o0 j h4,
            )
            refl,
        simp (empty, e, full) (rw get-put (rw (get-remove_all legacy_keys k c) (ground arith))),
      )

  normalize_config_idem :
      (k : BuilderNodeKind) (c : Fields)
      → normalize_config parse_json k (normalize_config parse_json k c)
        ≡ normalize_config parse_json k c
  unfolding normalize_config
  normalize_config_idem processing c = normalize_legacy_processing_config_idem c
  normalize_config_idem _ c = refl

  normalize_loaded_node_idem :
      (n : BuilderNodeDraft)
      → normalize_loaded_node parse_json (normalize_loaded_node parse_json n)
        ≡ normalize_loaded_node parse_json n
  unfolding normalize_loaded_node
  normalize_loaded_node_idem n = λ i. record n { config = normalize_config_idem n.kind n.config i }

  normalize_nodes_idem :
      (ns : List BuilderNodeDraft)
      → map (normalize_loaded_node parse_json) (map (normalize_loaded_node parse_json) ns)
        ≡ map (normalize_loaded_node parse_json) ns
  normalize_nodes_idem [] = refl
  normalize_nodes_idem (n ∷ ns) = cc (normalize_loaded_node_idem n, normalize_nodes_idem ns)

  -- A loaded draft is not changed by loading it again.
  pub load_draft_document_idem :
      (d : BuilderDraftDocument)
      → load_draft_document parse_json (load_draft_document parse_json d)
        ≡ load_draft_document parse_json d
  unfolding load_draft_document
  load_draft_document_idem d = λ i. record d { nodes = normalize_nodes_idem d.nodes i }
