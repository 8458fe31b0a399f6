-- ===== src/Export/Kinds.antt =====
-- What each kind of node assigns to its exported object (lines 121 to 366), key by key in order.
use mathlib.Core.Option
use lang_orch.Base.{
  String, true, Option, none, some, get_or, or_else, List, [], ◌∷◌, keep, if◌then◌else◌, Value,
  bool, str, Fields, no_fields, field, get, merge,
}
use lang_orch.Draft.{
  BuilderNodeKind, sequence, logic, loop, parallel, human_approval, llm_action, processing,
  verification, transform, subflow, terminate, BuilderNodeDraft,
}
use lang_orch.Export.Convert.{
  as_object, as_array, as_string, as_boolean, as_number, first_target, conditional_targets, text,
}
use lang_orch.Export.Normalize.{
  objects, object, number, first_string, logic_rules, verification_checks, explicit_branches,
  is_branch, transition_branches, or_if_empty, wait_strategy, non_blank, branch_names, is_on,
}

module _ (parse_json : String → Option Value) where
  abbrev mapping : Fields → String → String → Option Fields
  mapping config k l =
      or_else (as_object parse_json (get k config)) (as_object parse_json (get l config))

  abbrev operation : Fields → Option String → List Fields
  operation config none = []
  operation config (some action) =
      merge
        (merge (field "action" (str action) no_fields)
          (get_or (mapping config "input_mapping" "inputMapping") no_fields))
        (get_or (mapping config "output_mapping" "outputMapping") no_fields)
      ∷ []

  -- `normalizeProcessingOperations`
  processing_operations : Fields → List Fields
  processing_operations config =
      or_if_empty (as_array parse_json (get "operations" config))
        (operation config (as_string (get "action" config)))

  parallel_branches : BuilderNodeDraft → List Fields
  parallel_branches n =
      or_if_empty (explicit_branches 1 (as_array parse_json (get "branches" n.config)))
        (transition_branches 1 (keep is_branch n.transitions))

  -- `asString(config.next_node) ?? getTransitionTarget(node, ...keys)`
  unfoldable pub next_node : BuilderNodeDraft → List String → Option String
  next_node n ks = or_else (as_string (get "next_node" n.config)) (first_target n.transitions ks)

  unfoldable pub assignments : BuilderNodeKind → BuilderNodeDraft → List (String × Option Value)
  unfolding first_string logic_rules verification_checks explicit_branches transition_branches
      non_blank processing_operations parallel_branches
  assignments logic n =
      (
        "rules",
        objects (
            logic_rules (as_array parse_json (get "rules" n.config))
              (conditional_targets n.transitions)),
      )
      ∷ (
        "default_next_node",
        text (
            or_else
              (first_string n.config
                ("default_next_node" ∷ "default_next" ∷ "logicDefaultNext" ∷ []))
              (first_target n.transitions ("default" ∷ []))),
      )
      ∷ []
  assignments loop n =
      ("iterator", text (as_string (get "iterator" n.config)))
      ∷ ("iterator_variable", text (as_string (get "iterator_variable" n.config)))
      ∷ ("index_variable", text (as_string (get "index_variable" n.config)))
      ∷ ("collect_variable", text (as_string (get "collect_variable" n.config)))
      ∷ (
        "body_node",
        text (
            or_else (as_string (get "body_node" n.config))
              (first_target n.transitions ("loop body" ∷ []))),
      )
      ∷ ("next_node", text (next_node n ("done" ∷ "next" ∷ [])))
      ∷ (
        "max_iterations",
        number (
            or_else (as_number (get "max_iterations" n.config))
              (as_number (get "loopMaxIterations" n.config))),
      )
      ∷ ("continue_on_error", Option.map bool (as_boolean (get "continue_on_error" n.config)))
      ∷ []
  assignments parallel n =
      ("branches", objects (parallel_branches n))
      ∷ (
        "wait_strategy",
        some (
            str (
              wait_strategy (as_string (get "wait_strategy" n.config)) (
                or_else (as_boolean (get "parallelWaitAll" n.config))
                  (as_boolean (get "wait_all" n.config))))),
      )
      ∷ ("branch_failure", text (as_string (get "branch_failure" n.config)))
      ∷ ("next_node", text (next_node n ("next" ∷ [])))
      ∷ []
  assignments human_approval n =
      ("prompt", text (first_string n.config ("prompt" ∷ "approvalPrompt" ∷ [])))
      ∷ ("decision_type", text (first_string n.config ("decision_type" ∷ "decisionType" ∷ [])))
      ∷ (
        "timeout_ms",
        number (
            or_else (as_number (get "timeout_ms" n.config)) (as_number (get "timeoutMs" n.config))),
      )
      ∷ ("on_approve", text (first_target n.transitions ("approve" ∷ [])))
      ∷ ("on_reject", text (first_target n.transitions ("reject" ∷ [])))
      ∷ ("on_timeout", text (first_target n.transitions ("timeout" ∷ [])))
      ∷ []
  assignments llm_action n =
      let on = is_on (
        or_else (as_boolean (get "orchestration_mode" n.config))
          (as_boolean (get "orchestrationMode" n.config))) in
      ("prompt", text (first_string n.config ("prompt" ∷ "llmPrompt" ∷ [])))
      ∷ ("model", text (first_string n.config ("model" ∷ "llmModel" ∷ [])))
      ∷ ("next_node", text (next_node n ("next" ∷ [])))
      ∷ ("orchestration_mode", if on then some (bool true) else none)
      ∷ (
        "branches",
        if on then branch_names (as_string (get "orchestrationBranches" n.config)) else none,
      )
      ∷ []
  assignments processing n =
      ("operations", objects (processing_operations n.config))
      ∷ ("next_node", text (next_node n ("next" ∷ "pass" ∷ [])))
      ∷ []
  assignments verification n =
      (
        "checks",
        objects (
            verification_checks 1 (
              or_if_empty (as_array parse_json (get "checks" n.config))
                (as_array parse_json (get "rules" n.config)))),
      )
      ∷ ("next_node", text (next_node n ("next" ∷ "pass" ∷ [])))
      ∷ []
  assignments transform n =
      ("transformations", objects (as_array parse_json (get "transformations" n.config)))
      ∷ ("next_node", text (next_node n ("next" ∷ [])))
      ∷ []
  assignments subflow n =
      (
        "procedure_id",
        text (first_string n.config ("procedure_id" ∷ "subflow_id" ∷ "subflowId" ∷ [])),
      )
      ∷ ("version", text (first_string n.config ("version" ∷ "subflowVersion" ∷ [])))
      ∷ ("next_node", text (next_node n ("next" ∷ [])))
      ∷ ("input_mapping", object (mapping n.config "input_mapping" "inputMapping"))
      ∷ ("output_mapping", object (mapping n.config "output_mapping" "outputMapping"))
      ∷ []
  assignments terminate n =
      ("status", text (as_string (get "status" n.config)))
      ∷ ("outputs", object (as_object parse_json (get "outputs" n.config)))
      ∷ []
  assignments sequence n = ("next_node", text (next_node n ("next" ∷ []))) ∷ []
