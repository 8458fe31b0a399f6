-- ===== src/Client/Procedures.antt =====
-- The calls about procedures: frontend/src/lib/api.ts, lines 101 to 212.
use lang_orch.Base.{
  String, List, [], ◌∷◌, ◌<>◌, Option, none, some, List, [], ◌∷◌, if◌then◌else◌, is_empty, Value,
  undefined, null, str, obj, Fields, no_fields, field,
}
use lang_orch.Client.{
  Part, fixed, raw, encoded, nothing, post, put, delete, Call, get_call, send_call, bare_call,
  truthy_text, with_params,
}

-- `undefined` fields are left out by `JSON.stringify`.
abbrev pub or_undefined : Option String → Value
or_undefined none = undefined
or_undefined (some s) = str s

abbrev or_null : Option String → Value
or_null none = null
or_null (some s) = str s

pub record ListProceduresParams : Type 0 where
  pub status : Option String
  pub tags : List String
  pub project_id : Option String

-- `tags.join(",")`, where there is a tag
join_tags : List String → Option String
join_tags [] = none
join_tags (t ∷ ts) = elim (join_tags ts) [ none ↦ some t | some rest ↦ some (t <> "," <> rest) ]

abbrev pub version_path : String → String → List Part → List Part
version_path id version rest = fixed "procedures" ∷ encoded id ∷ encoded version ∷ rest

abbrev rollback_fields : Option String → Fields
rollback_fields none = no_fields
rollback_fields (some s) =
    if is_empty s then no_fields else field "rollback_to_version" (str s) no_fields

pub data ProcedureCall : Type 0 where
  list_procedures : ListProceduresParams → ProcedureCall
  -- `getProcedure` with a version
  get_version : (id version : String) → ProcedureCall
  import_procedure : (ckp_json : Value) → (project_id : Option String) → ProcedureCall
  list_versions : (id : String) → ProcedureCall
  update_procedure : (id version : String) → (ckp_json : Value) → ProcedureCall
  get_procedure_builder_draft : (id version : String) → ProcedureCall
  save_procedure_builder_draft : (id version : String) → (draft : Value) → ProcedureCall
  promote_procedure : (id version target_channel : String) → ProcedureCall
  rollback_procedure :
      (id version target_channel : String) → (rollback_to_version : Option String) → ProcedureCall
  delete_procedure : (id version : String) → ProcedureCall
  get_graph : (id version : String) → ProcedureCall

unfoldable pub procedure_call : ProcedureCall → Call
unfolding join_tags
procedure_call (list_procedures p) = get_call (fixed "procedures" ∷ []) (
    with_params (
      ("status", truthy_text p.status)
      ∷ ("tags", join_tags p.tags)
      ∷ ("project_id", truthy_text p.project_id)
      ∷ []))
procedure_call (get_version id version) = get_call (version_path id version []) nothing
procedure_call (import_procedure ckp_json project_id) =
    send_call post (fixed "procedures" ∷ [])
      (obj (field "ckp_json" ckp_json (field "project_id" (or_null project_id) no_fields)))
procedure_call (list_versions id) =
    get_call (fixed "procedures" ∷ raw id ∷ fixed "versions" ∷ []) nothing
procedure_call (update_procedure id version ckp_json) =
    send_call put (version_path id version []) (obj (field "ckp_json" ckp_json no_fields))
procedure_call (get_procedure_builder_draft id version) =
    get_call (version_path id version (fixed "builder-draft" ∷ [])) nothing
procedure_call (save_procedure_builder_draft id version draft) =
    send_call put (version_path id version (fixed "builder-draft" ∷ []))
      (obj (field "draft" draft no_fields))
procedure_call (promote_procedure id version target_channel) =
    send_call post (version_path id version (fixed "promote" ∷ []))
      (obj (field "target_channel" (str target_channel) no_fields))
procedure_call (rollback_procedure id version target_channel rollback_to_version) =
    send_call post (version_path id version (fixed "rollback" ∷ []))
      (obj (field "target_channel" (str target_channel) (rollback_fields rollback_to_version)))
procedure_call (delete_procedure id version) = bare_call delete (version_path id version []) nothing
procedure_call (get_graph id version) =
    get_call (version_path id version (fixed "graph" ∷ [])) nothing
