-- ===== src/Export/Graph.antt =====
-- The nodes of an exported workflow: frontend/src/builder-v2/transforms/draft-to-ckp.ts.
use lang_orch.Base.{
  String, true, false, Option, none, some, List, [], ◌∷◌, ◌==◌, ◌≡◌, refl, Value, undefined, obj,
  Fields, no_fields, get, put, get-put, eq_iff, arith, Bool-cases, inl, inr,
}
use lang_orch.Draft.{BuilderNodeDraft, BuilderDraftDocument}
use lang_orch.Store.{has_node, find_node}
use lang_orch.Store.Ids.Distinct.{Distinct}
use lang_orch.Export.{export_node, export_nodes, draft_document_to_ckp_workflow}

-- The export of the draft's node with an identifier.
abbrev pub exported : (String → Option Value) → Option BuilderNodeDraft → Value → Value
exported parse_json none v = v
exported parse_json (some n) v = obj (export_node parse_json n)

none_among :
    (i : String) (ns : List BuilderNodeDraft) → has_node ns i ≡ false → find_node i ns ≡ none
unfolding find_node
none_among i [] h = refl
none_among i (n ∷ ns) h = ground (arith, none_among i ns)

find_node-other :
    (i : String) (n : BuilderNodeDraft) (ns : List BuilderNodeDraft)
    → (n.id == i) ≡ true
    → has_node ns n.id ≡ false
    → find_node i ns ≡ none
find_node-other i n ns same absent =
    let e : n.id ≡ i = (eq_iff n.id i).0 same in none_among i ns (rw e at absent)

get-export_nodes :
    (parse_json : String → Option Value) (i : String) (ns : List BuilderNodeDraft) (o : Fields)
    → Distinct ns
    → get i (export_nodes parse_json o ns) ≡ exported parse_json (find_node i ns) (get i o)
unfolding export_nodes find_node
get-export_nodes parse_json i [] o d = refl
get-export_nodes parse_json i (n ∷ ns) o d = elim (Bool-cases (n.id == i)) [
  | inl same ↦
      rw
        (
          same,
          get-export_nodes parse_json i ns (put n.id (obj (export_node parse_json n)) o) d.1,
          find_node-other i n ns same d.0,
          get-put n.id i (obj (export_node parse_json n)) o,
          same,
        )
        refl
  | inr differ ↦
      rw
        (
          differ,
          get-export_nodes parse_json i ns (put n.id (obj (export_node parse_json n)) o) d.1,
          get-put n.id i (obj (export_node parse_json n)) o,
          differ,
        )
        refl
]

-- Of a draft with distinct identifiers, the exported workflow has at each identifier the export of the
-- draft's node with it, and nothing at the identifier of no node.
pub draft_document_to_ckp_workflow-nodes :
    (parse_json : String → Option Value) (d : BuilderDraftDocument) (i : String)
    → Distinct d.nodes
    → get i (draft_document_to_ckp_workflow parse_json d).nodes
      ≡ exported parse_json (find_node i d.nodes) undefined
unfolding draft_document_to_ckp_workflow get
draft_document_to_ckp_workflow-nodes parse_json d i distinct =
    get-export_nodes parse_json i d.nodes no_fields distinct
