-- ===== src/Import/Edges.antt =====
-- The edges of a workflow (frontend/src/builder-v2/legacy/transforms.ts, lines 9 to 17 and 139 to 193).
use lang_orch.Base.{
  String, Bool, ◌||◌, Option, none, some, List, [], ◌∷◌, ◌++◌, length, show, if◌then◌else◌, ◌<>◌,
  is_empty, is_lower_case, Value, undefined, null, str, arr, obj, Elements, no_elements, element,
  Fields, no_fields, field, get, nullish, truthy, to_text,
}

-- A green, red, orange, grey, violet or blue stroke.
pub edge_color : String → String
edge_color label =
    if is_lower_case label "approve"
      || is_lower_case label "true"
      || is_lower_case label "pass"
      || is_lower_case label "yes"
    then "#22C55E"
    else if is_lower_case label "reject"
        || is_lower_case label "false"
        || is_lower_case label "fail"
        || is_lower_case label "no"
    then "#EF4444"
    else if is_lower_case label "timeout" || is_lower_case label "error"
    then "#F97316"
    else if is_lower_case label "default"
    then "#9CA3AF"
    else if is_lower_case label "loop body"
    then "#8B5CF6"
    else "#6366F1"

-- The styles of an edge are fixed but for their colour.
pub record Edge : Type 0 where
  pub id : String
  pub source : String
  pub target : String
  pub label : Option String
  pub color : String

-- `edgeIndex` is the number of edges so far.
unfoldable pub new_edge : List Edge → String → String → String → Edge
unfolding edge_color
new_edge edges source target label = record {
  id = "e" <> show (length edges);
  source = source;
  target = target;
  label = if is_empty label then none else some label;
  color = edge_color label;
}

unfoldable pub add_edge_from_ckp : List Edge → String → Value → String → List Edge
add_edge_from_ckp edges source (str target) label =
    if is_empty target then edges else edges ++ new_edge edges source target label ∷ []
add_edge_from_ckp edges source v label = edges

-- `v[k]`
unfoldable pub property : String → Value → Value
property k (obj o) = get k o
property k v = undefined

abbrev pub Links : Type 0
Links = List (String × Value)

unfoldable pub link_if : Bool → String → Value → Links
link_if b label target = if b then (label, target) ∷ [] else []

unfoldable pub direct_link : Fields → String → String → Links
unfolding link_if
direct_link node k label = link_if (truthy (get k node)) label (get k node)

unfoldable pub either_link : Fields → String → String → String → Links
unfolding link_if
either_link node k l label =
    link_if (truthy (get k node) || truthy (get l node)) label (nullish (get k node) (get l node))

unfoldable pub branch_label : Value → String
branch_label v = if truthy v then "branch:" <> to_text v else "branch"

unfoldable pub branch_links : Elements → Links
unfolding property branch_label link_if
branch_links no_elements = []
branch_links (element v vs) =
    let target = nullish (property "start_node" v) (property "entry_node" v) in
    link_if (truthy target) (branch_label (nullish (property "name" v) (property "branch_id" v)))
      target
    ++ branch_links vs

-- A condition is a text where it is there.
unfoldable pub condition_label : Value → String
condition_label undefined = "true"
condition_label null = "true"
condition_label v = to_text v

unfoldable pub rule_links : Elements → Links
unfolding property condition_label link_if
rule_links no_elements = []
rule_links (element v vs) =
    link_if (truthy (property "next_node" v)) (condition_label (property "condition" v))
      (property "next_node" v)
    ++ rule_links vs

abbrev pub array_links : (Elements → Links) → Value → Links
array_links f (arr vs) = f vs
array_links f v = []

-- The calls of `addEdgeFromCkp` for one node, in order.
unfoldable pub node_links : Fields → Links
unfolding direct_link either_link branch_links rule_links
node_links node =
    direct_link node "next_node" ""
    ++ (direct_link node "on_approve" "approve"
        ++ (direct_link node "on_reject" "reject"
            ++ (direct_link node "on_timeout" "timeout"
                ++ (direct_link node "on_true" "true"
                    ++ (direct_link node "on_false" "false"
                        ++ (direct_link node "on_pass" "pass"
                            ++ (direct_link node "on_fail" "fail"
                                ++ (direct_link node "on_error" "error"
                                    ++ (direct_link node "on_failure" "error"
                                        ++ (either_link node "default_next_node" "default_next"
                                              "default"
                                            ++ (either_link node "body_node" "loop_body" "loop body"
                                                ++ (array_links branch_links (get "branches" node)
                                                    ++ array_links rule_links
                                                        (get "rules" node)))))))))))))

unfoldable pub add_links : String → Links → List Edge → List Edge
unfolding add_edge_from_ckp
add_links i [] edges = edges
add_links i ((label, target) ∷ ls) edges = add_links i ls (add_edge_from_ckp edges i target label)

-- `Object.entries(rawNodes)`
unfoldable pub node_entries : Fields → List (String × Fields)
node_entries no_fields = []
node_entries (field k (obj o) r) = (k, o) ∷ node_entries r
node_entries (field k v r) = (k, no_fields) ∷ node_entries r

unfoldable pub ckp_edges : List (String × Fields) → List Edge → List Edge
unfolding add_links node_links
ckp_edges [] edges = edges
ckp_edges ((i, node) ∷ es) edges = ckp_edges es (add_links i (node_links node) edges)
