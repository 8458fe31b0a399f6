-- ===== src/Draft.antt =====
-- The draft that the builder edits: frontend/src/builder-v2/reference-contract.ts.
-- An absent optional field and `null` are `none`.
pub mod Registry
use lang_orch.Base.{String, Bool, Option, List, ℤ, Fields}

pub data BuilderNodeKind : Type 0 where
  sequence logic loop parallel human_approval llm_action processing : BuilderNodeKind
  verification transform subflow terminate : BuilderNodeKind

abbrev pub kind_name : BuilderNodeKind → String
kind_name sequence = "sequence"
kind_name logic = "logic"
kind_name loop = "loop"
kind_name parallel = "parallel"
kind_name human_approval = "human_approval"
kind_name llm_action = "llm_action"
kind_name processing = "processing"
kind_name verification = "verification"
kind_name transform = "transform"
kind_name subflow = "subflow"
kind_name terminate = "terminate"

pub record BuilderNodePosition : Type 0 where
  pub x : ℤ
  pub y : ℤ

pub record BuilderTransition : Type 0 where
  pub key : String
  pub target_node_id : Option String
  pub label : Option String

pub record NodeUi : Type 0 where
  pub color_token : Option String
  pub collapsed : Option Bool
  pub notes : Option String

pub record BuilderNodeDraft : Type 0 where
  pub id : String
  pub kind : BuilderNodeKind
  pub title : String
  pub description : Option String
  pub agent : Option String
  pub position : BuilderNodePosition
  pub config : Fields
  pub transitions : List BuilderTransition
  pub ui : Option NodeUi

pub record Viewport : Type 0 where
  pub x : ℤ
  pub y : ℤ
  pub zoom : ℤ

pub record Issue : Type 0 where
  pub node_id : Option String
  pub message : String

pub record ValidationReport : Type 0 where
  pub errors : List Issue
  pub warnings : List Issue

pub record BuilderDraftDocument : Type 0 where
  pub procedure_id : String
  pub procedure_version : String
  pub start_node_id : Option String
  pub nodes : List BuilderNodeDraft
  pub viewport : Option Viewport
  pub validation : Option ValidationReport

pub data Category : Type 0 where
  deterministic intelligent control : Category

pub record BuilderNodeBlueprint : Type 0 where
  pub kind : BuilderNodeKind
  pub title : String
  pub category : Category
  pub summary : String
  pub transition_keys : List String
  pub default_config : Fields
