-- ===== src/Planner/Model.antt =====
-- model.rs and the diagnostics, with the fields that the modelled checks read.
use apm_projectrunner.Base.{ℕ, String, Bool, true, false, List, Option, Map, is_some}

pub data DiagnosticCode : Type 0 where
  unsupported_schema invalid_name invalid_path duplicate_name missing_reference : DiagnosticCode
  missing_variable dependency_cycle listener_conflict incomplete_group : DiagnosticCode
  invalid_overlay selector_no_match overlay_conflict unsupported_secret : DiagnosticCode

pub record Diagnostic : Type 0 where
  pub code : DiagnosticCode
  pub path : String
  pub message : String

-- `Diagnostic::new`.
abbrev pub diagnostic : DiagnosticCode → String → String → Diagnostic
diagnostic code path message = record { code = code; path = path; message = message }

abbrev pub is_cycle : Diagnostic → Bool
is_cycle d = elim d.code [ dependency_cycle ↦ true | _ ↦ false ]

pub data DependencyCondition : Type 0 where
  started healthy completed_successfully : DependencyCondition

pub record Service : Type 0 where
  pub publish : List ℕ
  pub depends_on : Map String DependencyCondition

pub record Block : Type 0 where
  pub services : Map String Service

pub record Instance : Type 0 where
  pub name : String
  pub block : String
  pub external : Option String

-- `Instance::is_external`.
abbrev pub is_external : Instance → Bool
is_external i = is_some i.external

pub record ServiceGroup : Type 0 where
  pub instances : List String
  pub disabled : List String
