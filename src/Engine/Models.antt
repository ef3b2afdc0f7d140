-- ===== src/Engine/Models.antt =====
-- The rules, the workbook and the results that the engine works on: models.py, workbook.py and the
-- data classes of engine.py. Message texts are not modelled. Values are Python objects, and `Obj`
-- stands for those that are neither `None` nor a text.
use excel_youhua.Prelude.{ℕ, String, Bool, List, Option}
use excel_youhua.Dict.{Dict}
use excel_youhua.Python.{Value}
use excel_youhua.Product.Models.{FieldType}

pub data CompareMode : Type 0 where
  exact numeric date datetime ignore_case set json : CompareMode

pub data FormulaMode : Type 0 where
  formula cached_value reject : FormulaMode

pub data MissingColumnAction : Type 0 where
  insert report_only : MissingColumnAction

-- The actions that a difference asks of the renderer.
pub data RenderAction : Type 0 where
  report_only mark_red mark_yellow mark_orange mark_purple : RenderAction
  mark_row_red mark_row_purple insert_and_mark_green : RenderAction
  set_cell_green set_field_green append_row_green set_number_format : RenderAction

-- `ColumnRule` with the parts of `CompareConfig` and `ValidationConfig` that the engine reads.
pub record ColumnRule (Obj : Type 0) : Type 0 where
  pub name : String
  pub title : String
  pub aliases : List String
  pub required : Bool
  pub type : FieldType
  pub compare_mode : CompareMode
  pub timezone : Option String
  pub formula_mode : FormulaMode
  pub nullable : Bool
  pub unique : Bool
  pub min_length : Option ℕ
  pub max_length : Option ℕ
  pub regex : Option String
  pub min : Option Obj
  pub max : Option Obj
  pub format : Option String
  pub normalize_display_format : Bool
  pub formula_template : Option String
  pub separator : String
  pub missing_column_action : Option MissingColumnAction
  pub fill_static_default : Bool
  pub static_default : Value Obj
  pub sensitive : Bool

pub data PrimaryKeyMode : Type 0 where
  fields row_number : PrimaryKeyMode

pub data EmptyKeyAction : Type 0 where
  report_invalid skip_row use_row_number : EmptyKeyAction

pub data MissingRecord : Type 0 where
  report_only append_and_mark_green : MissingRecord

pub record SheetActions : Type 0 where
  pub extra_header : RenderAction
  pub missing_required_header : RenderAction
  pub missing_optional_header : RenderAction
  pub extra_record : RenderAction
  pub mismatched_value : RenderAction
  pub invalid_value : RenderAction
  pub duplicate_key : RenderAction
  pub rename_confirmed_alias : Bool
  pub fill_empty_from_standard : Bool
  pub overwrite_mismatch : Bool
  pub missing_record : MissingRecord

pub data Severity : Type 0 where
  info warning error : Severity

-- `CrossFieldRule.validator` with its parameters, for the two validators of validators.py
pub data CrossValidator (Obj : Type 0) : Type 0 where
  -- `when_field`, `equals`, `required_field`
  conditional_required : String → Value Obj → String → CrossValidator Obj
  -- `start_field`, `end_field`
  date_order : String → String → CrossValidator Obj

pub record CrossFieldRule (Obj : Type 0) : Type 0 where
  pub rule_id : String
  pub validator : CrossValidator Obj
  pub severity : Severity

pub record SheetRule (Obj : Type 0) : Type 0 where
  pub id : String
  pub name : String
  pub header_row : ℕ
  pub auto_detect : Bool
  pub fuzzy_suggestion_threshold : ℕ
  pub start_row : Option ℕ
  pub include_hidden_rows : Bool
  pub primary_key : List String
  pub primary_key_mode : PrimaryKeyMode
  pub row_number_field : String
  pub empty_primary_key_action : EmptyKeyAction
  pub columns : List (ColumnRule Obj)
  pub cross_field_rules : List (CrossFieldRule Obj)
  pub actions : SheetActions

-- The source writes a cell as a column letter and a row number.
pub record Cell : Type 0 where
  pub column : ℕ
  pub row : ℕ

pub record SheetSnapshot (Obj : Type 0) : Type 0 where
  pub max_row : ℕ
  pub rows : List (ℕ × List (Value Obj))
  pub hidden_rows : List ℕ
  pub cached_value : Cell → Value Obj
  pub format_mismatch : Cell → Option String

pub data HeaderMatch : Type 0 where
  canonical exact_title confirmed_alias fuzzy_suggestion ambiguous unmatched : HeaderMatch

pub data HeaderStatus : Type 0 where
  matched duplicate ambiguous extra : HeaderStatus

pub record HeaderMapping : Type 0 where
  pub sheet_id : String
  pub physical_column : ℕ
  pub raw_header : String
  pub normalized_header : String
  pub canonical_field : Option String
  pub match_type : HeaderMatch
  pub confidence : Option ℕ
  pub status : HeaderStatus

pub data DifferenceType : Type 0 where
  missing_sheet extra_sheet ambiguous_sheet missing_header extra_header duplicate_header :
      DifferenceType
  ambiguous_header header_not_found header_order_mismatch empty_primary_key : DifferenceType
  duplicate_primary_key extra_record missing_record value_mismatch invalid_value : DifferenceType
  validation_error normalized_match unsupported_feature render_warning : DifferenceType

pub data RepairStatus : Type 0 where
  not_requested planned applied failed : RepairStatus

-- A value in a report: of a cell, or of a whole record.
pub data Shown (Obj : Type 0) : Type 0 where
  value : Value Obj → Shown Obj
  record_of : Dict String (Value Obj) → Shown Obj

pub record Difference (Obj : Type 0) : Type 0 where
  pub difference_id : String
  pub type : DifferenceType
  pub severity : Severity
  pub sheet_id : String
  pub sheet_name : String
  pub cell : Option Cell
  pub excel_row : Option ℕ
  pub canonical_field : Option String
  pub business_key : Option (Dict String (Value Obj))
  pub excel_raw_value : Value Obj
  pub excel_normalized_value : Value Obj
  pub standard_raw_value : Shown Obj
  pub standard_normalized_value : Value Obj
  pub rule_id : Option String
  pub render_action : RenderAction
  pub repair_status : RepairStatus

pub data RepairType : Type 0 where
  set_cell set_field append_record set_number_format : RepairType

pub record RepairOperation (Obj : Type 0) : Type 0 where
  pub type : RepairType
  pub sheet_id : String
  pub sheet_name : String
  pub rule_id : String
  pub difference_id : String
  pub cell : Option Cell
  pub excel_row : Option ℕ
  pub canonical_field : Option String
  pub value : Value Obj
  pub values : Dict String (Value Obj)

pub record ReportSummary : Type 0 where
  pub matched_records : ℕ
  pub extra_records : ℕ
  pub missing_records : ℕ

-- The result of parsing one value.
pub record ParsedValue (Obj : Type 0) : Type 0 where
  pub raw : Value Obj
  pub normalized : Value Obj
  pub valid : Bool
