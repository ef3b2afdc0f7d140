-- ===== src/Engine/Normalization.antt =====
-- What the engine asks of normalization.py: parsing, comparison and the write-safety tests. The
-- engine's theorems hold for every such interface.
use excel_youhua.Prelude.{ℕ, String, Bool, List, Option}
use excel_youhua.Python.{Value}
use excel_youhua.Engine.Models.{ColumnRule, ParsedValue}

pub record Normalization (Obj : Type 0) : Type 0 where
  pub parse_value : Value Obj → ColumnRule Obj → ParsedValue Obj
  -- `parse_excel_value` at the workbook's epoch
  pub parse_excel_value : Value Obj → ColumnRule Obj → ParsedValue Obj
  -- `parse_row_number`, with no value where it raises
  pub parse_row_number : Value Obj → Option ℕ
  pub values_equal : ParsedValue Obj → ParsedValue Obj → ColumnRule Obj → Bool
  pub excel_datetime_write_safe : Value Obj → Option String → Bool
  pub excel_numeric_write_safe : Value Obj → Bool
  -- `value.isoformat()`, `str(value)` and the elements of a tuple
  pub isoformat : Value Obj → String
  pub elements : Value Obj → List String
  -- `re.fullmatch(pattern, text)` finds a match
  pub fullmatch : String → String → Bool
  -- `Decimal(text) < bound` and `Decimal(text) > bound`
  pub decimal_below : String → Obj → Bool
  pub decimal_above : String → Obj → Bool
  -- `left < right` of two dates
  pub before : Value Obj → Value Obj → Bool
  -- `normalized_uniqueness_key`
  pub uniqueness_key : ParsedValue Obj → ColumnRule Obj → Value Obj
