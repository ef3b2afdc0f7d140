-- ===== src/Engine/Cells.antt =====
-- The comparison of one field of a matched record (engine.py, the body of the last loop of
-- `_compare_records`), and the filling of empty cells with a static default.

use Prim.Native.String.{◌++◌ as ◌<>◌}
use excel_youhua.Prelude.{
  ℕ, String, Bool, true, false, not, ◌&&◌, List, [], ◌∷◌, none, some, Eq, string_eq, if◌then◌else◌,
}
use excel_youhua.Dict.{has}
use excel_youhua.Python.{Python, Value}
use excel_youhua.Product.Models.{FieldType}
use excel_youhua.Engine.Models.{
  ColumnRule, SheetRule, CompareMode, FormulaMode, Cell, ParsedValue, value_mismatch,
  normalized_match, info, planned, set_field_green, set_cell_green, set_cell, set_field, value,
}
use excel_youhua.Engine.Normalization.{Normalization}
use excel_youhua.Engine.Log.{difference, operation, Entry, note, fix}
use excel_youhua.Engine.Keys.{Record, Key, get_cell, is_null, safe_value, business_key}
use excel_youhua.Engine.Writes.{excel_write_safe, excel_write_value}
use excel_youhua.Engine.KeyEquality.{value_beq}
use excel_youhua.Engine.Blocked.{write_safety, expand_template}

abbrev pub is_reject : FormulaMode → Bool
is_reject FormulaMode.reject = true
is_reject _ = false

abbrev pub is_fuzzy_string : FieldType → Bool
is_fuzzy_string FieldType.fuzzy_string = true
is_fuzzy_string _ = false

abbrev pub mode_text : CompareMode → String
mode_text CompareMode.exact = "exact"
mode_text CompareMode.numeric = "numeric"
mode_text CompareMode.date = "date"
mode_text CompareMode.datetime = "datetime"
mode_text CompareMode.ignore_case = "ignore_case"
mode_text CompareMode.set = "set"
mode_text CompareMode.json = "json"

module _ (py : Python) ⦃e : Eq py.Obj⦄ (nm : Normalization py.Obj) (sheet : SheetRule py.Obj) where
  open py use {Obj}

  -- A repair of an inserted column: `set_field` with the value, if Excel can hold it.
  unfoldable pub fill_field :
      ℕ → Key Obj → ColumnRule Obj → ParsedValue Obj → Value Obj → String → List (Entry Obj)
  unfolding difference operation safe_value business_key excel_write_safe excel_write_value
      write_safety
  fill_field row key c p shown rule =
      if not (excel_write_safe py nm p c)
      then write_safety py sheet (some row) none key c p ∷ []
      else fix
          (record (difference normalized_match sheet) {
            excel_row = some row;
            canonical_field = some c.name;
            business_key = some (business_key py key sheet);
            standard_raw_value = value (safe_value py shown c);
            rule_id = some rule;
            severity = info;
            render_action = set_field_green;
            repair_status = planned;
          })
          (record (operation set_field sheet) {
            rule_id = rule;
            excel_row = some row;
            canonical_field = some c.name;
            value = excel_write_value py nm p c;
          })
        ∷ []

  -- a field whose column is missing from the workbook and may be inserted
  unfoldable pub inserted_field : ℕ → Key Obj → Record Obj → ColumnRule Obj → List (Entry Obj)
  unfolding fill_field expand_template safe_value business_key difference
  inserted_field row key r c = elim c.formula_template [
    | some template ↦
        if has c.name r && not (value_beq (get_cell c.name r) (expand_template py template row))
        then note (record (difference value_mismatch sheet) {
          excel_row = some row;
          canonical_field = some c.name;
          business_key = some (business_key py key sheet);
          standard_raw_value = value (safe_value py (get_cell c.name r) c);
          standard_normalized_value = safe_value py (expand_template py template row) c;
          rule_id = some (c.name <> ".formula_template_mismatch");
        })
          ∷ []
        else []
    | none ↦
        let right = nm.parse_value (get_cell c.name r) c in
        if sheet.actions.fill_empty_from_standard && right.valid && not (is_null right.normalized)
        then fill_field row key c right right.raw (c.name <> ".fill_empty_from_standard")
        else if c.fill_static_default
        then fill_field row key c (nm.parse_value c.static_default c) c.static_default
            (c.name <> ".fill_static_default")
        else []
  ]

  -- an empty cell of a field with a static default; `shown` is what the difference shows of the cell
  unfoldable pub fill_default : ℕ → Cell → Key Obj → ColumnRule Obj → Value Obj → List (Entry Obj)
  unfolding difference operation safe_value business_key excel_write_safe excel_write_value
      write_safety
  fill_default row cell key c shown =
      let default = nm.parse_value c.static_default c in
      if not (excel_write_safe py nm default c)
      then write_safety py sheet (some row) (some cell) key c default ∷ []
      else fix
          (record (difference normalized_match sheet) {
            cell = some cell;
            excel_row = some row;
            canonical_field = some c.name;
            business_key = some (business_key py key sheet);
            excel_raw_value = shown;
            standard_raw_value = value (safe_value py c.static_default c);
            rule_id = some (c.name <> ".fill_static_default");
            severity = info;
            render_action = set_cell_green;
            repair_status = planned;
          })
          (record (operation set_cell sheet) {
            rule_id = c.name <> ".fill_static_default";
            cell = some cell;
            canonical_field = some c.name;
            value = excel_write_value py nm default c;
          })
        ∷ []
