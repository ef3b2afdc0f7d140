-- ===== src/Engine/Fields.antt =====
-- The comparison of one field of a matched record (engine.py, the last loop of `_compare_records`).
pub mod Allowed
use Prim.Native.String.{◌++◌ as ◌<>◌}
use excel_youhua.Prelude.{
  ℕ, String, Bool, true, false, not, ◌&&◌, ◌||◌, List, [], ◌∷◌, ◌++◌, Option, none, some, Eq,
  string_eq, if◌then◌else◌,
}
use excel_youhua.Dict.{Dict, get, has}
use excel_youhua.Python.{Python, Value}
use excel_youhua.Engine.Models.{
  ColumnRule, SheetRule, SheetSnapshot, RenderAction, Cell, ParsedValue, Difference, value_mismatch,
  invalid_value, warning, planned, set_cell_green, mark_purple, set_cell, value,
}
use excel_youhua.Engine.Normalization.{Normalization}
use excel_youhua.Engine.Log.{difference, operation, Entry, note, fix}
use excel_youhua.Engine.Keys.{
  Record, Key, get_cell, is_blank, is_null, is_formula_text, is_formula_mode, safe_value,
  business_key, should_insert_missing,
}
use excel_youhua.Engine.Writes.{excel_write_safe, excel_write_value}
use excel_youhua.Engine.KeyEquality.{value_beq}
use excel_youhua.Engine.Blocked.{write_safety, formula_blocked}
use excel_youhua.Engine.Cells.{is_reject, is_fuzzy_string, mode_text, inserted_field, fill_default}

module _ (py : Python) ⦃e : Eq py.Obj⦄ (nm : Normalization py.Obj) (sheet : SheetRule py.Obj) where
  open py use {Obj}

  module _ (row : ℕ) (cell : Cell) (key : Key Obj) (c : ColumnRule Obj) where
    -- What all differences of the field in its cell have in common.
    abbrev in_cell : Difference Obj → Difference Obj
    in_cell d = record d {
      cell = some cell;
      excel_row = some row;
      canonical_field = some c.name;
      business_key = some (business_key py key sheet);
    }

    -- `can_fill`
    abbrev can_fill : ParsedValue Obj → ParsedValue Obj → Bool
    can_fill left right =
        is_null left.normalized
        && (not (is_null right.normalized) && sheet.actions.fill_empty_from_standard)

    -- the difference of two values that are not equal; `raw` is what stands in the cell
    abbrev mismatch : Value Obj → ParsedValue Obj → ParsedValue Obj → Difference Obj
    mismatch raw left right = record (in_cell (difference value_mismatch sheet)) {
      excel_raw_value = safe_value py raw c;
      excel_normalized_value = safe_value py left.normalized c;
      standard_raw_value = value (safe_value py right.raw c);
      standard_normalized_value = safe_value py right.normalized c;
      rule_id = some (c.name <> "." <> mode_text c.compare_mode);
      render_action = sheet.actions.mismatched_value;
    }

    abbrev repair_rule : Bool → String
    repair_rule true = c.name <> ".fill_empty_from_standard"
    repair_rule false = c.name <> ".overwrite_mismatch"

    -- the two values are not equal
    unfoldable pub compare_unequal :
        Value Obj → ParsedValue Obj → ParsedValue Obj → List (Entry Obj)
    unfolding difference operation safe_value business_key excel_write_safe excel_write_value
        write_safety formula_blocked is_formula_text
    compare_unequal raw left right =
        let d = mismatch raw left right in
        if is_fuzzy_string c.type
        then note (record d {
          rule_id = some (c.name <> ".fuzzy_suggestion");
          excel_raw_value = safe_value py left.raw c;
          severity = warning;
          render_action = mark_purple;
        })
          ∷ []
        else if not (can_fill left right || sheet.actions.overwrite_mismatch)
        then note d ∷ []
        else if is_formula_text raw
        then formula_blocked py sheet row cell key c raw left right ∷ note d ∷ []
        else if not (excel_write_safe py nm right c)
        then write_safety py sheet (some row) (some cell) key c right ∷ note d ∷ []
        else fix (record d { render_action = set_cell_green; repair_status = planned })
            (record (operation set_cell sheet) {
              rule_id = repair_rule (can_fill left right);
              cell = some cell;
              canonical_field = some c.name;
              value = excel_write_value py nm right c;
            })
          ∷ []

    -- the parsed values of the cell and of the standard
    unfoldable pub compare_parsed : Value Obj → ParsedValue Obj → ParsedValue Obj → List (Entry Obj)
    unfolding compare_unequal difference safe_value business_key formula_blocked fill_default
        is_formula_text
    compare_parsed raw left right =
        if not left.valid
        then []
        else if not right.valid
        then note (record (in_cell (difference invalid_value sheet)) {
          standard_raw_value = value (safe_value py right.raw c);
          rule_id = some (c.name <> ".standard_parse");
        })
          ∷ []
        else if not (nm.values_equal left right c)
        then compare_unequal raw left right
        else if not (is_null left.normalized && c.fill_static_default)
        then []
        else if is_formula_text raw
        then formula_blocked py sheet row cell key c raw left (nm.parse_value c.static_default c)
          ∷ []
        else fill_default py nm sheet row cell key c Value.null

    -- the raw values, with the cached value in place of a formula
    unfoldable pub compare_raw : Value Obj → Value Obj → Value Obj → List (Entry Obj)
    unfolding compare_parsed
    compare_raw raw left right =
        if is_blank left && (is_blank right && not c.fill_static_default)
        then []
        else compare_parsed raw (nm.parse_excel_value left c) (nm.parse_value right c)

    abbrev formula_difference : Value Obj → Value Obj → Entry Obj
    formula_difference left right = note (record (in_cell (difference value_mismatch sheet)) {
      excel_raw_value = safe_value py left c;
      standard_raw_value = value (safe_value py right c);
      rule_id = some (c.name <> ".formula_text");
      render_action = sheet.actions.mismatched_value;
    })

    -- one field of a matched record, in the column of the field
    unfoldable pub compare_cell : SheetSnapshot Obj → Record Obj → Record Obj → List (Entry Obj)
    unfolding compare_raw difference safe_value business_key is_formula_text
    compare_cell snapshot excel_record standard_record =
        let left = get_cell c.name excel_record in
        let right = get_cell c.name standard_record in
        if not (has c.name standard_record) && not (is_blank left && c.fill_static_default)
        then []
        else if is_formula_mode c.formula_mode && (is_formula_text left || is_formula_text right)
        then (if is_formula_text left && (is_formula_text right && value_beq left right)
            then []
            else formula_difference left right ∷ [])
        else if not (is_formula_text left)
        then compare_raw left left right
        else if is_reject c.formula_mode
        then []
        else compare_raw left (snapshot.cached_value cell) right

  module _ (snapshot : SheetSnapshot Obj) (columns : Dict String ℕ) where
    -- one field of a matched record
    unfoldable pub compare_field :
        ℕ → Key Obj → Record Obj → Record Obj → ColumnRule Obj → List (Entry Obj)
    unfolding compare_cell inserted_field should_insert_missing
    compare_field row key excel_record standard_record c = elim (get c.name columns) [
      | some column ↦
          compare_cell row (record { column = column; row = row }) key c snapshot excel_record
            standard_record
      | none ↦
          if should_insert_missing sheet c
          then inserted_field py nm sheet row key standard_record c
          else []
    ]

    -- the loop over `rules_by_name.items()`
    unfoldable pub compare_record :
        ℕ → Key Obj → Record Obj → Record Obj → Dict String (ColumnRule Obj) → List (Entry Obj)
    unfolding compare_field
    compare_record row key excel_record standard_record [] = []
    compare_record row key excel_record standard_record ((name, c) ∷ rules) =
        compare_field row key excel_record standard_record c
        ++ compare_record row key excel_record standard_record rules
