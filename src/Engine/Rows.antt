-- ===== src/Engine/Rows.antt =====
-- The first loop of `_compare_records` (engine.py): the rows of the workbook become keyed records.
pub mod Unique
use excel_youhua.Prelude.{
  ℕ, ◌+◌, ◌-◌, String, Bool, true, false, not, ◌&&◌, List, [], ◌∷◌, ◌++◌, map, Option, none, some,
  Eq, string_eq, nat_eq, any, keep, contains, get_elem?, drop, if◌then◌else◌,
}
use Prim.Native.String.{◌++◌ as ◌<>◌}
use excel_youhua.Dict.{Dict, get, put}
use excel_youhua.Python.{Python, Value, null, other}
use excel_youhua.Engine.Models.{
  ColumnRule, SheetRule, SheetSnapshot, RenderAction, EmptyKeyAction, skip_row, use_row_number,
  report_invalid, Cell, Difference, unsupported_feature, empty_primary_key, duplicate_primary_key,
  mark_purple, mark_row_purple,
}
use excel_youhua.Engine.Normalization.{Normalization}
use excel_youhua.Engine.Log.{Log, difference, report}
use excel_youhua.Engine.Keys.{
  Record, Key, row_number_fallback, get_cell, is_blank, is_formula_text, record_key, rules_by_name,
  safe_value, safe_if, business_key,
}
use excel_youhua.Engine.KeyEquality.{key_eq}
use excel_youhua.Engine.Index.{Index, note_row}

-- What the rest of Python and of the libraries gives to the comparison of records: the identifiers
-- of `new_ulid("diff_")`, `str(key)`, and the text `stable_key(key)`.
pub record Platform (Obj : Type 0) : Type 0 where
  pub ulid : ℕ → String
  pub key_str : Key Obj → String
  pub stable_key : Key Obj → String

abbrev cons_cell : {Obj : Type 0} → String → Option (Value Obj) → Record Obj → Record Obj
cons_cell name none r = r
cons_cell name (some v) r = if is_blank v then r else (name, v) ∷ r

-- `{name: values[index - 1] for name, index in columns.items() if …}`: the cells that are not blank
unfoldable pub row_record : {Obj : Type 0} → Dict String ℕ → List (Value Obj) → Record Obj
row_record [] values = []
row_record ((name, index) ∷ columns) values =
    cons_cell name (get_elem? values (index - 1)) (row_record columns values)

-- What becomes of a row.
pub data Outcome (Obj : Type 0) : Type 0 where
  passed_over : Outcome Obj
  -- the primary key fields that hold a formula
  formula_key : List String → Record Obj → Outcome Obj
  skipped : Outcome Obj
  invalid : Record Obj → Outcome Obj
  keyed : Key Obj → Record Obj → Outcome Obj

-- `sheet.data_region.start_row or sheet.header.row + 1`
abbrev pub data_start : {Obj : Type 0} → SheetRule Obj → ℕ
data_start sheet = elim sheet.start_row [ none ↦ sheet.header_row + 1 | some n ↦ n ]

-- An unusable key: the row is skipped, keyed by its position, or invalid.
abbrev pub on_empty : {Obj : Type 0} → EmptyKeyAction → ℕ → Record Obj → Outcome Obj
on_empty skip_row position r = skipped
on_empty use_row_number position r = keyed (row_number_fallback position ∷ []) r
on_empty report_invalid position r = invalid r

abbrev with_key : {Obj : Type 0} → EmptyKeyAction → ℕ → Record Obj → Key Obj × Bool → Outcome Obj
with_key action position r (key, true) = keyed key r
with_key action position r (key, false) = on_empty action position r

module _ (py : Python) (nm : Normalization py.Obj) (sheet : SheetRule py.Obj)
    (snapshot : SheetSnapshot py.Obj) (columns : Dict String ℕ) where
  open py use {Obj, int}

  abbrev without_formula : ℕ → Record Obj → List String → Outcome Obj
  without_formula row r [] =
      with_key sheet.empty_primary_key_action (row - data_start sheet + 1) r
        (record_key nm.parse_excel_value nm.parse_row_number sheet r (other (int row)))
  without_formula row r (name ∷ names) = formula_key (name ∷ names) r

  -- the tests of one round, up to the key
  unfoldable pub classify : ℕ → List (Value Obj) → Outcome Obj
  unfolding row_record is_formula_text record_key
  classify row values =
      let r = row_record columns values in
      if contains snapshot.hidden_rows row && not sheet.include_hidden_rows
      then passed_over
      else if not (any (λ c. not (is_blank c.1)) r)
      then passed_over
      else without_formula row r
          (keep (λ name. is_formula_text (get_cell name r)) sheet.primary_key)

-- The variables of the loop.
pub record Scan (Obj : Type 0) : Type 0 where
  pub index : Index (Key Obj) (Record Obj)
  pub formula_target_rows : List ℕ
  pub log : Log Obj

module _ (py : Python) ⦃e : Eq py.Obj⦄ (nm : Normalization py.Obj) (pf : Platform py.Obj)
    (sheet : SheetRule py.Obj) (columns : Dict String ℕ) where
  open py use {Obj}

  abbrev pub cell_at : String → ℕ → Option Cell
  cell_at name row = elim (get name columns) [
    | none ↦ none
    | some column ↦ some (record { column = column; row = row })
  ]

  abbrev shown_cell : String → Record Obj → Value Obj
  shown_cell name r = safe_if py (get_cell name r) (get name (rules_by_name sheet.columns []))

  -- the difference of a primary key field that holds a formula
  abbrev pub formula_key_difference : ℕ → Record Obj → String → Difference Obj
  formula_key_difference row r name = record (difference unsupported_feature sheet) {
    cell = cell_at name row;
    excel_row = some row;
    canonical_field = some name;
    excel_raw_value = shown_cell name r;
    rule_id = some (name <> ".formula_primary_key");
    render_action = mark_purple;
  }

  unfoldable pub report_formula_keys : ℕ → Record Obj → List String → Log Obj → Log Obj
  unfolding report difference
  report_formula_keys row r [] log = log
  report_formula_keys row r (name ∷ names) log =
      report_formula_keys row r names (report pf.ulid (formula_key_difference row r name) log)

  abbrev purple_or_report : RenderAction → RenderAction → RenderAction
  purple_or_report mark_purple a = a
  purple_or_report _ a = RenderAction.report_only

  abbrev pub key_field_names : List String → List String
  key_field_names [] = sheet.row_number_field ∷ []
  key_field_names (n ∷ ns) = n ∷ ns

  abbrev pub empty_key_difference : ℕ → Record Obj → String → Difference Obj
  empty_key_difference row r name = record (difference empty_primary_key sheet) {
    cell = cell_at name row;
    excel_row = some row;
    canonical_field = some name;
    excel_raw_value = shown_cell name r;
    render_action = purple_or_report sheet.actions.duplicate_key mark_purple;
  }

  unfoldable pub report_empty_key : ℕ → Record Obj → List String → Log Obj → Log Obj
  unfolding report difference
  report_empty_key row r [] log = log
  report_empty_key row r (name ∷ names) log =
      report_empty_key row r names (report pf.ulid (empty_key_difference row r name) log)

  -- one round of the loop, after the tests
  unfoldable pub apply_outcome : ℕ → Outcome Obj → Scan Obj → Scan Obj
  unfolding report_formula_keys report_empty_key note_row
  apply_outcome row passed_over sc = sc
  apply_outcome row (formula_key names r) sc = record sc {
    formula_target_rows = sc.formula_target_rows ++ row ∷ [];
    log = report_formula_keys row r names sc.log;
  }
  apply_outcome row skipped sc = record sc {
    formula_target_rows = sc.formula_target_rows ++ row ∷ [];
  }
  apply_outcome row (invalid r) sc = record sc {
    formula_target_rows = sc.formula_target_rows ++ row ∷ [];
    log = report_empty_key row r (key_field_names sheet.primary_key) sc.log;
  }
  apply_outcome row (keyed key r) sc = record sc {
    formula_target_rows = sc.formula_target_rows ++ row ∷ [];
    index = note_row key row r sc.index;
  }

  module _ (snapshot : SheetSnapshot Obj) where
    unfoldable pub scan_rows : List (ℕ × List (Value Obj)) → Scan Obj → Scan Obj
    unfolding classify apply_outcome
    scan_rows [] sc = sc
    scan_rows ((row, values) ∷ rows) sc =
        scan_rows rows (apply_outcome row (classify py nm sheet snapshot columns row values) sc)

    -- the loop over `snapshot.rows[start_row - 1:]`
    unfoldable pub scan_sheet : Log Obj → Scan Obj
    unfolding scan_rows
    scan_sheet log = scan_rows (drop (data_start sheet - 1) snapshot.rows) (record {
      index = record { records = []; duplicates = [] };
      formula_target_rows = [];
      log = log;
    })
