-- ===== src/Engine/Validation/Scan.antt =====
-- `_validate_excel_records` (engine.py): the loop over the rows, and the unique fields.
use Prim.Native.String.{◌++◌ as ◌<>◌}
use excel_youhua.Engine.Validation.Fields.{FieldCheck, check_field}
use excel_youhua.Prelude.{
  ℕ, ◌+◌, ◌-◌, String, Bool, true, false, not, ◌&&◌, List, [], ◌∷◌, ◌++◌, Option, none, some, Eq,
  string_eq, nat_eq, contains, drop, if◌then◌else◌,
}
use excel_youhua.Dict.{Dict, get, put, get_or}
use excel_youhua.Python.{Python, Value, other}
use excel_youhua.Engine.Models.{
  ColumnRule, SheetRule, SheetSnapshot, EmptyKeyAction, skip_row, use_row_number, report_invalid,
  ParsedValue, validation_error,
}
use excel_youhua.Engine.Normalization.{Normalization}
use excel_youhua.Engine.Log.{Log, difference, Entry, note, write}
use excel_youhua.Engine.Keys.{
  Record, Key, row_number_fallback, get_cell, business_key, record_key, rules_by_name,
}
use excel_youhua.Engine.KeyEquality.{value_eq}
use excel_youhua.Engine.Rows.{Platform, row_record, data_start}
use excel_youhua.Engine.Validation.{validate_cross_fields}

-- `unique_values`: the rows and keys of each value of each unique field
abbrev pub UniqueValues : Type 0 → Type 0
UniqueValues Obj = Dict String (Dict (Value Obj) (List (ℕ × Key Obj)))

-- The variables of the loop over the fields of a row.
pub record RowCheck (Obj : Type 0) : Type 0 where
  pub log : Log Obj
  pub parsed_record : Dict String (ParsedValue Obj)
  pub unique_values : UniqueValues Obj

-- The variables of the loop over the rows.
pub record Validated (Obj : Type 0) : Type 0 where
  pub log : Log Obj
  pub unique_values : UniqueValues Obj
  pub validated_records : ℕ

abbrev pub put_some {ℓ} : {A : Type ℓ} → String → Option A → Dict String A → Dict String A
put_some name none d = d
put_some name (some a) d = put name a d

-- The key that a row is reported under: none where the row is passed over.
abbrev pub row_key : {Obj : Type 0} → EmptyKeyAction → ℕ → Key Obj × Bool → Option (Key Obj)
row_key action position (key, true) = some key
row_key skip_row position (key, false) = none
row_key use_row_number position (key, false) = some (row_number_fallback position ∷ [])
row_key report_invalid position (key, false) = some []

module _ (py : Python) ⦃e : Eq py.Obj⦄ (nm : Normalization py.Obj) (pf : Platform py.Obj)
    (sheet : SheetRule py.Obj) (snapshot : SheetSnapshot py.Obj) (columns : Dict String ℕ) where
  open py use {Obj, int}

  abbrev pub add_unique :
      Bool
      → ℕ
      → Key Obj
      → ColumnRule Obj
      → Option (ParsedValue Obj)
      → UniqueValues Obj
      → UniqueValues Obj
  add_unique true row key c (some p) u =
      let values = get_or c.name [] u in
      let v = nm.uniqueness_key p c in
      put c.name (put v (get_or v [] values ++ (row, key) ∷ []) values) u
  add_unique _ row key c _ u = u

  abbrev pub apply_check :
      ℕ → Key Obj → ColumnRule Obj → FieldCheck Obj → RowCheck Obj → RowCheck Obj
  apply_check row key c f rc = record {
    log = write pf.ulid f.entries rc.log;
    parsed_record = put_some c.name f.parsed rc.parsed_record;
    unique_values = add_unique f.is_unique row key c f.parsed rc.unique_values;
  }

  -- one column of a row; the fields of an unusable key are passed over
  unfoldable pub check_column :
      ℕ
      → Key Obj
      → Bool
      → Record Obj
      → String
      → ℕ
      → Option (ColumnRule Obj)
      → RowCheck Obj
      → RowCheck Obj
  unfolding check_field write
  check_column row key usable r name column none rc = rc
  check_column row key usable r name column (some c) rc =
      if not usable && contains sheet.primary_key name
      then rc
      else apply_check row key c
          (check_field py nm sheet snapshot row (record { column = column; row = row }) key c
            (get_cell name r))
          rc

  -- the loop over the columns of a row
  unfoldable pub check_fields :
      ℕ → Key Obj → Bool → Record Obj → Dict String ℕ → RowCheck Obj → RowCheck Obj
  unfolding check_column rules_by_name
  check_fields row key usable r [] rc = rc
  check_fields row key usable r ((name, column) ∷ cols) rc =
      check_fields row key usable r cols
        (check_column row key usable r name column (get name (rules_by_name sheet.columns [])) rc)

  abbrev pub check_keyed : ℕ → Record Obj → Bool → Option (Key Obj) → Validated Obj → Validated Obj
  check_keyed row r usable none v = v
  check_keyed row r usable (some key) v =
      let rc =
        check_fields row key usable r columns
          (record { log = v.log; parsed_record = []; unique_values = v.unique_values }) in
      record {
        log =
            write pf.ulid
              (validate_cross_fields py nm sheet columns row key rc.parsed_record
                sheet.cross_field_rules)
              rc.log;
        unique_values = rc.unique_values;
        validated_records = v.validated_records + 1;
      }

  abbrev pub check_record : ℕ → Record Obj → Validated Obj → Validated Obj
  check_record row [] v = v
  check_record row (cell ∷ cells) v =
      let (key, usable) =
        record_key nm.parse_excel_value nm.parse_row_number sheet (cell ∷ cells)
          (other (int row)) in
      check_keyed row (cell ∷ cells) usable
        (row_key sheet.empty_primary_key_action (row - data_start sheet + 1) (key, usable)) v

  unfoldable pub check_rows : List (ℕ × List (Value Obj)) → Validated Obj → Validated Obj
  unfolding check_fields validate_cross_fields write row_record record_key
  check_rows [] v = v
  check_rows ((row, values) ∷ rows) v = check_rows rows (
      if contains snapshot.hidden_rows row && not sheet.include_hidden_rows
      then v
      else check_record row (row_record columns values) v)

  -- the differences of the rows that share a value
  unfoldable pub occurrence_notes : String → List (ℕ × Key Obj) → List (Entry Obj)
  unfolding difference business_key
  occurrence_notes name [] = []
  occurrence_notes name ((row, key) ∷ os) =
      note (record (difference validation_error sheet) {
        cell = some (record { column = get_or name 0 columns; row = row });
        excel_row = some row;
        canonical_field = some name;
        business_key = some (business_key py key sheet);
        rule_id = some (name <> ".unique");
        render_action = sheet.actions.invalid_value;
      })
      ∷ occurrence_notes name os

  abbrev pub shared_notes : String → List (ℕ × Key Obj) → List (Entry Obj)
  shared_notes name [] = []
  shared_notes name (o ∷ []) = []
  shared_notes name (o ∷ p ∷ os) = occurrence_notes name (o ∷ p ∷ os)

  unfoldable pub value_notes : String → Dict (Value Obj) (List (ℕ × Key Obj)) → List (Entry Obj)
  unfolding occurrence_notes
  value_notes name [] = []
  value_notes name ((v, os) ∷ d) = shared_notes name os ++ value_notes name d

  unfoldable pub unique_notes : UniqueValues Obj → List (Entry Obj)
  unfolding value_notes
  unique_notes [] = []
  unique_notes ((name, values) ∷ u) = value_notes name values ++ unique_notes u

  -- `_validate_excel_records`: the log, and how many records were validated
  unfoldable pub validate_excel_records : Log Obj → Log Obj × ℕ
  unfolding check_rows unique_notes write
  validate_excel_records log =
      let v =
        check_rows (drop (data_start sheet - 1) snapshot.rows)
          (record { log = log; unique_values = []; validated_records = 0 }) in
      (write pf.ulid (unique_notes v.unique_values) v.log, v.validated_records)
