-- ===== src/Engine/Validation/Formats.antt =====
-- The repairs that the validation of a sheet plans (engine.py, `_validate_excel_records`).
use excel_youhua.Engine.Validation.Review.{
  IsReview, IsFormatted, write-IsFormatted, All-append, field-IsReview,
}
use excel_youhua.Prelude.{
  sym, subst, ℕ, ◌+◌, ◌-◌, String, Bool, not, ◌&&◌, List, [], ◌∷◌, Option, none, some, ◌≡◌, refl,
  Eq, string_eq, nat_eq, All, contains, drop, arith, Bool-cases, Option-cases, inl, inr,
}
use excel_youhua.Dict.{Dict, get}
use excel_youhua.Python.{Python, Value, other}
use excel_youhua.Engine.Models.{
  ColumnRule, SheetRule, SheetSnapshot, Cell, ParsedValue, CrossFieldRule, RepairOperation,
}
use excel_youhua.Engine.Normalization.{Normalization}
use excel_youhua.Engine.Log.{Log, difference}
use excel_youhua.Engine.Keys.{Record, Key, get_cell, record_key, rules_by_name}
use excel_youhua.Engine.KeyEquality.{value_eq}
use excel_youhua.Engine.Rows.{Platform, row_record, data_start}
use excel_youhua.Engine.Validation.{
  cross_target, validate_cross_fields, run_validator, parse_expected,
}
use excel_youhua.Engine.Validation.Scan.{
  check_column, RowCheck, Validated, UniqueValues, apply_check, check_fields, check_keyed,
  check_record, row_key, check_rows, occurrence_notes, shared_notes, value_notes, unique_notes,
  validate_excel_records,
}
use excel_youhua.Engine.Validation.Fields.{check_field}

module _ (py : Python) ⦃e : Eq py.Obj⦄ (nm : Normalization py.Obj) (pf : Platform py.Obj)
    (sheet : SheetRule py.Obj) (snapshot : SheetSnapshot py.Obj) (columns : Dict String ℕ)
    (old : List (RepairOperation py.Obj)) where
  open py use {Obj, int}

  target-IsReview :
      (row : ℕ) (key : Key Obj) (rule : CrossFieldRule Obj) (o : Option String)
      → All IsReview (cross_target py nm sheet columns row key rule o)
  unfolding difference
  target-IsReview row key rule none = tt
  target-IsReview row key rule (some target) = ground (arith, Option-cases (get target columns))

  cross-IsReview :
      (row : ℕ) (key : Key Obj) (parsed : Dict String (ParsedValue Obj))
      (rules : List (CrossFieldRule Obj))
      → All IsReview (validate_cross_fields py nm sheet columns row key parsed rules)
  unfolding validate_cross_fields
  cross-IsReview row key parsed [] = tt
  cross-IsReview row key parsed (rule ∷ rules) =
      let o = run_validator py nm (parse_expected py nm sheet rule.validator) parsed in
      All-append (cross_target py nm sheet columns row key rule o)
        (validate_cross_fields py nm sheet columns row key parsed rules)
        (target-IsReview row key rule o) (cross-IsReview row key parsed rules)

  column-IsFormatted :
      (row : ℕ) (key : Key Obj) (usable : Bool) (r : Record Obj) (name : String) (column : ℕ)
      (o : Option (ColumnRule Obj)) (rc : RowCheck Obj)
      → IsFormatted old rc.log
      → IsFormatted old
          (check_column py nm pf sheet snapshot columns row key usable r name column o rc).log
  unfolding check_column
  column-IsFormatted row key usable r name column none rc h = h
  column-IsFormatted row key usable r name column (some c) rc h =
      let cell : Cell = record { column = column; row = row } in
      let f = check_field py nm sheet snapshot row cell key c (get_cell name r) in
      let checked =
        write-IsFormatted pf.ulid old f.entries rc.log
          (field-IsReview py nm sheet snapshot row cell key c (get_cell name r)) h in
      elim (Bool-cases (not usable && contains sheet.primary_key name)) [
        | inl passed ↦
            let same : check_column py nm pf sheet snapshot columns row key usable r name column
                  (some c) rc
                ≡ rc =
              ground (arith, passed) in
            subst (λ x. IsFormatted old x.log) (sym same) h
        | inr taken ↦
            let to : check_column py nm pf sheet snapshot columns row key usable r name column
                  (some c) rc
                ≡ apply_check py nm pf sheet snapshot columns row key c f rc =
              ground (arith, taken) in
            subst (λ x. IsFormatted old x.log) (sym to) checked
      ]

  fields-IsFormatted :
      (row : ℕ) (key : Key Obj) (usable : Bool) (r : Record Obj) (cols : Dict String ℕ)
      (rc : RowCheck Obj)
      → IsFormatted old rc.log
      → IsFormatted old (check_fields py nm pf sheet snapshot columns row key usable r cols rc).log
  unfolding check_fields
  fields-IsFormatted row key usable r [] rc h = h
  fields-IsFormatted row key usable r ((name, column) ∷ cols) rc h =
      let o = get name (rules_by_name sheet.columns []) in
      fields-IsFormatted row key usable r cols
        (check_column py nm pf sheet snapshot columns row key usable r name column o rc)
        (column-IsFormatted row key usable r name column o rc h)

  keyed-IsFormatted :
      (row : ℕ) (r : Record Obj) (usable : Bool) (o : Option (Key Obj)) (v : Validated Obj)
      → IsFormatted old v.log
      → IsFormatted old (check_keyed py nm pf sheet snapshot columns row r usable o v).log
  keyed-IsFormatted row r usable none v h = h
  keyed-IsFormatted row r usable (some key) v h =
      let start : RowCheck Obj = record {
        log = v.log;
        parsed_record = [];
        unique_values = v.unique_values;
      } in
      let rc = check_fields py nm pf sheet snapshot columns row key usable r columns start in
      write-IsFormatted pf.ulid old
        (validate_cross_fields py nm sheet columns row key rc.parsed_record sheet.cross_field_rules)
        rc.log (cross-IsReview row key rc.parsed_record sheet.cross_field_rules)
        (fields-IsFormatted row key usable r columns start h)

  record-IsFormatted :
      (row : ℕ) (r : Record Obj) (v : Validated Obj)
      → IsFormatted old v.log
      → IsFormatted old (check_record py nm pf sheet snapshot columns row r v).log
  record-IsFormatted row [] v h = h
  record-IsFormatted row (cell ∷ cells) v h =
      let (key, usable) =
        record_key nm.parse_excel_value nm.parse_row_number sheet (cell ∷ cells)
          (other (int row)) in
      keyed-IsFormatted row (cell ∷ cells) usable
        (row_key sheet.empty_primary_key_action (row - data_start sheet + 1) (key, usable)) v h

  rows-IsFormatted :
      (rows : List (ℕ × List (Value Obj))) (v : Validated Obj)
      → IsFormatted old v.log
      → IsFormatted old (check_rows py nm pf sheet snapshot columns rows v).log
  unfolding check_rows
  rows-IsFormatted [] v h = h
  rows-IsFormatted ((row, values) ∷ rows) v h = rows-IsFormatted rows _ (
      ground (
        arith,
        h,
        record-IsFormatted row (row_record columns values) v h,
        Bool-cases (contains snapshot.hidden_rows row && not sheet.include_hidden_rows),
      ))

  occurrence-IsReview :
      (name : String) (os : List (ℕ × Key Obj))
      → All IsReview (occurrence_notes py nm pf sheet snapshot columns name os)
  unfolding occurrence_notes difference
  occurrence-IsReview name [] = tt
  occurrence-IsReview name ((row, key) ∷ os) = (refl, occurrence-IsReview name os)

  shared-IsReview :
      (name : String) (os : List (ℕ × Key Obj))
      → All IsReview (shared_notes py nm pf sheet snapshot columns name os)
  shared-IsReview name [] = tt
  shared-IsReview name (o ∷ []) = tt
  shared-IsReview name (o ∷ p ∷ os) = occurrence-IsReview name (o ∷ p ∷ os)

  values-IsReview :
      (name : String) (d : Dict (Value Obj) (List (ℕ × Key Obj)))
      → All IsReview (value_notes py nm pf sheet snapshot columns name d)
  unfolding value_notes
  values-IsReview name [] = tt
  values-IsReview name ((v, os) ∷ d) =
      All-append (shared_notes py nm pf sheet snapshot columns name os)
        (value_notes py nm pf sheet snapshot columns name d) (shared-IsReview name os)
        (values-IsReview name d)

  unique-IsReview :
      (u : UniqueValues Obj) → All IsReview (unique_notes py nm pf sheet snapshot columns u)
  unfolding unique_notes
  unique-IsReview [] = tt
  unique-IsReview ((name, values) ∷ u) =
      All-append (value_notes py nm pf sheet snapshot columns name values)
        (unique_notes py nm pf sheet snapshot columns u) (values-IsReview name values)
        (unique-IsReview u)

  -- The validation of a sheet adds only repairs of display formats, and the repairs are those of
  -- the differences that plan one, in their order, if they were before.
  pub validate_excel_records-IsFormatted :
      (log : Log Obj)
      → IsFormatted old log
      → IsFormatted old (validate_excel_records py nm pf sheet snapshot columns log).0
  unfolding validate_excel_records
  validate_excel_records-IsFormatted log h =
      let start : Validated Obj = record { log = log; unique_values = []; validated_records = 0 } in
      let rows = drop (data_start sheet - 1) snapshot.rows in
      let v = check_rows py nm pf sheet snapshot columns rows start in
      write-IsFormatted pf.ulid old (unique_notes py nm pf sheet snapshot columns v.unique_values)
        v.log (unique-IsReview v.unique_values) (rows-IsFormatted rows start h)
