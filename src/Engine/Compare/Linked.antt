-- ===== src/Engine/Compare/Linked.antt =====
-- That `_compare_records` (engine.py) keeps differences and repairs linked.
use excel_youhua.Prelude.{ℕ, ◌-◌, String, List, [], ◌∷◌, refl, Eq, drop, sym}
use mathlib.Core.List.{append-nil}
use excel_youhua.Dict.{Dict}
use excel_youhua.Python.{Python, Value}
use excel_youhua.Engine.Models.{SheetRule, SheetSnapshot}
use excel_youhua.Engine.Normalization.{Normalization}
use excel_youhua.Engine.Log.{Log, difference}
use excel_youhua.Engine.Log.Linked.{IsLinked, report-IsLinked}
use excel_youhua.Engine.Keys.{Record, Key}
use excel_youhua.Engine.Rows.{
  Platform, Outcome, passed_over, formula_key, skipped, invalid, keyed, classify, Scan, data_start,
  report_formula_keys, report_empty_key, formula_key_difference, empty_key_difference,
  apply_outcome, scan_rows, scan_sheet, key_field_names,
}
use excel_youhua.Engine.Standard.{
  scan_standard, standard_survivors, report_duplicate_rows, report_duplicates,
  report_standard_duplicates, distinct_rows, duplicate_row_difference,
  standard_duplicate_difference,
}
use excel_youhua.Engine.Validation.Formats.{validate_excel_records-IsFormatted}
use excel_youhua.Engine.Validation.Scan.{validate_excel_records}
use excel_youhua.Engine.Records.{Totals}
use excel_youhua.Engine.Records.Linked.{compare_sides-IsLinked}
use excel_youhua.Engine.Compare.{compare_records, before_join}

module _ (py : Python) ⦃e : Eq py.Obj⦄ (nm : Normalization py.Obj) (pf : Platform py.Obj)
    (sheet : SheetRule py.Obj) (columns : Dict String ℕ) where
  open py use {Obj}

  formula_keys-IsLinked :
      (row : ℕ) (r : Record Obj) (names : List String) (log : Log Obj)
      → IsLinked log
      → IsLinked (report_formula_keys py nm pf sheet columns row r names log)
  unfolding report_formula_keys difference
  formula_keys-IsLinked row r [] log h = h
  formula_keys-IsLinked row r (name ∷ names) log h = formula_keys-IsLinked row r names _ (
      report-IsLinked pf.ulid (formula_key_difference py nm pf sheet columns row r name) log refl h)

  empty_key-IsLinked :
      (row : ℕ) (r : Record Obj) (names : List String) (log : Log Obj)
      → IsLinked log
      → IsLinked (report_empty_key py nm pf sheet columns row r names log)
  unfolding report_empty_key difference
  empty_key-IsLinked row r [] log h = h
  empty_key-IsLinked row r (name ∷ names) log h =
      empty_key-IsLinked row r names _ (
        report-IsLinked pf.ulid (empty_key_difference py nm pf sheet columns row r name) log refl h)

  outcome-IsLinked :
      (row : ℕ) (o : Outcome Obj) (sc : Scan Obj)
      → IsLinked sc.log
      → IsLinked (apply_outcome py nm pf sheet columns row o sc).log
  unfolding apply_outcome
  outcome-IsLinked row passed_over sc h = h
  outcome-IsLinked row (formula_key names r) sc h = formula_keys-IsLinked row r names sc.log h
  outcome-IsLinked row skipped sc h = h
  outcome-IsLinked row (invalid r) sc h =
      empty_key-IsLinked row r (key_field_names py nm pf sheet columns sheet.primary_key) sc.log h
  outcome-IsLinked row (keyed key r) sc h = h

  module _ (snapshot : SheetSnapshot Obj) where
    scan_rows-IsLinked :
        (rows : List (ℕ × List (Value Obj))) (sc : Scan Obj)
        → IsLinked sc.log
        → IsLinked (scan_rows py nm pf sheet columns snapshot rows sc).log
    unfolding scan_rows
    scan_rows-IsLinked [] sc h = h
    scan_rows-IsLinked ((row, values) ∷ rows) sc h =
        let o = classify py nm sheet snapshot columns row values in
        scan_rows-IsLinked rows (apply_outcome py nm pf sheet columns row o sc)
          (outcome-IsLinked row o sc h)

    scan_sheet-IsLinked :
        (log : Log Obj)
        → IsLinked log
        → IsLinked (scan_sheet py nm pf sheet columns snapshot log).log
    unfolding scan_sheet
    scan_sheet-IsLinked log h =
        scan_rows-IsLinked (drop (data_start sheet - 1) snapshot.rows)
          (record {
            index = record { records = []; duplicates = [] };
            formula_target_rows = [];
            log = log;
          })
          h

  duplicate_rows-IsLinked :
      (key : Key Obj) (rows : List ℕ) (log : Log Obj)
      → IsLinked log
      → IsLinked (report_duplicate_rows py pf sheet key rows log)
  unfolding report_duplicate_rows difference
  duplicate_rows-IsLinked key [] log h = h
  duplicate_rows-IsLinked key (row ∷ rows) log h =
      duplicate_rows-IsLinked key rows _
        (report-IsLinked pf.ulid (duplicate_row_difference py pf sheet key row) log refl h)

  duplicates-IsLinked :
      (d : Dict (Key Obj) (List ℕ)) (log : Log Obj)
      → IsLinked log
      → IsLinked (report_duplicates py pf sheet d log)
  unfolding report_duplicates
  duplicates-IsLinked [] log h = h
  duplicates-IsLinked ((key, rows) ∷ d) log h =
      duplicates-IsLinked d _
        (duplicate_rows-IsLinked key (distinct_rows py pf sheet [] rows) log h)

  standard-IsLinked :
      (keys : List (Key Obj)) (log : Log Obj)
      → IsLinked log
      → IsLinked (report_standard_duplicates py pf sheet keys log)
  unfolding report_standard_duplicates difference
  standard-IsLinked [] log h = h
  standard-IsLinked (key ∷ keys) log h =
      standard-IsLinked keys _
        (report-IsLinked pf.ulid (standard_duplicate_difference py pf sheet key) log refl h)

  -- If the repairs are those of the differences that plan one, in their order, they still are after
  -- the comparison of a sheet's records.
  pub compare_records-IsLinked :
      (snapshot : SheetSnapshot Obj) (standard_rows : List (Record Obj)) (t : Totals Obj)
      → IsLinked t.log
      → IsLinked (compare_records py nm pf sheet snapshot columns standard_rows t).totals.log
  unfolding compare_records before_join
  compare_records-IsLinked snapshot standard_rows t h =
      let sc = scan_sheet py nm pf sheet columns snapshot t.log in
      let reported = report_duplicates py pf sheet sc.index.duplicates sc.log in
      let linked : IsLinked reported =
        duplicates-IsLinked sc.index.duplicates sc.log (scan_sheet-IsLinked snapshot t.log h) in
      let checked =
        validate_excel_records-IsFormatted py nm pf sheet snapshot columns reported.repairs reported
          (linked, ([], sym (append-nil reported.repairs), tt)) in
      let st =
        scan_standard py nm sheet standard_rows 1 (record { records = []; duplicates = [] }) in
      let log = (before_join py nm pf sheet snapshot columns standard_rows t.log).0 in
      compare_sides-IsLinked py nm pf sheet snapshot columns sc.index
        (standard_survivors py nm sheet standard_rows) (record t { log = log })
        (standard-IsLinked st.duplicates
          (validate_excel_records py nm pf sheet snapshot columns reported).0 checked.0)
