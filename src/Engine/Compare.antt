-- ===== src/Engine/Compare.antt =====
-- `_compare_records` of engine.py as a whole, with the in-memory join.
pub mod Linked
use excel_youhua.Prelude.{ℕ, String, List, [], Eq, length}
use excel_youhua.Dict.{Dict}
use excel_youhua.Python.{Python}
use excel_youhua.Engine.Models.{SheetRule, SheetSnapshot}
use excel_youhua.Engine.Normalization.{Normalization}
use excel_youhua.Engine.Log.{Log}
use excel_youhua.Engine.Keys.{Record, Key}
use excel_youhua.Engine.Rows.{Platform, scan_sheet}
use excel_youhua.Engine.Standard.{
  scan_standard, standard_survivors, report_duplicates, report_standard_duplicates,
}
use excel_youhua.Engine.Validation.Scan.{validate_excel_records}
use excel_youhua.Engine.Records.{Totals, compare_sides, sides}

-- What the function returns, but for the names of the two backends.
pub record Compared (Obj : Type 0) : Type 0 where
  pub totals : Totals Obj
  pub matched : ℕ
  pub validated : ℕ
  pub formula_target_rows : List ℕ

module _ (py : Python) ⦃e : Eq py.Obj⦄ (nm : Normalization py.Obj) (pf : Platform py.Obj)
    (sheet : SheetRule py.Obj) (snapshot : SheetSnapshot py.Obj) (columns : Dict String ℕ) where
  open py use {Obj}

  -- the differences of the two sides before the join: rows, duplicates, validation, standard records
  unfoldable pub before_join : List (Record Obj) → Log Obj → Log Obj × ℕ
  unfolding scan_sheet report_duplicates validate_excel_records scan_standard
      report_standard_duplicates
  before_join standard_rows log =
      let sc = scan_sheet py nm pf sheet columns snapshot log in
      let (checked, validated) =
        validate_excel_records py nm pf sheet snapshot columns
          (report_duplicates py pf sheet sc.index.duplicates sc.log) in
      let st =
        scan_standard py nm sheet standard_rows 1 (record { records = []; duplicates = [] }) in
      (report_standard_duplicates py pf sheet st.duplicates checked, validated)

  unfoldable pub compare_records : List (Record Obj) → Totals Obj → Compared Obj
  unfolding before_join scan_sheet standard_survivors compare_sides sides
  compare_records standard_rows t =
      let sc = scan_sheet py nm pf sheet columns snapshot t.log in
      let standard = standard_survivors py nm sheet standard_rows in
      let (log, validated) = before_join standard_rows t.log in
      record {
        totals =
            compare_sides py nm pf sheet snapshot columns sc.index standard
              (record t { log = log });
        matched = length (sides py nm pf sheet snapshot columns sc.index standard).matched_keys;
        validated = validated;
        formula_target_rows = sc.formula_target_rows;
      }
