-- ===== src/Engine/Rows/Unique.antt =====
-- Which workbook records take part in matching (engine.py, the first loop of `_compare_records`).
use excel_youhua.Prelude.{◌∙◌, ℕ, ◌-◌, String, List, [], ◌∷◌, ◌≡◌, refl, ap, drop}
use excel_youhua.Dict.{Dict, get}
use excel_youhua.Python.{Python, Value}
use excel_youhua.Engine.Models.{SheetRule, SheetSnapshot}
use excel_youhua.Engine.Normalization.{Normalization}
use excel_youhua.Engine.Log.{Log}
use excel_youhua.Engine.Keys.{Record, Key}
use excel_youhua.Engine.KeyEquality.{key_eq}
use excel_youhua.Engine.Index.{Index, note_rows, survivors, survivors_lem, matching, sole}
use excel_youhua.Engine.Rows.{
  Eq, Platform, Outcome, passed_over, formula_key, skipped, invalid, keyed, classify, data_start,
  Scan, apply_outcome, scan_rows, scan_sheet,
}

-- The keyed record of a row, if it has one.
abbrev pub entry_of :
    {Obj : Type 0}
    → ℕ
    → Outcome Obj
    → List (Key Obj × (ℕ × Record Obj))
    → List (Key Obj × (ℕ × Record Obj))
entry_of row (keyed key r) es = (key, (row, r)) ∷ es
entry_of row _ es = es

module _ (py : Python) (nm : Normalization py.Obj) (sheet : SheetRule py.Obj)
    (snapshot : SheetSnapshot py.Obj) (columns : Dict String ℕ) where
  open py use {Obj}

  -- The keyed records of the rows, in their order.
  abbrev pub row_entries : List (ℕ × List (Value Obj)) → List (Key Obj × (ℕ × Record Obj))
  row_entries [] = []
  row_entries ((row, values) ∷ rows) =
      entry_of row (classify py nm sheet snapshot columns row values) (row_entries rows)

  abbrev pub sheet_entries : List (Key Obj × (ℕ × Record Obj))
  sheet_entries = row_entries (drop (data_start sheet - 1) snapshot.rows)

module _ (py : Python) ⦃e : Eq py.Obj⦄ (nm : Normalization py.Obj) (pf : Platform py.Obj)
    (sheet : SheetRule py.Obj) (columns : Dict String ℕ) (snapshot : SheetSnapshot py.Obj) where
  open py use {Obj}

  index-apply_outcome :
      (row : ℕ) (o : Outcome Obj) (sc : Scan Obj) (es : List (Key Obj × (ℕ × Record Obj)))
      → note_rows es (apply_outcome py nm pf sheet columns row o sc).index
        ≡ note_rows (entry_of row o es) sc.index
  unfolding apply_outcome note_rows
  index-apply_outcome row passed_over sc es = refl
  index-apply_outcome row (formula_key names r) sc es = refl
  index-apply_outcome row skipped sc es = refl
  index-apply_outcome row (invalid r) sc es = refl
  index-apply_outcome row (keyed key r) sc es = refl

  index-scan_rows :
      (rows : List (ℕ × List (Value Obj))) (sc : Scan Obj)
      → (scan_rows py nm pf sheet columns snapshot rows sc).index
        ≡ note_rows (row_entries py nm sheet snapshot columns rows) sc.index
  unfolding scan_rows note_rows
  index-scan_rows [] sc = refl
  index-scan_rows ((row, values) ∷ rows) sc =
      let o = classify py nm sheet snapshot columns row values in
      index-scan_rows rows (apply_outcome py nm pf sheet columns row o sc)
      ∙ index-apply_outcome row o sc (row_entries py nm sheet snapshot columns rows)

  -- A key takes part in matching exactly if one row of the data region has it, and then with that
  -- row's number and record: a key that two rows have is left out altogether.
  pub scan_sheet_unique :
      (log : Log Obj) (key : Key Obj)
      → get key (survivors (scan_sheet py nm pf sheet columns snapshot log).index)
        ≡ sole (matching key (sheet_entries py nm sheet snapshot columns))
  unfolding scan_sheet
  scan_sheet_unique log key =
      ap (λ (ix : Index (Key Obj) (Record Obj)). get key (survivors ix))
        (index-scan_rows (drop (data_start sheet - 1) snapshot.rows) _)
      ∙ survivors_lem key (sheet_entries py nm sheet snapshot columns)
