-- ===== src/Engine/Records.antt =====
-- The second half of `_compare_records` (engine.py): the join of the keys, and the loops over the
-- extra, the missing and the matched records.
pub mod Linked
use excel_youhua.Prelude.{
  ℕ, ◌+◌, String, Bool, true, false, not, ◌&&◌, List, [], ◌∷◌, ◌++◌, Option, none, some, Eq,
  string_eq, length, if◌then◌else◌,
}
use excel_youhua.Dict.{Dict, get, keys}
use excel_youhua.Python.{Python, Value}
use excel_youhua.Engine.Models.{
  ColumnRule, SheetRule, SheetSnapshot, RenderAction, mark_red, mark_row_red, extra_record,
  Difference, ReportSummary, Cell, ParsedValue,
}
use excel_youhua.Engine.Normalization.{Normalization}
use excel_youhua.Engine.Log.{Log, difference, Entry, note, fix, write}
use excel_youhua.Engine.Keys.{
  Record, Key, get_cell, is_null, safe_value, business_key, rules_by_name,
}
use excel_youhua.Engine.KeyEquality.{key_eq}
use excel_youhua.Engine.Index.{Index, survivors}
use excel_youhua.Engine.Rows.{Platform}
use excel_youhua.Engine.Join.{KeyJoin, join_keys}
use excel_youhua.Engine.Cells.{fill_default}
use excel_youhua.Engine.Fields.{compare_record}
use excel_youhua.Engine.Missing.{Appending, missing_loop}

abbrev row_red : RenderAction → RenderAction
row_red mark_red = mark_row_red
row_red _ = RenderAction.report_only

-- `records[key]` for the keys of a list, with the keys
abbrev pub records_at {ℓ κ} :
    {K : Type ℓ} {R : Type κ} ⦃e : Eq K⦄ → Dict K R → List K → List (K × R)
records_at d [] = []
records_at d (k ∷ ks) = elim (get k d) [
  | none ↦ records_at d ks
  | some r ↦ (k, r) ∷ records_at d ks
]

-- What the loops change: the lists, and the counters of the summary.
pub record Totals (Obj : Type 0) : Type 0 where
  pub log : Log Obj
  pub summary : ReportSummary

module _ (py : Python) ⦃e : Eq py.Obj⦄ (nm : Normalization py.Obj) (pf : Platform py.Obj)
    (sheet : SheetRule py.Obj) (snapshot : SheetSnapshot py.Obj) (columns : Dict String ℕ) where
  open py use {Obj}

  abbrev default_of : ℕ → Key Obj → Record Obj → Cell → ColumnRule Obj → List (Entry Obj)
  default_of row key r cell c =
      let p = nm.parse_excel_value (get_cell c.name r) c in
      if p.valid && (is_null p.normalized && c.fill_static_default)
      then fill_default py nm sheet row cell key c (safe_value py p.raw c)
      else []

  -- the empty cells of an extra record that have a static default
  unfoldable pub extra_defaults : ℕ → Key Obj → Record Obj → Dict String ℕ → List (Entry Obj)
  unfolding fill_default safe_value rules_by_name
  extra_defaults row key r [] = []
  extra_defaults row key r ((name, column) ∷ cols) =
      elim (get name (rules_by_name sheet.columns [])) [
        | none ↦ extra_defaults row key r cols
        | some c ↦
            default_of row key r (record { column = column; row = row }) c
            ++ extra_defaults row key r cols
      ]

  -- a record that only the workbook has
  unfoldable pub extra_entries : Key Obj → ℕ → Record Obj → List (Entry Obj)
  unfolding extra_defaults difference business_key
  extra_entries key row r =
      note (record (difference extra_record sheet) {
        excel_row = some row;
        business_key = some (business_key py key sheet);
        render_action = row_red sheet.actions.extra_record;
      })
      ∷ extra_defaults row key r columns

  unfoldable pub extra_loop : List (Key Obj × (ℕ × Record Obj)) → Log Obj → Log Obj
  unfolding extra_entries write
  extra_loop [] log = log
  extra_loop ((key, (row, r)) ∷ rs) log =
      extra_loop rs (write pf.ulid (extra_entries key row r) log)

  -- the loop over the records that both sides have
  unfoldable pub matched_loop :
      Dict (Key Obj) (Record Obj) → List (Key Obj × (ℕ × Record Obj)) → Log Obj → Log Obj
  unfolding compare_record write rules_by_name
  matched_loop standard [] log = log
  matched_loop standard ((key, (row, r)) ∷ rs) log = elim (get key standard) [
    | none ↦ matched_loop standard rs log
    | some s ↦ matched_loop standard rs (
        write pf.ulid
          (compare_record py nm sheet snapshot columns row key r s (rules_by_name sheet.columns []))
          log)
  ]

  module _ (ix : Index (Key Obj) (Record Obj)) (standard : Dict (Key Obj) (Record Obj)) where
    -- the keys of the records that the two indexes leave
    unfoldable pub sides : KeyJoin (Key Obj)
    unfolding join_keys survivors
    sides = join_keys pf.key_str (keys (survivors ix)) (keys standard)

    unfoldable pub after_extra : Log Obj → Log Obj
    unfolding sides survivors extra_loop
    after_extra log = extra_loop (records_at (survivors ix) sides.excel_only) log

    unfoldable pub after_missing : Log Obj → Appending Obj
    unfolding sides missing_loop
    after_missing log =
        missing_loop py nm sheet ix.duplicates pf.ulid (records_at standard sides.standard_only)
          (record { append_row = snapshot.max_row + 1; log = log })

    -- from the join on
    unfoldable pub compare_sides : Totals Obj → Totals Obj
    unfolding sides survivors after_extra after_missing matched_loop
    compare_sides t = record {
      log =
          matched_loop standard (records_at (survivors ix) sides.matched_keys)
            (after_missing (after_extra t.log)).log;
      summary = record {
        matched_records = t.summary.matched_records + length sides.matched_keys;
        extra_records = t.summary.extra_records + length sides.excel_only;
        missing_records = t.summary.missing_records + length sides.standard_only;
      };
    }
