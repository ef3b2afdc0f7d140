-- ===== src/Engine/Standard.antt =====
-- `_compare_records` (engine.py): the report of duplicate keys of the workbook, and the loop over the
-- standard records.
pub mod Unique
use excel_youhua.Prelude.{
  ℕ, ◌+◌, String, Bool, true, false, List, [], ◌∷◌, ◌++◌, Option, none, some, Eq, nat_eq, add,
  contains, leb, if◌then◌else◌,
}
use excel_youhua.Prelude.Sorting.{sorted}
use excel_youhua.Dict.{Dict, get, put, has}
use excel_youhua.Python.{Python, Value, other}
use excel_youhua.Engine.Models.{
  Difference, SheetRule, RenderAction, mark_purple, mark_row_purple, duplicate_primary_key,
}
use excel_youhua.Engine.Normalization.{Normalization}
use excel_youhua.Engine.Log.{Log, difference, report}
use excel_youhua.Engine.Keys.{
  Record, Key, KeyPart, row_number_fallback, get_cell, record_key, by_mode, business_key,
}
use excel_youhua.Engine.KeyEquality.{key_eq}
use excel_youhua.Engine.Index.{drop_keys}
use excel_youhua.Engine.Models.{EmptyKeyAction, skip_row, use_row_number, report_invalid}
use excel_youhua.Engine.Rows.{Platform}

-- `standard_records` and `standard_duplicates`
pub record StandardIndex (Obj : Type 0) : Type 0 where
  pub records : Dict (Key Obj) (Record Obj)
  pub duplicates : List (Key Obj)

-- What the loop does with a record: skip it, drop it because its key is not usable, or keep it.
pub data StandardOutcome (Obj : Type 0) : Type 0 where
  skipped : StandardOutcome Obj
  unusable : Key Obj → StandardOutcome Obj
  usable : Key Obj → StandardOutcome Obj

abbrev pub standard_outcome :
    {Obj : Type 0} → EmptyKeyAction → ℕ → Key Obj × Bool → StandardOutcome Obj
standard_outcome action ordinal (key, true) = usable key
standard_outcome skip_row ordinal (key, false) = skipped
standard_outcome use_row_number ordinal (key, false) = usable (row_number_fallback ordinal ∷ [])
standard_outcome report_invalid ordinal (key, false) = unusable key

-- `if key: standard_duplicates.add(key)`
abbrev pub add_key : {Obj : Type 0} ⦃e : Eq Obj⦄ → Key Obj → List (Key Obj) → List (Key Obj)
add_key [] ks = ks
add_key (p ∷ ps) ks = add (p ∷ ps) ks

module _ (py : Python) ⦃e : Eq py.Obj⦄ (nm : Normalization py.Obj) (sheet : SheetRule py.Obj) where
  open py use {Obj, int}

  unfoldable pub classify_standard : ℕ → Record Obj → StandardOutcome Obj
  unfolding record_key
  classify_standard ordinal r = standard_outcome sheet.empty_primary_key_action ordinal (
      record_key nm.parse_value nm.parse_row_number sheet r
        (by_mode sheet.primary_key_mode (get_cell sheet.row_number_field r) (other (int ordinal))))

  unfoldable pub apply_standard :
      Record Obj → StandardOutcome Obj → StandardIndex Obj → StandardIndex Obj
  apply_standard r skipped ix = ix
  apply_standard r (unusable key) ix = record ix { duplicates = add_key key ix.duplicates }
  apply_standard r (usable key) ix =
      if has key ix.records
      then record ix { duplicates = add_key key ix.duplicates }
      else record ix { records = put key r ix.records }

  -- the loop, from the ordinal of the first record
  unfoldable pub scan_standard : List (Record Obj) → ℕ → StandardIndex Obj → StandardIndex Obj
  unfolding classify_standard apply_standard
  scan_standard [] ordinal ix = ix
  scan_standard (r ∷ rs) ordinal ix =
      scan_standard rs (ordinal + 1) (apply_standard r (classify_standard ordinal r) ix)

  -- what is left for matching
  unfoldable pub standard_survivors : List (Record Obj) → Dict (Key Obj) (Record Obj)
  unfolding scan_standard drop_keys
  standard_survivors rs =
      let ix = scan_standard rs 1 (record { records = []; duplicates = [] }) in
      drop_keys ix.duplicates ix.records

module _ (py : Python) (pf : Platform py.Obj) (sheet : SheetRule py.Obj) where
  open py use {Obj}

  abbrev row_purple : RenderAction → RenderAction
  row_purple mark_purple = mark_row_purple
  row_purple _ = RenderAction.report_only

  -- the difference of a row of a duplicate key
  abbrev pub duplicate_row_difference : Key Obj → ℕ → Difference Obj
  duplicate_row_difference key row = record (difference duplicate_primary_key sheet) {
    excel_row = some row;
    business_key = some (business_key py key sheet);
    render_action = row_purple sheet.actions.duplicate_key;
  }

  unfoldable pub report_duplicate_rows : Key Obj → List ℕ → Log Obj → Log Obj
  unfolding report difference business_key
  report_duplicate_rows key [] log = log
  report_duplicate_rows key (row ∷ rows) log =
      report_duplicate_rows key rows (report pf.ulid (duplicate_row_difference key row) log)

  -- `sorted(set(rows))`
  abbrev pub distinct_rows : List ℕ → List ℕ → List ℕ
  distinct_rows seen [] = sorted leb seen
  distinct_rows seen (n ∷ ns) = distinct_rows (add n seen) ns

  -- the loop over `excel_duplicates`
  unfoldable pub report_duplicates : Dict (Key Obj) (List ℕ) → Log Obj → Log Obj
  unfolding report_duplicate_rows sorted
  report_duplicates [] log = log
  report_duplicates ((key, rows) ∷ d) log =
      report_duplicates d (report_duplicate_rows key (distinct_rows [] rows) log)

  -- the difference of a duplicate key of the standard
  abbrev pub standard_duplicate_difference : Key Obj → Difference Obj
  standard_duplicate_difference key = record (difference duplicate_primary_key sheet) {
    business_key = some (business_key py key sheet);
  }

  -- the loop over `standard_duplicates`
  unfoldable pub report_standard_duplicates : List (Key Obj) → Log Obj → Log Obj
  unfolding report difference business_key
  report_standard_duplicates [] log = log
  report_standard_duplicates (key ∷ keys) log =
      report_standard_duplicates keys (report pf.ulid (standard_duplicate_difference key) log)
