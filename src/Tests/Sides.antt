-- ===== src/Tests/Sides.antt =====
-- The comparison of both sides on a small sheet: one record on each side only, one on both.
use excel_youhua.Engine.Normalization.{Normalization}
use excel_youhua.Prelude.{
  false, true, ℕ, ◌+◌, String, List, [], ◌∷◌, ◌++◌, ◌≡◌, refl, All, nat_eq, string_eq,
}
use excel_youhua.Dict.{Dict, get, put}
use excel_youhua.Python.{Value, null, text}
use excel_youhua.Product.Models.{FieldType}
use excel_youhua.Engine.Models.{SheetRule, SheetSnapshot, append_and_mark_green, Cell}
use excel_youhua.Engine.Log.{fix, note, Entry, empty_log}
use excel_youhua.Engine.Log.Linked.{IsLinked}
use excel_youhua.Engine.Keys.{Record, Key, typed, get_cell}
use excel_youhua.Engine.KeyEquality.{key_eq}
use excel_youhua.Engine.Fields.{compare_cell}
use excel_youhua.Engine.Fields.Allowed.{IsAllowed, compare_cell-IsAllowed}
use excel_youhua.Engine.Missing.{Appending, missing_loop}
use excel_youhua.Engine.Missing.Rows.{appended_rows, rows_from, missing_rows}
use excel_youhua.Engine.Missing.Safe.{IsSafe, missing-IsSafe}
use excel_youhua.Engine.Records.{Totals}
use excel_youhua.Engine.Validation.Scan.{validate_excel_records}
use excel_youhua.Engine.Validation.Formats.{validate_excel_records-IsFormatted}
use excel_youhua.Engine.Validation.Review.{IsFormatted}
use excel_youhua.Engine.Compare.{compare_records}
use excel_youhua.Engine.Compare.Linked.{compare_records-IsLinked}
use excel_youhua.Tests.Samples.{plain, as_is, platform, sheet, actions, snapshot, column}

abbrev appending_sheet : SheetRule ℕ
appending_sheet = record sheet {
  actions = record actions { missing_record = append_and_mark_green };
}

abbrev key : String → Key ℕ
key s = typed FieldType.string (text s) ∷ []

abbrev row : String → String → Record ℕ
row id size = ("id", text id) ∷ ("size", text size) ∷ []

abbrev rows : SheetSnapshot ℕ
rows =
    snapshot (text "id" ∷ text "size" ∷ [])
      ((text "a" ∷ null ∷ []) ∷ (text "b" ∷ text "4" ∷ []) ∷ [])

abbrev columns : Dict String ℕ
columns = ("id", 1) ∷ ("size", 2) ∷ []

abbrev missing : List (Key ℕ × Record ℕ)
missing = (key "c", row "c" "5") ∷ (key "d", row "d" "6") ∷ []

abbrev start : Appending ℕ
start = record { append_row = 4; log = empty_log }

abbrev totals : Totals ℕ
totals = record {
  log = empty_log;
  summary = record { matched_records = 0; extra_records = 0; missing_records = 0 };
}

missing_rows_example :
    let b = missing_loop plain as_is appending_sheet [] platform.ulid missing start in
    (n : ℕ) × (b.append_row ≡ start.append_row + n)
    × (appended_rows b.log.repairs
        ≡ appended_rows start.log.repairs ++ rows_from start.append_row n)
missing_rows_example = missing_rows plain as_is appending_sheet [] platform.ulid missing start

-- Both records are appended.
two_appended :
    appended_rows
      (missing_loop plain as_is appending_sheet [] platform.ulid missing start).log.repairs
    ≡ 4 ∷ 5 ∷ []
unfolding missing_loop get put
two_appended = refl

missing-IsSafe_example :
    All
      (IsSafe plain as_is appending_sheet [] platform.ulid missing)
      (missing_loop plain as_is appending_sheet [] platform.ulid missing start).log.repairs
missing-IsSafe_example =
    missing-IsSafe plain as_is appending_sheet [] platform.ulid missing start refl

abbrev cell : Cell
cell = record { column = 2; row = 2 }

abbrev filling_sheet : SheetRule ℕ
filling_sheet = record sheet { actions = record actions { fill_empty_from_standard = true } }

abbrev differing : Normalization ℕ
differing = record as_is { values_equal = λ a b c. false }

abbrev empty_size : Record ℕ
empty_size = ("id", text "a") ∷ ("size", null) ∷ []

abbrev size_entries : List (Entry ℕ)
unfolding compare_cell
size_entries =
    compare_cell plain differing filling_sheet 2 cell (key "a") (column "size" "Size" []) rows
      empty_size (row "a" "7")

compare_cell-IsAllowed_example :
    All
      (IsAllowed plain differing filling_sheet 2 cell
        (key "a")
        (column "size" "Size" [])
        (get_cell "size" empty_size)
        (differing.parse_excel_value (get_cell "size" empty_size) (column "size" "Size" []))
        (differing.parse_value (get_cell "size" (row "a" "7")) (column "size" "Size" [])))
      (compare_cell plain differing filling_sheet 2 cell
        (key "a")
        (column "size" "Size" [])
        rows
        empty_size
        (row "a" "7"))
compare_cell-IsAllowed_example =
    compare_cell-IsAllowed plain differing filling_sheet 2 cell (key "a") (column "size" "Size" [])
      rows empty_size (row "a" "7")

abbrev written_values : List (Entry ℕ) → List (Value ℕ)
written_values [] = []
written_values (note d ∷ entries) = written_values entries
written_values (fix d op ∷ entries) = op.value ∷ written_values entries

-- The empty cell is filled from the standard.
empty_cell_filled : written_values size_entries ≡ text "7" ∷ []
unfolding compare_cell size_entries get
empty_cell_filled = refl

compare_records-IsLinked_example :
    IsLinked
      (compare_records plain as_is platform appending_sheet rows columns
        (row "a" "7" ∷ row "c" "5" ∷ [])
        totals).totals.log
compare_records-IsLinked_example =
    compare_records-IsLinked plain as_is platform appending_sheet columns rows
      (row "a" "7" ∷ row "c" "5" ∷ []) totals refl

validate_excel_records-IsFormatted_example :
    IsFormatted [] (validate_excel_records plain as_is platform sheet rows columns empty_log).0
validate_excel_records-IsFormatted_example =
    validate_excel_records-IsFormatted plain as_is platform sheet rows columns [] empty_log
      (refl, ([], refl, tt))
