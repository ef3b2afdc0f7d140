-- ===== src/Tests/Records.antt =====
-- The indexing of workbook and standard records on small inputs.
use excel_youhua.Prelude.{
  ℕ, String, List, [], ◌∷◌, none, ◌≡◌, refl, nat_eq, contains, if◌then◌else◌,
}
use excel_youhua.Dict.{get}
use excel_youhua.Python.{null, text}
use excel_youhua.Product.Models.{FieldType}
use excel_youhua.Engine.Models.{SheetSnapshot}
use excel_youhua.Engine.Log.{empty_log}
use excel_youhua.Engine.Keys.{Record, Key, typed}
use excel_youhua.Engine.KeyEquality.{key_eq}
use excel_youhua.Engine.Index.{survivors, matching, sole}
use excel_youhua.Engine.Rows.{scan_sheet}
use excel_youhua.Engine.Rows.Unique.{sheet_entries, scan_sheet_unique}
use excel_youhua.Engine.Standard.{standard_survivors}
use excel_youhua.Engine.Standard.Unique.{standard_entries, partial_keys, standard_unique}
use excel_youhua.Tests.Samples.{plain, as_is, platform, sheet, snapshot}

-- Two rows with the key `a` and one with `b`.
abbrev rows : SheetSnapshot ℕ
rows = snapshot [] ((text "a" ∷ []) ∷ (text "b" ∷ text "4" ∷ []) ∷ (text "a" ∷ text "5" ∷ []) ∷ [])

abbrev columns : List (String × ℕ)
columns = ("id", 1) ∷ ("size", 2) ∷ []

abbrev key : String → Key ℕ
key s = typed FieldType.string (text s) ∷ []

scan_sheet_unique_example :
    get (key "a") (survivors (scan_sheet plain as_is platform sheet columns rows empty_log).index)
    ≡ sole (matching (key "a") (sheet_entries plain as_is sheet rows columns))
scan_sheet_unique_example =
    scan_sheet_unique plain as_is platform sheet columns rows empty_log (key "a")

abbrev standard : List (Record ℕ)
standard =
    (("id", text "a") ∷ [])
    ∷ (("id", null) ∷ [])
    ∷ (("id", text "b") ∷ [])
    ∷ (("id", text "a") ∷ [])
    ∷ []

standard_unique_example : get (key "b") (standard_survivors plain as_is sheet standard) ≡ (
    if contains (partial_keys plain as_is sheet standard 1) (key "b")
    then none
    else sole (matching (key "b") (standard_entries plain as_is sheet standard 1)))
standard_unique_example = standard_unique plain as_is sheet (key "b") refl standard
