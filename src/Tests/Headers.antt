-- ===== src/Tests/Headers.antt =====
-- `map_headers` on a header row with a blank, a repeated and a doubly claimed column.
use excel_youhua.Prelude.{ℕ, String, [], ◌∷◌, map, ◌≡◌, Distinct, All, contains, string_eq}
use excel_youhua.Dict.{has}
use excel_youhua.Python.{null, text}
use excel_youhua.Text.{normalize_header}
use excel_youhua.Engine.Models.{SheetSnapshot}
use excel_youhua.Engine.Headers.{map_headers, matched_fields, header_values}
use excel_youhua.Engine.Headers.Columns.{IsColumnOf, map_headers_columns}
use excel_youhua.Engine.Headers.Names.{IsNamed, map_headers-IsNamed}
use excel_youhua.Tests.Samples.{plain, sheet, snapshot, no_fuzzy}

abbrev headers : SheetSnapshot ℕ
headers = snapshot (text "id" ∷ null ∷ text "width" ∷ text "Size" ∷ text "x" ∷ text "x" ∷ []) []

map_headers_columns_example :
    let (ms, columns) = map_headers plain no_fuzzy sheet headers in
    Distinct (matched_fields ms)
    × All (IsColumnOf columns) ms
    × ((f : String) → has f columns ≡ contains (matched_fields ms) f)
map_headers_columns_example = map_headers_columns plain no_fuzzy sheet headers

map_headers-IsNamed_example :
    All
      (IsNamed plain no_fuzzy sheet
        (map (normalize_header plain) (header_values plain sheet headers)))
      (map_headers plain no_fuzzy sheet headers).0
map_headers-IsNamed_example = map_headers-IsNamed plain no_fuzzy sheet headers
