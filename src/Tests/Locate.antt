-- ===== src/Tests/Locate.antt =====
-- `locate_header_row` on a sheet whose second row is the header.
use excel_youhua.Prelude.{ℕ, true, [], ◌∷◌, none, ◌≡◌, refl, All, any, ◌&&◌, nat_beq, take}
use excel_youhua.Dict.{get, put}
use excel_youhua.Python.{text}
use excel_youhua.Text.{normalize_header, collapse}
use excel_youhua.Engine.Models.{SheetSnapshot}
use excel_youhua.Engine.Locate.{
  scan_rows, header_names, header_candidates, best_score, locate_header_row,
}
use excel_youhua.Engine.Locate.Best.{IsBelow, locate_header_row_best}
use excel_youhua.Tests.Samples.{plain, sheet, snapshot}

abbrev rows : SheetSnapshot ℕ
rows =
    snapshot (text "a title" ∷ [])
      ((text "id" ∷ text "Size" ∷ []) ∷ (text "id" ∷ text "4" ∷ []) ∷ [])

located : locate_header_row plain sheet rows ≡ (2, none)
unfolding locate_header_row normalize_header collapse get put
located = refl

locate_header_row_best_example :
    let cs =
      header_candidates plain sheet
        (header_names plain sheet.columns [])
        (take scan_rows rows.rows) in
    All (IsBelow plain (best_score plain cs) 2) cs
    × (any (λ c. nat_beq c.0 (best_score plain cs) && nat_beq c.1 2) cs ≡ true)
locate_header_row_best_example = locate_header_row_best plain sheet rows 2 refl located
