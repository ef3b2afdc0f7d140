-- ===== src/Engine/Locate.antt =====
-- `locate_header_row` of workbook.py: which row of a sheet is its header.
pub mod Best
use Prim.Native.Nat.{max}
use excel_youhua.Prelude.{
  ℕ, String, Bool, true, false, not, ◌&&◌, ◌||◌, List, [], ◌∷◌, map, Option, none, some, length,
  take, add, any, keep, contains, ltb, nat_beq, string_eq, if◌then◌else◌,
}
use excel_youhua.Dict.{Dict, get, put}
use excel_youhua.Python.{Python, Value}
use excel_youhua.Text.{normalize_header}
use excel_youhua.Engine.Models.{ColumnRule, SheetRule, SheetSnapshot, PrimaryKeyMode}

-- The texts that the function returns beside the row.
pub data LocateWarning : Type 0 where
  outside_sheet no_candidate tied : LocateWarning

-- `AUTO_HEADER_SCAN_ROWS`
abbrev pub scan_rows : ℕ
scan_rows = 50

abbrev has_any {ℓ} : {A : Type ℓ} → List A → Bool
has_any [] = false
has_any (x ∷ xs) = true

module _ (py : Python) where
  open py use {Obj}

  abbrev add_names : String → List String → Dict String String → Dict String String
  add_names name [] d = d
  add_names name (h ∷ hs) d = add_names name hs (put (normalize_header py (Value.text h)) name d)

  -- `exact`
  unfoldable pub header_names : List (ColumnRule Obj) → Dict String String → Dict String String
  unfolding normalize_header
  header_names [] d = d
  header_names (c ∷ cs) d = header_names cs (add_names c.name (c.name ∷ c.title ∷ c.aliases) d)

  abbrev add_some : Option String → List String → List String
  add_some none xs = xs
  add_some (some x) xs = add x xs

  -- `matched`
  unfoldable pub matched_names : Dict String String → List (Value Obj) → List String
  unfolding normalize_header
  matched_names exact [] = []
  matched_names exact (v ∷ vs) =
      add_some (get (normalize_header py v) exact) (matched_names exact vs)

  module _ (sheet : SheetRule Obj) where
    abbrev is_header : PrimaryKeyMode → List String → Bool
    is_header PrimaryKeyMode.fields matched =
        not (any (λ k. not (contains matched k)) sheet.primary_key)
    is_header PrimaryKeyMode.row_number matched = has_any matched

    -- `candidates`: the score of a row, and its number
    unfoldable pub header_candidates :
        Dict String String → List (ℕ × List (Value Obj)) → List (ℕ × ℕ)
    unfolding matched_names
    header_candidates exact [] = []
    header_candidates exact ((row, values) ∷ rows) =
        let matched = matched_names exact values in
        let rest = header_candidates exact rows in
        if is_header sheet.primary_key_mode matched then (length matched, row) ∷ rest else rest

  abbrev pub best_score : List (ℕ × ℕ) → ℕ
  best_score [] = 0
  best_score (c ∷ cs) = max c.0 (best_score cs)

  abbrev pub choose_best : ℕ → List (ℕ × ℕ) → ℕ × Option LocateWarning
  choose_best default [] = (default, some no_candidate)
  choose_best default (c ∷ []) = (c.1, none)
  choose_best default (c ∷ d ∷ cs) = (c.1, some tied)

  unfoldable pub locate_header_row : SheetRule Obj → SheetSnapshot Obj → ℕ × Option LocateWarning
  unfolding header_names header_candidates
  locate_header_row sheet snapshot =
      let candidates =
        header_candidates sheet (header_names sheet.columns []) (take scan_rows snapshot.rows) in
      if not sheet.auto_detect
      then (
        sheet.header_row,
        if ltb (length snapshot.rows) sheet.header_row then some outside_sheet else none,
      )
      else choose_best sheet.header_row (keep (λ c. nat_beq c.0 (best_score candidates)) candidates)
