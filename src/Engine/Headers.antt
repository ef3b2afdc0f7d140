-- ===== src/Engine/Headers.antt =====
-- `map_headers` of engine.py: which physical column holds which field of the rules.
pub mod Columns
pub mod Names
use excel_youhua.Prelude.{
  ℕ, ◌+◌, ◌-◌, String, Bool, ◌&&◌, not, List, [], ◌∷◌, map, Option, none, some, ltb, count,
  get_elem?, ◌==◌, string_eq, if◌then◌else◌,
}
use excel_youhua.Dict.{Dict, get, put, setdefault}
use excel_youhua.Python.{Python, Value}
use excel_youhua.Text.{normalize_header, str_or_empty}
use excel_youhua.Engine.Models.{
  ColumnRule, SheetRule, SheetSnapshot, HeaderMapping, HeaderMatch, HeaderStatus, canonical,
  exact_title, confirmed_alias, fuzzy_suggestion, unmatched, matched, duplicate, extra,
}

-- `process.extractOne(query, choices, scorer=fuzz.ratio, score_cutoff=…)` over a dict of choices:
-- the score and the key of the best choice. A confidence of 100 is `full`.
pub record FuzzyOne : Type 0 where
  pub full : ℕ
  pub extract_one : String → Dict String String → ℕ → Option (ℕ × String)

module _ (py : Python) where
  open py use {Obj}

  abbrev norm_text : String → String
  norm_text s = normalize_header py (Value.text s)

  unfoldable pub add_aliases :
      String → List String → Dict String (String × HeaderMatch) → Dict String (String × HeaderMatch)
  add_aliases name [] d = d
  add_aliases name (a ∷ as') d =
      add_aliases name as' (setdefault (norm_text a) (name, confirmed_alias) d)

  -- `exact`: the first column that claims a header, and by which of its names
  unfoldable pub exact_names :
      List (ColumnRule Obj)
      → Dict String (String × HeaderMatch)
      → Dict String (String × HeaderMatch)
  unfolding add_aliases
  exact_names [] d = d
  exact_names (c ∷ cs) d = exact_names cs (
      add_aliases c.name c.aliases (
        setdefault (norm_text c.title) (c.name, exact_title)
          (setdefault (norm_text c.name) (c.name, canonical) d)))

  -- `{column.name: normalize_header(column.title) for column in sheet.columns}`
  unfoldable pub title_choices : List (ColumnRule Obj) → Dict String String → Dict String String
  title_choices [] d = d
  title_choices (c ∷ cs) d = title_choices cs (put c.name (norm_text c.title) d)

  -- the header row, empty where the sheet has no such row
  unfoldable pub header_values : SheetRule Obj → SheetSnapshot Obj → List (Value Obj)
  header_values sheet snapshot = elim (get_elem? snapshot.rows (sheet.header_row - 1)) [
    | none ↦ []
    | some row ↦ row.1
  ]

  module _ (fz : FuzzyOne) (sheet : SheetRule Obj) where
    abbrev blank_mapping : ℕ → String → String → HeaderMapping
    blank_mapping index raw normalized = record {
      sheet_id = sheet.id;
      physical_column = index;
      raw_header = raw;
      normalized_header = normalized;
      canonical_field = none;
      match_type = unmatched;
      confidence = none;
      status = extra;
    }

    -- the mapping of one header cell
    unfoldable pub map_header :
        List String
        → Dict String (String × HeaderMatch)
        → Dict String String
        → ℕ
        → Value Obj
        → HeaderMapping
    map_header normalized_values exact choices index raw =
        let normalized = normalize_header py raw in
        let blank = blank_mapping index (str_or_empty py raw) normalized in
        if not (normalized == "") && ltb 1 (count normalized normalized_values)
        then record blank { match_type = HeaderMatch.ambiguous; status = duplicate }
        else elim (get normalized exact) [
          | some (name, kind) ↦ record blank {
            canonical_field = some name;
            match_type = kind;
            confidence = some fz.full;
            status = matched;
          }
          | none ↦
              if normalized == ""
              then blank
              else elim (fz.extract_one normalized choices sheet.fuzzy_suggestion_threshold) [
                | some (score, name) ↦ record blank {
                  canonical_field = some name;
                  match_type = fuzzy_suggestion;
                  confidence = some score;
                  status = HeaderStatus.ambiguous;
                }
                | none ↦ blank
              ]
        ]

    unfoldable pub map_cells :
        List String
        → Dict String (String × HeaderMatch)
        → Dict String String
        → ℕ
        → List (Value Obj)
        → List HeaderMapping
    unfolding map_header
    map_cells normalized_values exact choices index [] = []
    map_cells normalized_values exact choices index (raw ∷ rest) =
        map_header normalized_values exact choices index raw
        ∷ map_cells normalized_values exact choices (index + 1) rest

abbrev when_matched : HeaderStatus → Option String → Option String
when_matched matched f = f
when_matched _ f = none

-- `mapping.canonical_field` if the status is "matched"
abbrev pub matched_field : HeaderMapping → Option String
matched_field m = when_matched m.status m.canonical_field

abbrev pub cons_some {ℓ} : {A : Type ℓ} → Option A → List A → List A
cons_some none xs = xs
cons_some (some x) xs = x ∷ xs

abbrev pub matched_fields : List HeaderMapping → List String
matched_fields [] = []
matched_fields (m ∷ ms) = cons_some (matched_field m) (matched_fields ms)

abbrev duplicate_if : Bool → HeaderMapping → HeaderMapping
duplicate_if b m = if b then record m { status = duplicate } else m

-- Columns that match one field by different names are duplicates of one another.
unfoldable pub mark_one : List String → HeaderMapping → HeaderMapping
mark_one fields m = elim (matched_field m) [
  | none ↦ m
  | some f ↦ duplicate_if (ltb 1 (count f fields)) m
]

unfoldable pub mark_duplicates : List HeaderMapping → List HeaderMapping
unfolding mark_one
mark_duplicates ms = map (mark_one (matched_fields ms)) ms

abbrev pub add_column : HeaderMapping → Dict String ℕ → Dict String ℕ
add_column m d = elim (matched_field m) [ none ↦ d | some f ↦ put f m.physical_column d ]

-- `canonical_columns`
unfoldable pub columns_from : List HeaderMapping → Dict String ℕ → Dict String ℕ
columns_from [] d = d
columns_from (m ∷ ms) d = columns_from ms (add_column m d)

unfoldable pub map_headers :
    (py : Python)
    → FuzzyOne
    → SheetRule py.Obj
    → SheetSnapshot py.Obj
    → List HeaderMapping × Dict String ℕ
unfolding exact_names title_choices header_values map_cells mark_duplicates columns_from
map_headers py fz sheet snapshot =
    let cells = header_values py sheet snapshot in
    let mappings = mark_duplicates (
      map_cells py fz sheet (map (normalize_header py) cells) (exact_names py sheet.columns [])
        (title_choices py sheet.columns []) 1 cells) in
    (mappings, columns_from mappings [])
