-- ===== src/Engine/Keys.antt =====
-- Record keys, and the small functions of engine.py on cells: `_key`, `_business_key`,
-- `_safe_value`, `_safe_record`, `_excel_write_safe`, `_excel_write_value`, `_should_insert_missing`.
use Prim.Native.Char.{code}
use Prim.Native.String.{◌++◌ as ◌<>◌, count as str_count}
use excel_youhua.Prelude.{
  ℕ, ◌-◌, zero, suc, String, Bool, true, false, not, ◌||◌, List, [], ◌∷◌, Option, none, some, ◌==◌,
  string_eq, nat_eq, nat_beq, leb, if◌then◌else◌,
}
use excel_youhua.Dict.{Dict, get, put}
use excel_youhua.Python.{Python, Value, null, other}
use excel_youhua.Product.Models.{FieldType}
use excel_youhua.Engine.Models.{
  ColumnRule, SheetRule, ParsedValue, PrimaryKeyMode, FormulaMode, formula, insert, RenderAction,
  MissingColumnAction, insert_and_mark_green,
}

abbrev pub Record : Type 0 → Type 0
Record Obj = Dict String (Value Obj)

-- `record.get(name)`
abbrev pub get_cell : {Obj : Type 0} → String → Record Obj → Value Obj
get_cell name r = elim (get name r) [ none ↦ null | some v ↦ v ]

-- `value is None or value == ""`
abbrev pub is_blank : {Obj : Type 0} → Value Obj → Bool
is_blank null = true
is_blank (Value.text s) = s == ""
is_blank (other o) = false

abbrev starts_with_equals : String → Bool
starts_with_equals String.[] = false
starts_with_equals (String.◌∷◌ c s) = nat_beq (code c) b'='

-- `is_formula_text`: `isinstance(value, str) and value.startswith("=")`
unfoldable pub is_formula_text : {Obj : Type 0} → Value Obj → Bool
is_formula_text null = false
is_formula_text (Value.text s) = starts_with_equals s
is_formula_text (other o) = false

-- A part of a key: a row number, the row number that stands in for an empty key, or a typed value.
pub data KeyPart (Obj : Type 0) : Type 0 where
  row_number : ℕ → KeyPart Obj
  row_number_fallback : ℕ → KeyPart Obj
  typed : FieldType → Value Obj → KeyPart Obj

abbrev pub Key : Type 0 → Type 0
Key Obj = List (KeyPart Obj)

abbrev pub by_mode {ℓ} : {A : Type ℓ} → PrimaryKeyMode → A → A → A
by_mode PrimaryKeyMode.row_number a b = a
by_mode PrimaryKeyMode.fields a b = b

abbrev is_insert : MissingColumnAction → Bool
is_insert insert = true
is_insert MissingColumnAction.report_only = false

abbrev is_insert_action : RenderAction → Bool
is_insert_action insert_and_mark_green = true
is_insert_action _ = false

module _ {Obj : Type 0} where
  -- The loop of `_key` over the primary key: the parts so far, and whether all are usable.
  unfoldable pub key_fields :
      (Value Obj → ColumnRule Obj → ParsedValue Obj)
      → List (ColumnRule Obj)
      → Record Obj
      → Key Obj × Bool
  key_fields parse [] r = ([], true)
  key_fields parse (c ∷ cs) r =
      let p = parse (get_cell c.name r) c in
      let (parts, usable) = key_fields parse cs r in
      if not p.valid || is_blank p.normalized
      then ([], false)
      else (typed c.type p.normalized ∷ parts, usable)

  abbrev row_key : Option ℕ → Key Obj × Bool
  row_key none = ([], false)
  row_key (some n) = (KeyPart.row_number n ∷ [], true)

  abbrev or_rule : Option (ColumnRule Obj) → List (ColumnRule Obj) → List (ColumnRule Obj)
  or_rule none cs = cs
  or_rule (some c) cs = c ∷ cs

  -- `rules_by_name`
  unfoldable pub rules_by_name :
      List (ColumnRule Obj) → Dict String (ColumnRule Obj) → Dict String (ColumnRule Obj)
  rules_by_name [] d = d
  rules_by_name (c ∷ cs) d = rules_by_name cs (put c.name c d)

  -- `rules_by_name[name]` for the names of the primary key. `validate_sheet` of models.py sees to it
  -- that they exist; a name that does not is passed over here.
  unfoldable pub rules_at : Dict String (ColumnRule Obj) → List String → List (ColumnRule Obj)
  rules_at rules [] = []
  rules_at rules (n ∷ ns) = or_rule (get n rules) (rules_at rules ns)

  -- `_key`; `parse` is `parse_excel_value` for the workbook and `parse_value` for the standard
  unfoldable pub record_key :
      (Value Obj → ColumnRule Obj → ParsedValue Obj)
      → (Value Obj → Option ℕ)
      → SheetRule Obj
      → Record Obj
      → Value Obj
      → Key Obj × Bool
  unfolding key_fields rules_by_name rules_at
  record_key parse parse_row sheet r number =
      by_mode sheet.primary_key_mode (row_key (parse_row number))
        (key_fields parse (rules_at (rules_by_name sheet.columns []) sheet.primary_key) r)

  -- `_should_insert_missing`
  unfoldable pub should_insert_missing : SheetRule Obj → ColumnRule Obj → Bool
  should_insert_missing sheet c = elim c.missing_column_action [
    | some a ↦ is_insert a
    | none ↦ is_insert_action (
        if c.required
        then sheet.actions.missing_required_header
        else sheet.actions.missing_optional_header)
  ]

abbrev str_take : ℕ → String → String
str_take zero s = ""
str_take (suc n) String.[] = ""
str_take (suc n) (String.◌∷◌ c s) = String.◌∷◌ c (str_take n s)

abbrev str_drop : ℕ → String → String
str_drop zero s = s
str_drop (suc n) String.[] = ""
str_drop (suc n) (String.◌∷◌ c s) = str_drop n s

abbrev pub is_null : {Obj : Type 0} → Value Obj → Bool
is_null null = true
is_null _ = false

abbrev pub is_formula_mode : FormulaMode → Bool
is_formula_mode formula = true
is_formula_mode _ = false

module _ (py : Python) where
  open py use {Obj, str, int}

  abbrev pub str_of : Value Obj → String
  str_of null = "None"
  str_of (Value.text s) = s
  str_of (other o) = str o

  -- `_safe_value`
  unfoldable pub safe_value : Value Obj → ColumnRule Obj → Value Obj
  safe_value null c = null
  safe_value v c =
      let s = str_of v in
      if not c.sensitive
      then v
      else if leb (str_count s) 4
      then Value.text "****"
      else Value.text (str_take 2 s <> "***" <> str_drop (str_count s - 2) s)

  abbrev pub safe_if : Value Obj → Option (ColumnRule Obj) → Value Obj
  safe_if v none = v
  safe_if v (some c) = safe_value v c

  -- `_safe_record`
  unfoldable pub safe_record : Dict String (ColumnRule Obj) → Record Obj → Record Obj
  unfolding safe_value
  safe_record rules [] = []
  safe_record rules ((name, v) ∷ r) = (name, safe_if v (get name rules)) ∷ safe_record rules r

  abbrev key_value : KeyPart Obj → Value Obj
  key_value (KeyPart.row_number n) = other (int n)
  key_value (row_number_fallback n) = other (int n)
  key_value (typed t v) = v

  abbrev first_value : Key Obj → Value Obj
  first_value [] = null
  first_value (k ∷ ks) = key_value k

  -- `zip(sheet.primary_key, key)`
  unfoldable pub zip_key :
      Dict String (ColumnRule Obj) → List String → Key Obj → Dict String (Value Obj)
  unfolding safe_value
  zip_key rules (n ∷ ns) (k ∷ ks) = (n, safe_if (key_value k) (get n rules)) ∷ zip_key rules ns ks
  zip_key rules _ _ = []

  -- `_business_key`
  unfoldable pub business_key : Key Obj → SheetRule Obj → Dict String (Value Obj)
  unfolding zip_key rules_by_name
  business_key key sheet =
      by_mode sheet.primary_key_mode ((sheet.row_number_field, first_value key) ∷ [])
        (zip_key (rules_by_name sheet.columns []) sheet.primary_key key)
