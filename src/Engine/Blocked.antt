-- ===== src/Engine/Blocked.antt =====
-- The differences for repairs that must not be written: `_append_excel_write_safety_difference` and
-- `_append_formula_cached_write_blocked` (engine.py), and the trusted formula templates.
use Prim.Native.String.{◌++◌ as ◌<>◌}
use Prim.Native.Char.{code}
use excel_youhua.Prelude.{
  ℕ, zero, suc, String, Bool, true, false, ◌&&◌, [], ◌∷◌, Option, none, some, nat_beq,
  if◌then◌else◌,
}
use excel_youhua.Python.{Python, Value}
use excel_youhua.Product.Models.{FieldType, datetime}
use excel_youhua.Engine.Models.{
  ColumnRule, SheetRule, Cell, ParsedValue, unsupported_feature, value,
}
use excel_youhua.Engine.Log.{difference, Entry, note}
use excel_youhua.Engine.Keys.{Key, safe_value, business_key}

abbrev pub is_datetime : FieldType → Bool
is_datetime datetime = true
is_datetime _ = false

-- `_business_key(key, sheet) if key else None`
abbrev pub if_nonempty {ℓ} : {Obj : Type 0} {A : Type ℓ} → Key Obj → A → Option A
if_nonempty [] a = none
if_nonempty (p ∷ ps) a = some a

abbrev starts_with : String → String → Bool
starts_with String.[] s = true
starts_with (String.◌∷◌ c t) String.[] = false
starts_with (String.◌∷◌ c t) (String.◌∷◌ d s) = nat_beq (code c) (code d) && starts_with t s

-- `template.replace("{row}", row)`; the number counts the characters of a match still to pass over.
unfoldable pub replace_row : String → ℕ → String → String
replace_row row n String.[] = ""
replace_row row (suc n) (String.◌∷◌ c s) = replace_row row n s
replace_row row zero (String.◌∷◌ c s) = elim (starts_with "{row}" (String.◌∷◌ c s)) [
  | true ↦ row <> replace_row row 4 s
  | false ↦ String.◌∷◌ c (replace_row row 0 s)
]

module _ (py : Python) where
  open py use {Obj, str, int}

  -- the text of a template at a row
  unfoldable pub expand_template : String → ℕ → Value Obj
  unfolding replace_row
  expand_template template row = Value.text (replace_row (str (int row)) 0 template)

module _ (py : Python) (sheet : SheetRule py.Obj) where
  open py use {Obj}

  -- `_append_excel_write_safety_difference`
  unfoldable pub write_safety :
      Option ℕ → Option Cell → Key Obj → ColumnRule Obj → ParsedValue Obj → Entry Obj
  unfolding difference safe_value business_key
  write_safety row cell key c p = note (record (difference unsupported_feature sheet) {
    cell = cell;
    excel_row = row;
    canonical_field = some c.name;
    business_key = if_nonempty key (business_key py key sheet);
    standard_raw_value = value (safe_value py p.raw c);
    standard_normalized_value = safe_value py p.normalized c;
    rule_id = some (
        if is_datetime c.type
        then c.name <> ".excel_write_timezone"
        else c.name <> ".excel_write_precision");
  })

  -- `_append_formula_cached_write_blocked`
  unfoldable pub formula_blocked :
      ℕ
      → Cell
      → Key Obj
      → ColumnRule Obj
      → Value Obj
      → ParsedValue Obj
      → ParsedValue Obj
      → Entry Obj
  unfolding difference safe_value business_key
  formula_blocked row cell key c formula cached standard =
      note (record (difference unsupported_feature sheet) {
        cell = some cell;
        excel_row = some row;
        canonical_field = some c.name;
        business_key = some (business_key py key sheet);
        excel_raw_value = safe_value py formula c;
        excel_normalized_value = safe_value py cached.normalized c;
        standard_raw_value = value (safe_value py standard.raw c);
        standard_normalized_value = safe_value py standard.normalized c;
        rule_id = some (c.name <> ".formula_cached_write_blocked");
      })
