-- ===== src/Engine/Validation.antt =====
-- The validation of one row of the workbook: `_validate`, `_append_display_format_repair` and
-- `_validate_cross_fields` (engine.py), and the validators of validators.py.
pub mod Fields
pub mod Scan
pub mod Review
pub mod Formats
use Prim.Native.String.{◌++◌ as ◌<>◌, count as str_count}
use excel_youhua.Prelude.{
  ◌==◌, ℕ, String, Bool, false, not, ◌&&◌, ◌||◌, List, [], ◌∷◌, ◌++◌, Option, none, some, Eq,
  string_eq, ltb, if◌then◌else◌,
}
use excel_youhua.Dict.{Dict, get}
use excel_youhua.Python.{Python, Value}
use excel_youhua.Engine.Models.{
  ColumnRule, SheetRule, SheetSnapshot, Cell, ParsedValue, CrossValidator, conditional_required,
  date_order, CrossFieldRule, normalized_match, validation_error, info, planned, RenderAction,
  RepairType, value,
}
use excel_youhua.Engine.Normalization.{Normalization}
use excel_youhua.Engine.Log.{difference, operation, Entry, note, fix}
use excel_youhua.Engine.Keys.{Key, is_null, business_key, rules_by_name, str_of}
use excel_youhua.Engine.KeyEquality.{value_beq}

-- Which test of `_validate` fails.
pub data Failure : Type 0 where
  empty too_short too_long no_match too_small too_large : Failure

abbrev fails {ℓ} : {A : Type ℓ} → (A → Bool) → Option A → Bool
fails p none = false
fails p (some a) = p a

module _ (py : Python) ⦃e : Eq py.Obj⦄ (nm : Normalization py.Obj) where
  open py use {Obj}

  -- `_validate`
  unfoldable pub validate : ParsedValue Obj → ColumnRule Obj → Option Failure
  validate p c =
      let text = str_of py p.normalized in
      if is_null p.normalized
      then (if c.required || not c.nullable then some empty else none)
      else if fails (λ n. ltb (str_count text) n) c.min_length
      then some too_short
      else if fails (λ n. ltb n (str_count text)) c.max_length
      then some too_long
      else if fails (λ r. not (r == "") && not (nm.fullmatch r text)) c.regex
      then some no_match
      else if fails (nm.decimal_below text) c.min
      then some too_small
      else if fails (nm.decimal_above text) c.max
      then some too_large
      else none

  abbrev both :
      Option (ParsedValue Obj)
      → Option (ParsedValue Obj)
      → (ParsedValue Obj → ParsedValue Obj → Bool)
      → Bool
  both (some l) (some r) p = p l r
  both _ _ p = false

  -- `run_validator`: the field that the message is about
  unfoldable pub run_validator : CrossValidator Obj → Dict String (ParsedValue Obj) → Option String
  run_validator (conditional_required when expected required) parsed =
      if both (get when parsed) (get required parsed)
        (λ l r. value_beq l.normalized expected && is_null r.normalized)
      then some required
      else none
  run_validator (date_order start end) parsed =
      if both (get start parsed) (get end parsed) (λ l r.
        (l.valid && r.valid)
        && ((not (is_null l.normalized) && not (is_null r.normalized))
            && nm.before r.normalized l.normalized))
      then some end
      else none

  module _ (sheet : SheetRule Obj) where
    abbrev rules : Dict String (ColumnRule Obj)
    rules = rules_by_name sheet.columns []

    -- `params["equals"]` is parsed like the field that it is compared with
    unfoldable pub parse_expected : CrossValidator Obj → CrossValidator Obj
    unfolding rules_by_name
    parse_expected (conditional_required when expected required) = elim (get when rules) [
      | none ↦ conditional_required when expected required
      | some c ↦ conditional_required when (nm.parse_value expected c).normalized required
    ]
    parse_expected (date_order start end) = date_order start end

    abbrev cross_difference : ℕ → Key Obj → CrossFieldRule Obj → String → ℕ → Entry Obj
    cross_difference row key rule target column = note (record (difference validation_error sheet) {
      cell = some (record { column = column; row = row });
      excel_row = some row;
      canonical_field = some target;
      business_key = some (business_key py key sheet);
      rule_id = some rule.rule_id;
      severity = rule.severity;
      render_action = sheet.actions.invalid_value;
    })

    abbrev pub cross_target :
        Dict String ℕ → ℕ → Key Obj → CrossFieldRule Obj → Option String → List (Entry Obj)
    cross_target columns row key rule none = []
    cross_target columns row key rule (some target) = elim (get target columns) [
      | none ↦ []
      | some column ↦ cross_difference row key rule target column ∷ []
    ]

    -- `_validate_cross_fields`
    unfoldable pub validate_cross_fields :
        Dict String ℕ
        → ℕ
        → Key Obj
        → Dict String (ParsedValue Obj)
        → List (CrossFieldRule Obj)
        → List (Entry Obj)
    unfolding run_validator parse_expected difference business_key
    validate_cross_fields columns row key parsed [] = []
    validate_cross_fields columns row key parsed (rule ∷ rules) =
        cross_target columns row key rule (run_validator (parse_expected rule.validator) parsed)
        ++ validate_cross_fields columns row key parsed rules

    -- `_append_display_format_repair`
    unfoldable pub display_format :
        SheetSnapshot Obj → ℕ → Cell → Key Obj → ColumnRule Obj → List (Entry Obj)
    unfolding difference operation business_key
    display_format snapshot row cell key c = elim (snapshot.format_mismatch cell) [
      | none ↦ []
      | some actual ↦ elim c.format [
        | none ↦ []
        | some format ↦
            if c.normalize_display_format
            then fix
                (record (difference normalized_match sheet) {
                  cell = some cell;
                  excel_row = some row;
                  canonical_field = some c.name;
                  business_key = some (business_key py key sheet);
                  excel_raw_value = Value.text actual;
                  standard_raw_value = value (Value.text format);
                  rule_id = some (c.name <> ".normalize_display_format");
                  severity = info;
                  render_action = RenderAction.set_number_format;
                  repair_status = planned;
                })
                (record (operation RepairType.set_number_format sheet) {
                  rule_id = c.name <> ".normalize_display_format";
                  cell = some cell;
                  canonical_field = some c.name;
                  value = Value.text format;
                })
              ∷ []
            else []
      ]
    ]
