-- ===== src/Engine/Validation/Fields.antt =====
-- The validation of one field of a row (engine.py, `_validate_excel_records`).
use Prim.Native.String.{◌++◌ as ◌<>◌}
use excel_youhua.Prelude.{
  ℕ, String, Bool, true, false, not, ◌&&◌, List, [], ◌∷◌, ◌++◌, Option, none, some, Eq, string_eq,
  nat_eq, contains, if◌then◌else◌,
}
use excel_youhua.Python.{Python, Value, null}
use excel_youhua.Engine.Models.{
  ColumnRule, SheetRule, SheetSnapshot, FormulaMode, Cell, ParsedValue, CrossValidator,
  conditional_required, date_order, CrossFieldRule, Difference, validation_error, invalid_value,
  unsupported_feature, mark_purple,
}
use excel_youhua.Engine.Normalization.{Normalization}
use excel_youhua.Engine.Log.{difference, Entry, note}
use excel_youhua.Engine.Keys.{Key, is_blank, is_null, is_formula_text, safe_value, business_key}
use excel_youhua.Engine.KeyEquality.{value_eq}
use excel_youhua.Engine.Validation.{validate, Failure, display_format}

-- What the validation of one field gives: what it appends, the entry of `parsed_record`, and whether
-- the value is added to `unique_values`.
pub record FieldCheck (Obj : Type 0) : Type 0 where
  pub entries : List (Entry Obj)
  pub parsed : Option (ParsedValue Obj)
  pub is_unique : Bool

abbrev pub no_check : {Obj : Type 0} → FieldCheck Obj
no_check = record { entries = []; parsed = none; is_unique = false }

-- The fields that the parameters of a cross-field rule name.
abbrev pub named_fields : {Obj : Type 0} → CrossValidator Obj → List String
named_fields (conditional_required when expected required) = when ∷ required ∷ []
named_fields (date_order start end) = start ∷ end ∷ []

abbrev cross_fields : {Obj : Type 0} → List (CrossFieldRule Obj) → List String
cross_fields [] = []
cross_fields (rule ∷ rules) = named_fields rule.validator ++ cross_fields rules

module _ (py : Python) ⦃e : Eq py.Obj⦄ (nm : Normalization py.Obj) (sheet : SheetRule py.Obj)
    (snapshot : SheetSnapshot py.Obj) where
  open py use {Obj, int}

  module _ (row : ℕ) (cell : Cell) (key : Key Obj) (c : ColumnRule Obj) where
    abbrev pub at_cell : Difference Obj → Difference Obj
    at_cell d = record d {
      cell = some cell;
      excel_row = some row;
      canonical_field = some c.name;
      business_key = some (business_key py key sheet);
    }

    abbrev pub failure_note : ParsedValue Obj → Option Failure → List (Entry Obj)
    failure_note p none = []
    failure_note p (some f) =
        note (record (at_cell (difference validation_error sheet)) {
          excel_raw_value = safe_value py p.raw c;
          excel_normalized_value = safe_value py p.normalized c;
          rule_id = some (c.name <> ".validation");
          render_action = sheet.actions.invalid_value;
        })
        ∷ []

    abbrev pub parse_note : ParsedValue Obj → Entry Obj
    parse_note p = note (record (at_cell (difference invalid_value sheet)) {
      excel_raw_value = safe_value py p.raw c;
      rule_id = some (c.name <> ".parse");
      render_action = sheet.actions.invalid_value;
    })

    -- a value that is no formula, or the cached value of one
    unfoldable pub check_value : Value Obj → FieldCheck Obj
    unfolding difference safe_value business_key display_format validate
    check_value raw =
        let p = nm.parse_excel_value raw c in
        if is_blank raw && (not c.required && (c.nullable && not c.unique))
        then record no_check {
          parsed =
              if contains (cross_fields sheet.cross_field_rules) c.name
              then some (record { raw = raw; normalized = null; valid = true })
              else none;
        }
        else if not p.valid
        then record { entries = parse_note p ∷ []; parsed = some p; is_unique = false }
        else record {
          entries =
              display_format py nm sheet snapshot row cell key c
              ++ failure_note p (validate py nm p c);
          parsed = some p;
          is_unique = c.unique && not (is_null p.normalized);
        }

    abbrev pub check_formula : Value Obj → FormulaMode → FieldCheck Obj
    check_formula raw FormulaMode.formula = record {
      entries = display_format py nm sheet snapshot row cell key c;
      parsed = some (record { raw = raw; normalized = raw; valid = true });
      is_unique = false;
    }
    check_formula raw FormulaMode.cached_value = check_value (snapshot.cached_value cell)
    check_formula raw FormulaMode.reject = record no_check {
      entries =
          note (record (at_cell (difference unsupported_feature sheet)) {
            rule_id = some (c.name <> ".formula_reject");
            render_action = mark_purple;
          })
          ∷ [];
    }

    -- one field of a row
    unfoldable pub check_field : Value Obj → FieldCheck Obj
    unfolding check_value difference business_key display_format is_formula_text
    check_field raw =
        if is_formula_text raw then check_formula raw c.formula_mode else check_value raw
