-- ===== src/Engine/Missing.antt =====
-- The records of the standard that the workbook lacks (engine.py, the loop of `_compare_records`
-- over `standard_only`): each is reported, and appended to the sheet where that is safe.
pub mod Rows
pub mod Safe
use Prim.Native.String.{◌++◌ as ◌<>◌}
use excel_youhua.Prelude.{
  ℕ, ◌+◌, String, Bool, true, false, not, ◌&&◌, ◌||◌, List, [], ◌∷◌, map, Option, none, some, keep,
  nat_beq, any, Eq, if◌then◌else◌,
}
use excel_youhua.Dict.{Dict, get, has}
use excel_youhua.Python.{Python, Value}
use excel_youhua.Engine.Models.{
  ColumnRule, SheetRule, MissingRecord, append_and_mark_green, RenderAction, append_row_green,
  missing_record, planned, append_record, ParsedValue, Difference, RepairOperation, record_of,
}
use excel_youhua.Engine.Normalization.{Normalization}
use excel_youhua.Engine.Log.{Log, difference, operation, Entry, note, fix, write}
use excel_youhua.Engine.Keys.{
  Record, Key, KeyPart, row_number, row_number_fallback, typed, by_mode, get_cell, is_formula_text,
  is_formula_mode, rules_by_name, safe_record, business_key,
}
use excel_youhua.Engine.Writes.{excel_write_safe, excel_write_value}
use excel_youhua.Engine.KeyEquality.{key_eq, value_beq}
use excel_youhua.Engine.Blocked.{write_safety, expand_template, is_datetime}

abbrev pub is_append : MissingRecord → Bool
is_append append_and_mark_green = true
is_append MissingRecord.report_only = false

-- `key[0][1] == row`, for a key that starts with a row number
abbrev is_row : {Obj : Type 0} → ℕ → Key Obj → Bool
is_row row (row_number n ∷ ps) = nat_beq n row
is_row row (row_number_fallback n ∷ ps) = nat_beq n row
is_row row _ = false

abbrev pub is_empty {ℓ} : {A : Type ℓ} → List A → Bool
is_empty [] = true
is_empty (x ∷ xs) = false

abbrev pub rule_values {ℓ} : {A : Type ℓ} → Dict String A → List A
rule_values [] = []
rule_values ((k, v) ∷ d) = v ∷ rule_values d

-- The variables of the loop: `append_row` and the lists it appends to.
pub record Appending (Obj : Type 0) : Type 0 where
  pub append_row : ℕ
  pub log : Log Obj

module _ (py : Python) ⦃e : Eq py.Obj⦄ (nm : Normalization py.Obj) (sheet : SheetRule py.Obj) where
  open py use {Obj}

  abbrev rules : Dict String (ColumnRule Obj)
  rules = rules_by_name sheet.columns []

  abbrev other_text : Record Obj → ℕ → ColumnRule Obj → Bool
  other_text r row c = elim c.formula_template [
    | none ↦ true
    | some template ↦ not (value_beq (expand_template py template row) (get_cell c.name r))
  ]

  -- a formula that the template of its field does not give at this row
  unfoldable pub is_unsafe_formula : Record Obj → ℕ → ColumnRule Obj → Bool
  unfolding is_formula_text expand_template
  is_unsafe_formula r row c =
      is_formula_mode c.formula_mode && (is_formula_text (get_cell c.name r) && other_text r row c)

  -- `parsed_record[name]`
  abbrev pub parsed : Record Obj → ColumnRule Obj → ParsedValue Obj
  parsed r c = nm.parse_value (get_cell c.name r) c

  -- `unsafe_write_fields`, by their rules
  unfoldable pub unsafe_write_fields : Record Obj → List (ColumnRule Obj)
  unfolding excel_write_safe rules_by_name
  unsafe_write_fields r =
      keep (λ c. not (excel_write_safe py nm (parsed r c) c)) (rule_values rules)

  -- whether the values of the record can be written
  unfoldable pub can_append : Record Obj → ℕ → Bool
  unfolding is_unsafe_formula unsafe_write_fields rules_by_name
  can_append r row =
      not (any (is_unsafe_formula r row) (rule_values rules)) && is_empty (unsafe_write_fields r)

  -- `write_record`
  unfoldable pub write_record : Record Obj → Dict String (ColumnRule Obj) → Record Obj
  unfolding excel_write_value
  write_record r [] = []
  write_record r ((name, c) ∷ d) = (name, excel_write_value py nm (parsed r c) c) ∷ write_record r d

  module _ (duplicates : Dict (Key Obj) (List ℕ)) where
    -- `append`
    unfoldable pub is_appended : Key Obj → Record Obj → ℕ → Bool
    unfolding can_append
    is_appended key r row =
        is_append sheet.actions.missing_record
        && (not (has key duplicates)
            && (by_mode sheet.primary_key_mode (is_row row key) true && can_append r row))

    -- `missing_rule_id` where the record is not appended
    abbrev blocked_rule : Record Obj → ℕ → Option String
    blocked_rule r row =
        if not (is_append sheet.actions.missing_record)
        then none
        else if any (is_unsafe_formula r row) (rule_values rules)
        then some "missing_record.formula_template_required"
        else if is_empty (unsafe_write_fields r)
        then none
        else if any (λ c. is_datetime c.type) (unsafe_write_fields r)
        then some "missing_record.datetime_write_blocked"
        else some "missing_record.numeric_write_blocked"

    abbrev missing_difference : Key Obj → Record Obj → Difference Obj
    missing_difference key r = record (difference missing_record sheet) {
      business_key = some (business_key py key sheet);
      standard_raw_value = record_of (safe_record py rules r);
    }

    -- the differences of the fields that Excel cannot hold
    abbrev pub unsafe_notes : Key Obj → Record Obj → List (Entry Obj)
    unsafe_notes key r =
        if is_append sheet.actions.missing_record
        then map (λ c. write_safety py sheet none none key c (parsed r c)) (unsafe_write_fields r)
        else []

    -- the difference of the record, and the repair that appends it
    unfoldable pub missing_entry : Key Obj → Record Obj → ℕ → Entry Obj
    unfolding is_appended is_unsafe_formula unsafe_write_fields difference operation safe_record
        business_key write_record rules_by_name
    missing_entry key r row =
        if is_appended key r row
        then fix
            (record (missing_difference key r) {
              excel_row = some row;
              rule_id = some "missing_record.append";
              render_action = append_row_green;
              repair_status = planned;
            })
            (record (operation append_record sheet) {
              rule_id = "missing_record.append";
              excel_row = some row;
              values = write_record r rules;
            })
        else note (record (missing_difference key r) { rule_id = blocked_rule r row })

    -- one round of the loop
    unfoldable pub missing_step :
        (ℕ → String) → Key Obj → Record Obj → Appending Obj → Appending Obj
    unfolding missing_entry is_appended write unsafe_write_fields write_safety
    missing_step ulid key r a = record {
      append_row = if is_appended key r a.append_row then a.append_row + 1 else a.append_row;
      log =
          write ulid (missing_entry key r a.append_row ∷ [])
            (write ulid (unsafe_notes key r) a.log);
    }

    -- the loop over the missing records
    unfoldable pub missing_loop :
        (ℕ → String) → List (Key Obj × Record Obj) → Appending Obj → Appending Obj
    unfolding missing_step
    missing_loop ulid [] a = a
    missing_loop ulid ((key, r) ∷ rs) a = missing_loop ulid rs (missing_step ulid key r a)
