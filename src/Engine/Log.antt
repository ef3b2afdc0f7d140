-- ===== src/Engine/Log.antt =====
-- The lists `differences` and `repairs` that the functions of engine.py append to, and
-- `_difference`, which gives each difference a new identifier.
pub mod Linked
use excel_youhua.Prelude.{false, true, Bool, ℕ, ◌+◌, String, List, [], ◌∷◌, ◌++◌, none}
use excel_youhua.Python.{null}
use excel_youhua.Engine.Models.{
  DifferenceType, RenderAction, RepairType, Difference, RepairOperation, SheetRule, error,
  not_requested, value, RepairStatus, planned,
}

pub record Log (Obj : Type 0) : Type 0 where
  pub differences : List (Difference Obj)
  pub repairs : List (RepairOperation Obj)
  -- how many identifiers `new_ulid` has given
  pub drawn : ℕ

abbrev pub empty_log : {Obj : Type 0} → Log Obj
empty_log = record { differences = []; repairs = []; drawn = 0 }

module _ {Obj : Type 0} where
  -- `_difference(kind, sheet, message)` with the defaults of `Difference`; its identifier is
  -- filled in when it is appended.
  unfoldable pub difference : DifferenceType → SheetRule Obj → Difference Obj
  difference kind sheet = record {
    difference_id = "";
    type = kind;
    severity = error;
    sheet_id = sheet.id;
    sheet_name = sheet.name;
    cell = none;
    excel_row = none;
    canonical_field = none;
    business_key = none;
    excel_raw_value = null;
    excel_normalized_value = null;
    standard_raw_value = value null;
    standard_normalized_value = null;
    rule_id = none;
    render_action = RenderAction.report_only;
    repair_status = not_requested;
  }

  -- `RepairOperation(kind, sheet.id, sheet.name, …)` with the defaults of its class
  unfoldable pub operation : RepairType → SheetRule Obj → RepairOperation Obj
  operation kind sheet = record {
    type = kind;
    sheet_id = sheet.id;
    sheet_name = sheet.name;
    rule_id = "";
    difference_id = "";
    cell = none;
    excel_row = none;
    canonical_field = none;
    value = null;
    values = [];
  }

-- `new_ulid("diff_")`, called the n-th time, is `ulid n`.
module _ {Obj : Type 0} (ulid : ℕ → String) where
  -- `differences.append(_difference(…))`
  unfoldable pub report : Difference Obj → Log Obj → Log Obj
  report d log = record log {
    differences = log.differences ++ record d { difference_id = ulid log.drawn } ∷ [];
    drawn = log.drawn + 1;
  }

  -- the difference, and the repair that it plans
  unfoldable pub plan : Difference Obj → RepairOperation Obj → Log Obj → Log Obj
  plan d r log = record {
    differences = log.differences ++ record d { difference_id = ulid log.drawn } ∷ [];
    repairs = log.repairs ++ record r { difference_id = ulid log.drawn } ∷ [];
    drawn = log.drawn + 1;
  }

abbrev pub is_planned : RepairStatus → Bool
is_planned planned = true
is_planned _ = false

-- What the functions of the engine append: a difference, or one with the repair that it plans.
pub data Entry (Obj : Type 0) : Type 0 where
  note : Difference Obj → Entry Obj
  fix : Difference Obj → RepairOperation Obj → Entry Obj

module _ {Obj : Type 0} (ulid : ℕ → String) where
  unfoldable pub write_entry : Entry Obj → Log Obj → Log Obj
  unfolding report plan
  write_entry (note d) log = report ulid d log
  write_entry (fix d r) log = plan ulid d r log

  unfoldable pub write : List (Entry Obj) → Log Obj → Log Obj
  unfolding write_entry
  write [] log = log
  write (x ∷ xs) log = write xs (write_entry x log)
