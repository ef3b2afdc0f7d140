-- ===== src/Engine/Fields/Allowed.antt =====
-- Which repairs of a matched record's cells the engine plans (engine.py, the last loop of
-- `_compare_records`).
use excel_youhua.Prelude.{
  ◌∷◌, [], List, ◌⊎◌, ℕ, true, false, ◌||◌, some, ◌≡◌, refl, Eq, string_eq, All, arith, Bool-cases,
  inl, inr,
}
use excel_youhua.Python.{Python, Value}
use excel_youhua.Engine.Models.{
  RepairOperation, ColumnRule, SheetRule, SheetSnapshot, Cell, ParsedValue,
}
use excel_youhua.Engine.Log.{is_planned}
use excel_youhua.Engine.Normalization.{Normalization}
use excel_youhua.Engine.Log.{Entry, note, fix, difference, operation}
use excel_youhua.Engine.Keys.{is_null, Record, Key, get_cell, is_formula_text}
use excel_youhua.Engine.Writes.{excel_write_safe, excel_write_value}
use excel_youhua.Engine.Blocked.{write_safety, formula_blocked}
use excel_youhua.Engine.Cells.{fill_default, is_fuzzy_string}
use excel_youhua.Engine.Fields.{
  compare_unequal, compare_parsed, compare_raw, compare_cell, can_fill,
}

module _ (py : Python) ⦃e : Eq py.Obj⦄ (nm : Normalization py.Obj) (sheet : SheetRule py.Obj) where
  open py use {Obj}

  module _ (row : ℕ) (cell : Cell) (key : Key Obj) (c : ColumnRule Obj) where
    -- The value of the standard is to be written: the values are valid and not equal, the field is no
    -- fuzzy text, and the rules overwrite, or they fill and only the standard has a value.
    abbrev pub IsCorrection : ParsedValue Obj → ParsedValue Obj → Type 0
    IsCorrection left right =
        (left.valid ≡ true)
        × (right.valid ≡ true)
        × (nm.values_equal left right c ≡ false)
        × (is_fuzzy_string c.type ≡ false)
        × ((sheet.actions.overwrite_mismatch ≡ true)
            ⊎ ((sheet.actions.fill_empty_from_standard ≡ true)
                × (is_null left.normalized ≡ true)
                × (is_null right.normalized ≡ false)))

    -- The static default is to be written: the rules fill with it, and neither side has another value.
    abbrev pub IsDefault : ParsedValue Obj → ParsedValue Obj → Type 0
    IsDefault left right =
        (left.valid ≡ true)
        × (right.valid ≡ true)
        × (nm.values_equal left right c ≡ true)
        × (c.fill_static_default ≡ true)
        × (is_null left.normalized ≡ true)

    -- The operation writes the value, and Excel can hold that.
    abbrev pub IsWritten : ParsedValue Obj → RepairOperation Obj → Type 0
    IsWritten p op =
        (excel_write_safe py nm p c ≡ true)
        × (op.cell ≡ some cell)
        × (op.value ≡ excel_write_value py nm p c)

    -- A repair of a cell with this content, and the two values: it is planned, the content is no formula,
    -- and it writes what the rules ask for. A difference without a repair plans none.
    abbrev pub IsAllowed : Value Obj → ParsedValue Obj → ParsedValue Obj → Entry Obj → Type 0
    IsAllowed raw left right (note d) = is_planned d.repair_status ≡ false
    IsAllowed raw left right (fix d op) =
        (is_planned d.repair_status ≡ true)
        × (is_formula_text raw ≡ false)
        × ((IsCorrection left right × IsWritten right op)
            ⊎ (IsDefault left right × IsWritten (nm.parse_value c.static_default c) op))

    correction :
        (left right : ParsedValue Obj)
        → left.valid ≡ true
        → right.valid ≡ true
        → nm.values_equal left right c ≡ false
        → is_fuzzy_string c.type ≡ false
        → (can_fill py nm sheet row cell key c left right || sheet.actions.overwrite_mismatch)
          ≡ true
        → IsCorrection left right
    correction left right l r differs plain asked = (
      l,
      r,
      differs,
      plain,
      (elim (Bool-cases sheet.actions.overwrite_mismatch) [
        | inl over ↦ inl over
        | inr other ↦ inr (
          ground (arith, other, asked),
          ground (arith, other, asked),
          ground (arith, other, asked),
        )
      ]),
    )

    unequal-IsAllowed :
        (raw : Value Obj) (left right : ParsedValue Obj)
        → left.valid ≡ true
        → right.valid ≡ true
        → nm.values_equal left right c ≡ false
        → All (IsAllowed raw left right) (compare_unequal py nm sheet row cell key c raw left right)
    unfolding compare_unequal difference operation write_safety formula_blocked
    unequal-IsAllowed raw left right l r differs = elim (Bool-cases (is_fuzzy_string c.type)) [
      | inl fuzzy ↦ ground (arith, fuzzy)
      | inr plain ↦
          elim (Bool-cases
            (can_fill py nm sheet row cell key c left right || sheet.actions.overwrite_mismatch)) [
              | inr idle ↦ ground (arith, plain, idle)
              | inl asked ↦ elim (Bool-cases (is_formula_text raw)) [
                | inl formula ↦ ground (arith, plain, asked, formula)
                | inr value ↦ elim (Bool-cases (excel_write_safe py nm right c)) [
                  | inr unsafe ↦ ground (arith, plain, asked, value, unsafe)
                  | inl safe ↦
                      rw (plain, asked, value, safe)
                        (
                          (
                            refl,
                            value,
                            inl (correction left right l r differs plain asked, (safe, refl, refl)),
                          ),
                          tt,
                        )
                ]
              ]
            ]
    ]

    default-IsAllowed :
        (raw : Value Obj) (left right : ParsedValue Obj)
        → IsDefault left right
        → is_formula_text raw ≡ false
        → All (IsAllowed raw left right) (fill_default py nm sheet row cell key c Value.null)
    unfolding fill_default difference operation write_safety
    default-IsAllowed raw left right given plain =
        elim (Bool-cases (excel_write_safe py nm (nm.parse_value c.static_default c) c)) [
          | inr unsafe ↦ ground (arith, unsafe)
          | inl safe ↦ rw safe ((refl, plain, inr (given, (safe, refl, refl))), tt)
        ]

    parsed-IsAllowed :
        (raw : Value Obj) (left right : ParsedValue Obj)
        → All (IsAllowed raw left right) (compare_parsed py nm sheet row cell key c raw left right)
    unfolding compare_parsed difference formula_blocked
    parsed-IsAllowed raw left right = ground (
      arith,
      unequal-IsAllowed raw left right,
      default-IsAllowed raw left right,
      Bool-cases (is_formula_text raw),
      Bool-cases c.fill_static_default,
    )

    raw-IsAllowed :
        (raw left right : Value Obj)
        → All
            (IsAllowed raw (nm.parse_excel_value left c) (nm.parse_value right c))
            (compare_raw py nm sheet row cell key c raw left right)
    unfolding compare_raw
    raw-IsAllowed raw left right =
        ground (arith, parsed-IsAllowed raw (nm.parse_excel_value left c) (nm.parse_value right c))

    -- of a formula's cell nothing is repaired, whatever is compared
    formula-IsAllowed :
        (raw : Value Obj) (left right left' right' : ParsedValue Obj) (entries : List (Entry Obj))
        → is_formula_text raw ≡ true
        → All (IsAllowed raw left right) entries
        → All (IsAllowed raw left' right') entries
    formula-IsAllowed raw left right left' right' [] formula h = tt
    formula-IsAllowed raw left right left' right' (note d ∷ entries) formula h =
        (h.0, formula-IsAllowed raw left right left' right' entries formula h.1)
    formula-IsAllowed raw left right left' right' (fix d op ∷ entries) formula h =
        absurd (ground (arith, formula, h.0))

    cached-IsAllowed :
        (raw left right : Value Obj)
        → is_formula_text raw ≡ true
        → All
            (IsAllowed raw (nm.parse_excel_value raw c) (nm.parse_value right c))
            (compare_raw py nm sheet row cell key c raw left right)
    cached-IsAllowed raw left right formula =
        formula-IsAllowed raw (nm.parse_excel_value left c) (nm.parse_value right c)
          (nm.parse_excel_value raw c) (nm.parse_value right c)
          (compare_raw py nm sheet row cell key c raw left right) formula
          (raw-IsAllowed raw left right)

    -- Every repair planned for a cell of a matched record is planned by its difference, the cell holds
    -- no formula, and it writes a value that Excel can hold: that of the standard, if both values are
    -- valid and differ, the field is no fuzzy text, and the rules overwrite mismatches, or fill and the
    -- cell is empty and the standard is not; or the static default, if the rules fill with it, the
    -- values are valid and equal, and the cell is empty. A difference without a repair plans none.
    pub compare_cell-IsAllowed :
        (snapshot : SheetSnapshot Obj) (excel_record standard_record : Record Obj)
        → let raw = get_cell c.name excel_record in
          All
            (IsAllowed raw
              (nm.parse_excel_value raw c)
              (nm.parse_value (get_cell c.name standard_record) c))
            (compare_cell py nm sheet row cell key c snapshot excel_record standard_record)
    unfolding compare_cell difference
    compare_cell-IsAllowed snapshot excel_record standard_record =
        let left = get_cell c.name excel_record in
        let right = get_cell c.name standard_record in
        ground (
          arith,
          raw-IsAllowed left left right,
          cached-IsAllowed left (snapshot.cached_value cell) right,
        )
