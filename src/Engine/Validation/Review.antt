-- ===== src/Engine/Validation/Review.antt =====
-- What the validation of one field may append (engine.py, `_validate_excel_records`).
use mathlib.Core.List.{append_assoc}
use excel_youhua.Prelude.{
  ap, ◌∙◌, ℕ, String, true, false, List, [], ◌∷◌, ◌++◌, Option, none, some, ◌≡◌, refl, Eq,
  string_eq, nat_eq, All, arith, Bool-cases, Option-cases, inl, inr,
}
use excel_youhua.Python.{Python, Value}
use excel_youhua.Engine.Models.{
  ColumnRule, SheetRule, SheetSnapshot, FormulaMode, Cell, ParsedValue, RepairType, RepairOperation,
}
use excel_youhua.Engine.Normalization.{Normalization}
use excel_youhua.Engine.Log.{
  Log, Entry, note, fix, write, write_entry, report, plan, is_planned, difference, operation,
}
use excel_youhua.Engine.Log.Linked.{IsLinked, IsConsistent, write-IsLinked}
use excel_youhua.Engine.Keys.{Key, is_formula_text}
use excel_youhua.Engine.KeyEquality.{value_eq}
use excel_youhua.Engine.Validation.{validate, Failure, display_format}
use excel_youhua.Engine.Validation.Fields.{check_value, check_formula, check_field, failure_note}

module _ {Obj : Type 0} where
  -- The repair changes how a cell is displayed, not what it holds.
  abbrev pub IsFormat : RepairOperation Obj → Type 0
  IsFormat op = op.type ≡ RepairType.set_number_format

  abbrev pub IsReview : Entry Obj → Type 0
  IsReview (note d) = is_planned d.repair_status ≡ false
  IsReview (fix d op) = (is_planned d.repair_status ≡ true) × IsFormat op

  -- The repairs are those of the differences that plan one, in their order, and the ones that follow
  -- these old ones change formats only.
  abbrev pub IsFormatted : List (RepairOperation Obj) → Log Obj → Type 0
  IsFormatted old log =
      IsLinked log
      × ((ops : List (RepairOperation Obj)) × (log.repairs ≡ old ++ ops) × All IsFormat ops)

  review-IsConsistent : (xs : List (Entry Obj)) → All IsReview xs → All IsConsistent xs
  review-IsConsistent [] h = tt
  review-IsConsistent (note d ∷ xs) h = (h.0, review-IsConsistent xs h.1)
  review-IsConsistent (fix d op ∷ xs) h = (h.0.0, review-IsConsistent xs h.1)

  formats-snoc :
      (ops : List (RepairOperation Obj)) (op : RepairOperation Obj)
      → All IsFormat ops
      → IsFormat op
      → All IsFormat (ops ++ op ∷ [])
  formats-snoc [] op hs h = (h, tt)
  formats-snoc (o ∷ ops) op hs h = (hs.0, formats-snoc ops op hs.1 h)

  formats-write :
      (ulid : ℕ → String) (old : List (RepairOperation Obj)) (xs : List (Entry Obj)) (log : Log Obj)
      → All IsReview xs
      → (ops : List (RepairOperation Obj)) × (log.repairs ≡ old ++ ops) × All IsFormat ops
      → (ops : List (RepairOperation Obj)) × ((write ulid xs log).repairs ≡ old ++ ops)
        × All IsFormat ops
  unfolding write write_entry report plan
  formats-write ulid old [] log r h = h
  formats-write ulid old (note d ∷ xs) log r h =
      formats-write ulid old xs (write_entry ulid (note d) log) r.1 h
  formats-write ulid old (fix d op ∷ xs) log r (ops, new, formats) =
      let op' : RepairOperation Obj = record op { difference_id = ulid log.drawn } in
      formats-write ulid old xs (write_entry ulid (fix d op) log) r.1 (
        ops ++ op' ∷ [],
        ap (λ rs. rs ++ op' ∷ []) new ∙ append_assoc old ops (op' ∷ []),
        formats-snoc ops op' formats r.0.1,
      )

  pub write-IsFormatted :
      (ulid : ℕ → String) (old : List (RepairOperation Obj)) (xs : List (Entry Obj)) (log : Log Obj)
      → All IsReview xs
      → IsFormatted old log
      → IsFormatted old (write ulid xs log)
  write-IsFormatted ulid old xs log r h = (
    write-IsLinked ulid xs log (review-IsConsistent xs r) h.0,
    formats-write ulid old xs log r h.1,
  )

  pub All-append :
      (xs ys : List (Entry Obj)) → All IsReview xs → All IsReview ys → All IsReview (xs ++ ys)
  All-append [] ys hs ks = ks
  All-append (x ∷ xs) ys hs ks = (hs.0, All-append xs ys hs.1 ks)

module _ (py : Python) ⦃e : Eq py.Obj⦄ (nm : Normalization py.Obj) (sheet : SheetRule py.Obj)
    (snapshot : SheetSnapshot py.Obj) where
  open py use {Obj}

  module _ (row : ℕ) (cell : Cell) (key : Key Obj) (c : ColumnRule Obj) where
    display_format-IsReview : All IsReview (display_format py nm sheet snapshot row cell key c)
    unfolding display_format difference operation
    display_format-IsReview = elim (Option-cases (snapshot.format_mismatch cell)) [
      | inl same ↦ rw (same, All) tt
      | inr (actual, shown) ↦ elim (Option-cases c.format) [
        | inl free ↦ rw (shown, free, All) tt
        | inr (format, given) ↦ ground (arith, shown, given, Bool-cases c.normalize_display_format)
      ]
    ]

    failure-IsReview :
        (p : ParsedValue Obj) (f : Option Failure)
        → All IsReview (failure_note py nm sheet snapshot row cell key c p f)
    unfolding difference
    failure-IsReview p none = tt
    failure-IsReview p (some f) = (refl, tt)

    value-IsReview :
        (raw : Value Obj)
        → All IsReview (check_value py nm sheet snapshot row cell key c raw).entries
    unfolding check_value difference
    value-IsReview raw =
        let p = nm.parse_excel_value raw c in
        let checked =
          All-append (display_format py nm sheet snapshot row cell key c)
            (failure_note py nm sheet snapshot row cell key c p (validate py nm p c))
            display_format-IsReview (failure-IsReview p (validate py nm p c)) in
        ground (arith, checked, Bool-cases p.valid)

    formula-IsReview :
        (raw : Value Obj) (m : FormulaMode)
        → All IsReview (check_formula py nm sheet snapshot row cell key c raw m).entries
    unfolding difference
    formula-IsReview raw FormulaMode.formula = display_format-IsReview
    formula-IsReview raw FormulaMode.cached_value = value-IsReview (snapshot.cached_value cell)
    formula-IsReview raw FormulaMode.reject = (refl, tt)

    pub field-IsReview :
        (raw : Value Obj)
        → All IsReview (check_field py nm sheet snapshot row cell key c raw).entries
    unfolding check_field
    field-IsReview raw = ground (
      arith,
      formula-IsReview raw c.formula_mode,
      value-IsReview raw,
      Bool-cases (is_formula_text raw),
    )
