-- ===== src/Engine/Missing/Safe.antt =====
-- Which missing records are appended (engine.py, the loop of `_compare_records` over `standard_only`).
use excel_youhua.Engine.Writes.{excel_write_safe}
use excel_youhua.Prelude.{
  not, keep, any, Bool, ℕ, suc, String, true, false, List, [], ◌∷◌, ◌++◌, some, ◌≡◌, refl, Eq,
  arith, Bool-cases, inl, inr, All, get_elem?,
}
use excel_youhua.Dict.{Dict, has}
use excel_youhua.Python.{Python}
use excel_youhua.Engine.Models.{SheetRule, RepairOperation}
use excel_youhua.Engine.Normalization.{Normalization}
use excel_youhua.Engine.Keys.{Record, Key, by_mode}
use excel_youhua.Engine.KeyEquality.{key_eq}
use excel_youhua.Engine.Missing.{
  is_empty, rule_values, parsed, is_unsafe_formula, unsafe_write_fields, ColumnRule, Appending,
  is_append, is_row, can_append, is_appended, write_record, rules, missing_step, missing_loop,
}
use excel_youhua.Engine.Missing.Rows.{appending, step-appended, step-kept}

All-snoc {ℓ κ} :
    {A : Type ℓ} (P : A → Type κ) (xs : List A) (y : A) → All P xs → P y → All P (xs ++ y ∷ [])
All-snoc P [] y hs h = (h, tt)
All-snoc P (x ∷ xs) y hs h = (hs.0, All-snoc P xs y hs.1 h)

module _ (py : Python) ⦃e : Eq py.Obj⦄ (nm : Normalization py.Obj) (sheet : SheetRule py.Obj)
    (duplicates : Dict (Key py.Obj) (List ℕ)) (ulid : ℕ → String) where
  open py use {Obj}

  -- Excel can hold each value of the record, and each of its formulas is what the template of its field
  -- gives at the row.
  abbrev pub IsWritable : Record Obj → ℕ → Type 0
  unfolding excel_write_safe is_unsafe_formula
  IsWritable r row =
      All (λ c. excel_write_safe py nm (parsed py nm sheet r c) c ≡ true)
        (rule_values (rules py nm sheet))
      × (any (is_unsafe_formula py nm sheet r row) (rule_values (rules py nm sheet)) ≡ false)

  All-keep :
      (p : ColumnRule Obj → Bool) (cs : List (ColumnRule Obj))
      → is_empty (keep (λ c. not (p c)) cs) ≡ true
      → All (λ c. p c ≡ true) cs
  All-keep p [] h = tt
  All-keep p (c ∷ cs) h = ground (arith, All-keep p cs, Bool-cases (p c))

  can_append-IsWritable :
      (r : Record Obj) (row : ℕ) → can_append py nm sheet r row ≡ true → IsWritable r row
  unfolding can_append unsafe_write_fields
  can_append-IsWritable r row h = (
    All-keep (λ c. excel_write_safe py nm (parsed py nm sheet r c) c)
        (rule_values (rules py nm sheet)) (ground (arith, h)),
    ground (arith, h),
  )

  -- The repair appends one of these records: the rules ask for it, no rows of the workbook share its
  -- key, a key that is a row number is that row's, and its values and formulas can be written there.
  abbrev pub IsSafe : List (Key Obj × Record Obj) → RepairOperation Obj → Type 0
  IsSafe rs op =
      (key : Key Obj) × (r : Record Obj) × (row : ℕ) × (i : ℕ) × (get_elem? rs i ≡ some (key, r))
      × (is_append sheet.actions.missing_record ≡ true)
      × (has key duplicates ≡ false)
      × (by_mode sheet.primary_key_mode (is_row row key) true ≡ true)
      × (can_append py nm sheet r row ≡ true)
      × IsWritable r row
      × (op.excel_row ≡ some row)
      × (op.values ≡ write_record py nm sheet r (rules py nm sheet))

  loop-All :
      (P : RepairOperation Obj → Type 0) (rs : List (Key Obj × Record Obj)) (a : Appending Obj)
      → ((i : ℕ) (key : Key Obj) (r : Record Obj) (row : ℕ) (id : String)
          → get_elem? rs i ≡ some (key, r)
          → is_appended py nm sheet duplicates key r row ≡ true
          → P (record (appending py nm sheet duplicates ulid key r row) { difference_id = id }))
      → All P a.log.repairs
      → All P (missing_loop py nm sheet duplicates ulid rs a).log.repairs
  unfolding missing_loop
  loop-All P [] a new old = old
  loop-All P ((key, r) ∷ rs) a new old =
      let b = missing_step py nm sheet duplicates ulid key r a in
      let rest = loop-All P rs b (λ i. new (suc i)) in
      elim (Bool-cases (is_appended py nm sheet duplicates key r a.append_row)) [
        | inl appended ↦
            let (next, (id, ops)) = step-appended py nm sheet duplicates ulid key r a appended in
            rest
              (rw ops (All-snoc P a.log.repairs _ old (new 0 key r a.append_row id refl appended)))
        | inr kept ↦
            let (same, ops) = step-kept py nm sheet duplicates ulid key r a kept in
            rest (rw ops old)
      ]

  appending-IsSafe :
      (rs : List (Key Obj × Record Obj)) (i : ℕ) (key : Key Obj) (r : Record Obj) (row : ℕ)
      (id : String)
      → get_elem? rs i ≡ some (key, r)
      → is_appended py nm sheet duplicates key r row ≡ true
      → IsSafe rs (record (appending py nm sheet duplicates ulid key r row) { difference_id = id })
  unfolding is_appended
  appending-IsSafe rs i key r row id at h = (
    key,
    r,
    row,
    i,
    at,
    ground (arith, h),
    ground (arith, h),
    ground (arith, h),
    ground (arith, h),
    can_append-IsWritable r row (ground (arith, h)),
    refl,
    refl,
  )

  -- Started without repairs, the loop plans only safe ones.
  pub missing-IsSafe :
      (rs : List (Key Obj × Record Obj)) (a : Appending Obj)
      → a.log.repairs ≡ []
      → All (IsSafe rs) (missing_loop py nm sheet duplicates ulid rs a).log.repairs
  missing-IsSafe rs a fresh = loop-All (IsSafe rs) rs a (appending-IsSafe rs) (rw fresh tt)
