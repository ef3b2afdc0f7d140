-- ===== src/Engine/Missing/Rows.antt =====
-- The rows that missing records are appended to (engine.py, the loop of `_compare_records` over
-- `standard_only`).
use mathlib.Core.List.{append_assoc, append-nil}
use excel_youhua.Prelude.{
  ℕ, ◌+◌, zero, suc, String, true, false, List, [], ◌∷◌, ◌++◌, map, Option, none, some, ◌≡◌, refl,
  Eq, arith, Bool-cases, inl, inr, ap, ◌∙◌, sym,
}
use excel_youhua.Dict.{Dict}
use excel_youhua.Python.{Python}
use excel_youhua.Engine.Models.{ColumnRule, SheetRule, RepairType, append_record, RepairOperation}
use excel_youhua.Engine.Normalization.{Normalization}
use excel_youhua.Engine.Log.{Log, write, plan, report, operation}
use excel_youhua.Engine.Keys.{Record, Key}
use excel_youhua.Engine.KeyEquality.{key_eq}
use excel_youhua.Engine.Blocked.{write_safety}
use excel_youhua.Engine.Missing.{
  Appending, is_append, parsed, is_appended, write_record, rules, unsafe_write_fields, unsafe_notes,
  missing_entry, missing_step, missing_loop,
}

abbrev row_of : RepairType → Option ℕ → Option ℕ
row_of append_record row = row
row_of _ row = none

abbrev cons_row : Option ℕ → List ℕ → List ℕ
cons_row none ns = ns
cons_row (some n) ns = n ∷ ns

-- The rows of the repairs that append a record.
abbrev pub appended_rows : {Obj : Type 0} → List (RepairOperation Obj) → List ℕ
appended_rows [] = []
appended_rows (op ∷ ops) = cons_row (row_of op.type op.excel_row) (appended_rows ops)

-- `n` rows from `row` on
abbrev pub rows_from : ℕ → ℕ → List ℕ
rows_from row zero = []
rows_from row (suc n) = row ∷ rows_from (row + 1) n

append-appended_rows :
    {Obj : Type 0} (xs ys : List (RepairOperation Obj))
    → appended_rows (xs ++ ys) ≡ appended_rows xs ++ appended_rows ys
append-appended_rows [] ys = refl
append-appended_rows (x ∷ xs) ys = ground (arith, append-appended_rows xs ys)

module _ (py : Python) ⦃e : Eq py.Obj⦄ (nm : Normalization py.Obj) (sheet : SheetRule py.Obj)
    (duplicates : Dict (Key py.Obj) (List ℕ)) (ulid : ℕ → String) where
  open py use {Obj}

  repairs-write_safety :
      (key : Key Obj) (r : Record Obj) (cs : List (ColumnRule Obj)) (log : Log Obj)
      → (write ulid
          (map (λ c. write_safety py sheet none none key c (parsed py nm sheet r c)) cs)
          log).repairs
        ≡ log.repairs
  unfolding write write_safety
  repairs-write_safety key r [] log = refl
  repairs-write_safety key r (c ∷ cs) log = repairs-write_safety key r cs _

  repairs-unsafe_notes :
      (key : Key Obj) (r : Record Obj) (log : Log Obj)
      → (write ulid (unsafe_notes py nm sheet duplicates key r) log).repairs ≡ log.repairs
  unfolding write
  repairs-unsafe_notes key r log = elim (Bool-cases (is_append sheet.actions.missing_record)) [
    | inl asked ↦ rw asked (repairs-write_safety key r (unsafe_write_fields py nm sheet r) log)
    | inr idle ↦ rw idle refl
  ]

  -- The repair of an appended record.
  abbrev pub appending : Key Obj → Record Obj → ℕ → RepairOperation Obj
  appending key r row = record (operation append_record sheet) {
    rule_id = "missing_record.append";
    excel_row = some row;
    values = write_record py nm sheet r (rules py nm sheet);
  }

  pub step-appended :
      (key : Key Obj) (r : Record Obj) (a : Appending Obj)
      → is_appended py nm sheet duplicates key r a.append_row ≡ true
      → let b = missing_step py nm sheet duplicates ulid key r a in
        (b.append_row ≡ a.append_row + 1)
        × ((id : String) × (b.log.repairs
              ≡ a.log.repairs ++ record (appending key r a.append_row) { difference_id = id } ∷ []))
  unfolding missing_step missing_entry write plan
  step-appended key r a h =
      let id = ulid (write ulid (unsafe_notes py nm sheet duplicates key r) a.log).drawn in
      rw h (
        refl,
        (
          id,
          ap (λ ops. ops ++ record (appending key r a.append_row) { difference_id = id } ∷ [])
              (repairs-unsafe_notes key r a.log),
        ),
      )

  pub step-kept :
      (key : Key Obj) (r : Record Obj) (a : Appending Obj)
      → is_appended py nm sheet duplicates key r a.append_row ≡ false
      → let b = missing_step py nm sheet duplicates ulid key r a in
        (b.append_row ≡ a.append_row) × (b.log.repairs ≡ a.log.repairs)
  unfolding missing_step missing_entry write report
  step-kept key r a h = rw h (refl, repairs-unsafe_notes key r a.log)

  -- The loop appends records to the rows from `append_row` on, one after the other, and moves
  -- `append_row` past them.
  pub missing_rows :
      (rs : List (Key Obj × Record Obj)) (a : Appending Obj)
      → let b = missing_loop py nm sheet duplicates ulid rs a in
        (n : ℕ) × (b.append_row ≡ a.append_row + n)
        × (appended_rows b.log.repairs ≡ appended_rows a.log.repairs ++ rows_from a.append_row n)
  unfolding missing_loop operation
  missing_rows [] a = (0, omega arith, sym (append-nil (appended_rows a.log.repairs)))
  missing_rows ((key, r) ∷ rs) a =
      let b = missing_step py nm sheet duplicates ulid key r a in
      let (n, row, rows) = missing_rows rs b in
      elim (Bool-cases (is_appended py nm sheet duplicates key r a.append_row)) [
        | inl appended ↦
            let (next, (id, ops)) = step-appended key r a appended in
            (
              suc n,
              omega (arith, row, next),
              rows
                  ∙ (ap (λ ops. appended_rows ops ++ rows_from b.append_row n) ops
                      ∙ (ap
                            (λ row.
                              appended_rows (
                                a.log.repairs
                                ++ record (appending key r a.append_row) { difference_id = id }
                                  ∷ [])
                              ++ rows_from row n)
                            next
                          ∙ (ap (λ old. old ++ rows_from (a.append_row + 1) n)
                                (append-appended_rows a.log.repairs (
                                  record (appending key r a.append_row) { difference_id = id }
                                  ∷ []))
                              ∙ append_assoc (appended_rows a.log.repairs) (a.append_row ∷ [])
                                  (rows_from (a.append_row + 1) n)))),
            )
        | inr kept ↦
            let (same, ops) = step-kept key r a kept in
            (
              n,
              omega (arith, row, same),
              rows
                  ∙ (ap (λ ops. appended_rows ops ++ rows_from b.append_row n) ops
                      ∙ ap (λ row. appended_rows a.log.repairs ++ rows_from row n) same),
            )
      ]
