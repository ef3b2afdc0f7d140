-- ===== src/Engine/Records/Linked.antt =====
-- That differences and repairs stay linked (engine.py, the second half of `_compare_records`).
use excel_youhua.Prelude.{
  ℕ, ◌+◌, String, List, [], ◌∷◌, map, none, refl, Eq, string_eq, arith, All, Bool-cases,
  Option-cases, inl, inr,
}
use excel_youhua.Dict.{Dict, get}
use excel_youhua.Python.{Python, Value}
use excel_youhua.Engine.Models.{ColumnRule, SheetRule, SheetSnapshot, Cell, ParsedValue}
use excel_youhua.Engine.Normalization.{Normalization}
use excel_youhua.Engine.Log.{Log, Entry, note, fix, difference, operation}
use excel_youhua.Engine.Log.Linked.{IsLinked, IsConsistent, write-IsLinked, All-append}
use excel_youhua.Engine.Keys.{Record, Key, get_cell, rules_by_name}
use excel_youhua.Engine.Writes.{excel_write_safe}
use excel_youhua.Engine.KeyEquality.{key_eq}
use excel_youhua.Engine.Index.{Index, survivors}
use excel_youhua.Engine.Rows.{Platform}
use excel_youhua.Engine.Blocked.{write_safety}
use excel_youhua.Engine.Cells.{fill_field, fill_default, inserted_field}
use excel_youhua.Engine.Fields.{compare_cell, compare_field, compare_record}
use excel_youhua.Engine.Fields.Allowed.{IsAllowed, compare_cell-IsAllowed}
use excel_youhua.Engine.Missing.{
  Appending, missing_entry, unsafe_notes, unsafe_write_fields, parsed, is_append, is_appended,
  missing_step, missing_loop,
}
use excel_youhua.Engine.Records.{
  sides, after_extra, after_missing, Totals, records_at, default_of, extra_defaults, extra_entries,
  extra_loop, matched_loop, compare_sides,
}

module _ (py : Python) ⦃e : Eq py.Obj⦄ (nm : Normalization py.Obj) (pf : Platform py.Obj)
    (sheet : SheetRule py.Obj) (snapshot : SheetSnapshot py.Obj) (columns : Dict String ℕ) where
  open py use {Obj}

  allowed-IsConsistent :
      (row : ℕ) (cell : Cell) (key : Key Obj) (c : ColumnRule Obj) (raw : Value Obj)
      (left right : ParsedValue Obj) (xs : List (Entry Obj))
      → All (IsAllowed py nm sheet row cell key c raw left right) xs
      → All IsConsistent xs
  allowed-IsConsistent row cell key c raw left right [] h = tt
  allowed-IsConsistent row cell key c raw left right (note d ∷ xs) h =
      (h.0, allowed-IsConsistent row cell key c raw left right xs h.1)
  allowed-IsConsistent row cell key c raw left right (fix d r ∷ xs) h =
      (h.0.0, allowed-IsConsistent row cell key c raw left right xs h.1)

  fill_field-IsConsistent :
      (row : ℕ) (key : Key Obj) (c : ColumnRule Obj) (p : ParsedValue Obj) (shown : Value Obj)
      (rule : String)
      → All IsConsistent (fill_field py nm sheet row key c p shown rule)
  unfolding fill_field difference operation write_safety
  fill_field-IsConsistent row key c p shown rule =
      ground (arith, Bool-cases (excel_write_safe py nm p c))

  inserted-IsConsistent :
      (row : ℕ) (key : Key Obj) (r : Record Obj) (c : ColumnRule Obj)
      → All IsConsistent (inserted_field py nm sheet row key r c)
  unfolding inserted_field difference
  inserted-IsConsistent row key r c = elim (Option-cases c.formula_template) [
    | inr (template, given) ↦ ground (arith, given)
    | inl without ↦ ground (arith, without, fill_field-IsConsistent row key c)
  ]

  default-IsConsistent :
      (row : ℕ) (cell : Cell) (key : Key Obj) (c : ColumnRule Obj) (shown : Value Obj)
      → All IsConsistent (fill_default py nm sheet row cell key c shown)
  unfolding fill_default difference operation write_safety
  default-IsConsistent row cell key c shown =
      ground (arith, Bool-cases (excel_write_safe py nm (nm.parse_value c.static_default c) c))

  field-IsConsistent :
      (row : ℕ) (key : Key Obj) (r s : Record Obj) (c : ColumnRule Obj)
      → All IsConsistent (compare_field py nm sheet snapshot columns row key r s c)
  unfolding compare_field
  field-IsConsistent row key r s c = elim (Option-cases (get c.name columns)) [
    | inl missing ↦ ground (arith, missing, inserted-IsConsistent row key s c)
    | inr (column, here) ↦
        let cell : Cell = record { column = column; row = row } in
        rw (here, All)
          (allowed-IsConsistent row cell key c (get_cell c.name r)
            (nm.parse_excel_value (get_cell c.name r) c) (nm.parse_value (get_cell c.name s) c)
            (compare_cell py nm sheet row cell key c snapshot r s)
            (compare_cell-IsAllowed py nm sheet row cell key c snapshot r s))
  ]

  record-IsConsistent :
      (row : ℕ) (key : Key Obj) (r s : Record Obj) (rules : Dict String (ColumnRule Obj))
      → All IsConsistent (compare_record py nm sheet snapshot columns row key r s rules)
  unfolding compare_record
  record-IsConsistent row key r s [] = tt
  record-IsConsistent row key r s ((name, c) ∷ rules) =
      All-append (compare_field py nm sheet snapshot columns row key r s c) _
        (field-IsConsistent row key r s c) (record-IsConsistent row key r s rules)

  matched-IsLinked :
      (standard : Dict (Key Obj) (Record Obj)) (rs : List (Key Obj × (ℕ × Record Obj)))
      (log : Log Obj)
      → IsLinked log
      → IsLinked (matched_loop py nm pf sheet snapshot columns standard rs log)
  unfolding matched_loop
  matched-IsLinked standard [] log h = h
  matched-IsLinked standard ((key, (row, r)) ∷ rs) log h = elim (Option-cases (get key standard)) [
    | inl gone ↦ rw (gone, matched_loop) (matched-IsLinked standard rs log h)
    | inr (s, there) ↦
        rw (there, matched_loop)
          (matched-IsLinked standard rs _ (
            write-IsLinked pf.ulid _ log
              (record-IsConsistent row key r s (rules_by_name sheet.columns [])) h))
  ]

  extra_defaults-IsConsistent :
      (row : ℕ) (key : Key Obj) (r : Record Obj) (cols : Dict String ℕ)
      → All IsConsistent (extra_defaults py nm pf sheet snapshot columns row key r cols)
  unfolding extra_defaults
  extra_defaults-IsConsistent row key r [] = tt
  extra_defaults-IsConsistent row key r ((name, column) ∷ cols) =
      let rest = extra_defaults-IsConsistent row key r cols in
      elim (Option-cases (get name (rules_by_name sheet.columns []))) [
        | inl gone ↦ rw (gone, All) rest
        | inr (c, here) ↦
            let cell : Cell = record { column = column; row = row } in
            rw (here, All)
              (All-append (default_of py nm pf sheet snapshot columns row key r cell c) _
                (ground (arith, default-IsConsistent row cell key c)) rest)
      ]

  extra-IsLinked :
      (rs : List (Key Obj × (ℕ × Record Obj))) (log : Log Obj)
      → IsLinked log
      → IsLinked (extra_loop py nm pf sheet snapshot columns rs log)
  unfolding extra_loop extra_entries difference
  extra-IsLinked [] log h = h
  extra-IsLinked ((key, (row, r)) ∷ rs) log h = extra-IsLinked rs _ (
      write-IsLinked pf.ulid (extra_entries py nm pf sheet snapshot columns key row r) log
        (refl, extra_defaults-IsConsistent row key r columns) h)

  notes-IsConsistent :
      (key : Key Obj) (r : Record Obj) (cs : List (ColumnRule Obj))
      → All IsConsistent
          (map (λ c. write_safety py sheet none none key c (parsed py nm sheet r c)) cs)
  unfolding write_safety difference
  notes-IsConsistent key r [] = tt
  notes-IsConsistent key r (c ∷ cs) = (refl, notes-IsConsistent key r cs)

  module _ (duplicates : Dict (Key Obj) (List ℕ)) where
    unsafe_notes-IsConsistent :
        (key : Key Obj) (r : Record Obj)
        → All IsConsistent (unsafe_notes py nm sheet duplicates key r)
    unsafe_notes-IsConsistent key r = ground (
      arith,
      notes-IsConsistent key r (unsafe_write_fields py nm sheet r),
      Bool-cases (is_append sheet.actions.missing_record),
    )

    missing_entry-IsConsistent :
        (key : Key Obj) (r : Record Obj) (row : ℕ)
        → IsConsistent (missing_entry py nm sheet duplicates key r row)
    unfolding missing_entry difference
    missing_entry-IsConsistent key r row =
        elim (Bool-cases (is_appended py nm sheet duplicates key r row)) [
          | inl appended ↦ rw appended refl
          | inr kept ↦ rw kept refl
        ]

    missing-IsLinked :
        (rs : List (Key Obj × Record Obj)) (a : Appending Obj)
        → IsLinked a.log
        → IsLinked (missing_loop py nm sheet duplicates pf.ulid rs a).log
    unfolding missing_loop missing_step
    missing-IsLinked [] a h = h
    missing-IsLinked ((key, r) ∷ rs) a h =
        missing-IsLinked rs (missing_step py nm sheet duplicates pf.ulid key r a) (
          write-IsLinked pf.ulid (missing_entry py nm sheet duplicates key r a.append_row ∷ []) _
            (missing_entry-IsConsistent key r a.append_row, tt)
            (write-IsLinked pf.ulid (unsafe_notes py nm sheet duplicates key r) a.log
              (unsafe_notes-IsConsistent key r) h))

  -- If the repairs so far are those of the differences that plan one, they still are after the loops
  -- over the extra, the missing and the matched records.
  pub compare_sides-IsLinked :
      (ix : Index (Key Obj) (Record Obj)) (standard : Dict (Key Obj) (Record Obj)) (t : Totals Obj)
      → IsLinked t.log
      → IsLinked (compare_sides py nm pf sheet snapshot columns ix standard t).log
  unfolding compare_sides after_missing after_extra
  compare_sides-IsLinked ix standard t h =
      let extra = after_extra py nm pf sheet snapshot columns ix standard t.log in
      let j = sides py nm pf sheet snapshot columns ix standard in
      matched-IsLinked standard (records_at (survivors ix) j.matched_keys)
        (after_missing py nm pf sheet snapshot columns ix standard extra).log
        (missing-IsLinked ix.duplicates (records_at standard j.standard_only)
          (record { append_row = snapshot.max_row + 1; log = extra })
          (extra-IsLinked (records_at (survivors ix) j.excel_only) t.log h))
