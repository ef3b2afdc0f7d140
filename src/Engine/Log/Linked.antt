-- ===== src/Engine/Log/Linked.antt =====
-- The repairs and the differences that plan them (engine.py, `differences` and `repairs`).
use mathlib.Core.List.{append-nil}
use excel_youhua.Prelude.{
  ℕ, String, true, false, List, [], ◌∷◌, ◌++◌, ◌≡◌, refl, arith, All, if◌then◌else◌, ◌∙◌, sym,
}
use excel_youhua.Engine.Models.{Difference, RepairOperation}
use excel_youhua.Engine.Log.{Log, Entry, note, fix, is_planned, report, plan, write_entry, write}

module _ {Obj : Type 0} where
  -- The identifiers of the differences that plan a repair.
  abbrev pub planned_ids : List (Difference Obj) → List String
  planned_ids [] = []
  planned_ids (d ∷ ds) =
      let rest = planned_ids ds in
      if is_planned d.repair_status then d.difference_id ∷ rest else rest

  abbrev pub repair_ids : List (RepairOperation Obj) → List String
  repair_ids [] = []
  repair_ids (r ∷ rs) = r.difference_id ∷ repair_ids rs

  -- The repairs are those of the differences that plan one, in their order.
  abbrev pub IsLinked : Log Obj → Type 0
  IsLinked log = planned_ids log.differences ≡ repair_ids log.repairs

  -- A difference with a repair plans one, and one without plans none.
  abbrev pub IsConsistent : Entry Obj → Type 0
  IsConsistent (note d) = is_planned d.repair_status ≡ false
  IsConsistent (fix d r) = is_planned d.repair_status ≡ true

  planned_ids-append :
      (xs ys : List (Difference Obj)) → planned_ids (xs ++ ys) ≡ planned_ids xs ++ planned_ids ys
  planned_ids-append [] ys = refl
  planned_ids-append (x ∷ xs) ys = ground (arith, planned_ids-append xs ys)

  repair_ids-append :
      (xs ys : List (RepairOperation Obj)) → repair_ids (xs ++ ys) ≡ repair_ids xs ++ repair_ids ys
  repair_ids-append [] ys = refl
  repair_ids-append (x ∷ xs) ys = ground (arith, repair_ids-append xs ys)

  module _ (ulid : ℕ → String) where
    pub write_entry-IsLinked :
        (x : Entry Obj) (log : Log Obj)
        → IsConsistent x
        → IsLinked log
        → IsLinked (write_entry ulid x log)
    unfolding write_entry report plan
    write_entry-IsLinked (note d) log c h =
        planned_ids-append log.differences (record d { difference_id = ulid log.drawn } ∷ [])
        ∙ rw (c, append-nil) h
    write_entry-IsLinked (fix d r) log c h =
        planned_ids-append log.differences (record d { difference_id = ulid log.drawn } ∷ [])
        ∙ rw (c, h)
            (sym (repair_ids-append log.repairs (record r { difference_id = ulid log.drawn } ∷ [])))

    pub report-IsLinked :
        (d : Difference Obj) (log : Log Obj)
        → is_planned d.repair_status ≡ false
        → IsLinked log
        → IsLinked (report ulid d log)
    unfolding write_entry
    report-IsLinked d log c h = write_entry-IsLinked (note d) log c h

    pub write-IsLinked :
        (xs : List (Entry Obj)) (log : Log Obj)
        → All IsConsistent xs
        → IsLinked log
        → IsLinked (write ulid xs log)
    unfolding write
    write-IsLinked [] log c h = h
    write-IsLinked (x ∷ xs) log c h =
        write-IsLinked xs (write_entry ulid x log) c.1 (write_entry-IsLinked x log c.0 h)

  pub All-append :
      (xs ys : List (Entry Obj))
      → All IsConsistent xs
      → All IsConsistent ys
      → All IsConsistent (xs ++ ys)
  All-append [] ys hs ks = ks
  All-append (x ∷ xs) ys hs ks = (hs.0, All-append xs ys hs.1 ks)
