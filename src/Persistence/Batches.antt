-- ===== src/Persistence/Batches.antt =====
-- `save_differences` inserts in batches, and `create_product_revision` numbers the revisions.
use excel_youhua.Persistence.Inversion.{add_row-ok}
use mathlib.Core.List.{append_assoc, append-nil}
use excel_youhua.Prelude.Results.{>>=-eq-ok, ok}
use excel_youhua.Persistence.Rows.{DifferenceIndexRow}
use excel_youhua.Persistence.Differences.{
  is_empty, batch_size, difference_row, DifferenceEntry, save_differences, difference_loop,
  insert_batch,
}
use excel_youhua.Persistence.Session.{refers, add_row, Db, Platform}
use excel_youhua.Prelude.{
  string_eq, ◌==◌, any, ◌||◌, inr, inl, length, ◌∙◌, leb, Bool-cases, [], ◌∷◌, map, ◌++◌, String,
  List, ◌≡◌, arith,
}

module _ (p : Platform) where
  insert_batch-ok :
      (batch rows : List (DifferenceIndexRow p.Time)) {new : List (DifferenceIndexRow p.Time)}
      → insert_batch p batch rows ≡ ok new
      → new ≡ rows ++ batch
  unfolding insert_batch
  insert_batch-ok [] rows h = ground (arith, append-nil rows)
  insert_batch-ok (row ∷ batch) rows h =
      let (added, h1, rest) = >>=-eq-ok (add_row _ row rows) _ h in
      let (free, grown) = add_row-ok _ row rows h1 in
      insert_batch-ok batch added rest ∙ rw grown (append_assoc rows (row ∷ []) batch)

  regroup :
      (xs ys : List (DifferenceIndexRow p.Time)) (z : DifferenceIndexRow p.Time)
      (zs : List (DifferenceIndexRow p.Time))
      → (xs ++ (ys ++ z ∷ [])) ++ zs ≡ xs ++ (ys ++ z ∷ zs)
  regroup xs ys z zs = simp append_assoc

  difference_loop-ok :
      (job : String) (now : p.Time) (items : List DifferenceEntry)
      (batch rows : List (DifferenceIndexRow p.Time)) {new : List (DifferenceIndexRow p.Time)}
      → difference_loop p job now items batch rows ≡ ok new
      → new ≡ rows ++ (batch ++ map (difference_row p job now) items)
  unfolding difference_loop
  difference_loop-ok job now [] batch rows h = rw (append-nil batch) (insert_batch-ok batch rows h)
  difference_loop-ok job now (item ∷ items) batch rows h =
      let filled = batch ++ difference_row p job now item ∷ [] in
      elim (Bool-cases (leb batch_size (length filled))) [
        | inl full ↦
            let (added, h1, rest) =
              >>=-eq-ok (insert_batch p filled rows) _ (rw (full, difference_loop) at h) in
            difference_loop-ok job now items [] added rest
            ∙ rw (insert_batch-ok filled rows h1) (regroup rows batch _ _)
        | inr more ↦
            difference_loop-ok job now items filled rows (rw (more, difference_loop) at h)
            ∙ rw (append_assoc batch (difference_row p job now item ∷ []))
      ]

  -- If `save_differences` succeeds, the rows of all differences have been added in their order, each
  -- once, however many batches it took; an empty list adds none.
  pub save_differences_lem :
      (job : String) (items : List DifferenceEntry) (db : Db p) {new : Db p}
      → save_differences p job items db ≡ ok new
      → new.comparison_differences
        ≡ db.comparison_differences ++ map (difference_row p job (p.now db.calls)) items
  unfolding save_differences
  save_differences_lem job items db h =
      let (_, h1, rest) =
        >>=-eq-ok
          (refers p.foreign_keys (is_empty items || any (λ j. j.id == job) db.comparison_jobs)) _
          h in
      let (rows, h2, h3) =
        >>=-eq-ok (difference_loop p job (p.now db.calls) items [] db.comparison_differences) _
          rest in
      ground
        (arith, h3, difference_loop-ok job (p.now db.calls) items [] db.comparison_differences h2)
