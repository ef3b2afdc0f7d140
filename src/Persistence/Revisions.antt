-- ===== src/Persistence/Revisions.antt =====
-- The numbers of a job's revisions.
use excel_youhua.Persistence.First.{first-append_new}
use excel_youhua.Product.Reviews.Models.{ReviewItem}
use excel_youhua.Persistence.Inversion.{create_product_revision-ok}
use excel_youhua.Prelude.Results.{>>=-eq-ok, ok}
use excel_youhua.Persistence.Products.{
  status_of, add_revision, add_reviews, create_product_revision, Revision, max_revision,
  ProductNormalizationResult,
}
use excel_youhua.Persistence.Reviews.{last_revision}
use excel_youhua.Persistence.Catalogs.{CatalogSchemaSnapshot}
use excel_youhua.Persistence.Rows.{ProductWorkflowRevisionRow}
use excel_youhua.Persistence.Session.{add_row, first, Db, Platform}
use excel_youhua.Prelude.{
  string_eq, ap, map, nat_beq, ◌∙◌, ◌&&◌, [], none, ◌==◌, eq_iff, ◌+◌, Bool, ◌∷◌, ◌++◌, ℕ, some,
  Option, All, String, List, ◌≡◌, refl, arith, ◌<◌,
}

abbrev pub Revisions : Platform → Type 0
Revisions p = List (ProductWorkflowRevisionRow p.Json p.Time)

module _ (p : Platform) where
  -- no revision of the job has a higher number
  below_max :
      (job : String) (n : ℕ) (rows : Revisions p)
      → max_revision p job rows < n
      → All (λ r. r.job_id ≡ job → r.revision_number < n) rows
  below_max job n [] h = tt
  below_max job n (r ∷ rows) h =
      (λ own. ground (arith, eq_iff r.job_id job), below_max job n rows (ground arith))

  numbered : String → ℕ → ProductWorkflowRevisionRow p.Json p.Time → Bool
  numbered job n r = r.job_id == job && nat_beq r.revision_number n

  first-above_max :
      (job : String) (n : ℕ) (rows : Revisions p)
      → max_revision p job rows < n
      → first (numbered job n) rows ≡ none
  unfolding numbered
  first-above_max job n [] h = refl
  first-above_max job n (r ∷ rows) h = ground (arith, first-above_max job n rows)

  max-append :
      (job : String) (rows : Revisions p) (r : ProductWorkflowRevisionRow p.Json p.Time)
      → r.job_id ≡ job
      → max_revision p job rows < r.revision_number
      → max_revision p job (rows ++ r ∷ []) ≡ r.revision_number
  max-append job [] r own h = ground (arith, eq_iff r.job_id job)
  max-append job (x ∷ rows) r own h = ground (arith, max-append job rows r)

  add_reviews-revisions :
      (job rev : String) (reviews : List ReviewItem) (db : Db p) {new : Db p}
      → add_reviews p job rev reviews db ≡ ok new
      → new.product_workflow_revisions ≡ db.product_workflow_revisions
  unfolding add_reviews
  add_reviews-revisions job rev [] db h = ground arith
  add_reviews-revisions job rev (r ∷ rs) db h =
      let (rows, h1, rest) = >>=-eq-ok (add_row _ _ db.product_review_items) _ h in
      add_reviews-revisions job rev rs
        (record db { product_review_items = rows; calls = db.calls + 2 }) rest

  add_revision-ok :
      (job : String) (result : ProductNormalizationResult p.Json p.Time)
      (actor parent : Option String) (rev : String) (number : ℕ) (db : Db p) {new : Db p}
      → add_revision p job result actor parent rev number db ≡ ok new
      → (row : ProductWorkflowRevisionRow p.Json p.Time) × (new.product_workflow_revisions
          ≡ db.product_workflow_revisions ++ row ∷ [])
        × (row.id ≡ rev)
        × (row.job_id ≡ job)
        × (row.revision_number ≡ number)
  unfolding add_revision
  add_revision-ok job result actor parent rev number db h = (
    record {
      id = rev;
      job_id = job;
      revision_number = number;
      parent_revision_id = parent;
      status = status_of p result.requires_manual_review;
      category_snapshot_id = some result.category_catalog_snapshot.snapshot_id;
      catalog_snapshot_ids_json =
          map (λ (s : CatalogSchemaSnapshot p.Json p.Time). s.snapshot_id) result.catalog_snapshots;
      result_json = result.json;
      created_at = p.now db.calls;
      created_by = actor;
    },
    ground arith,
    refl,
    refl,
    refl,
  )

  last_revision-append :
      (job : String) (rows : Revisions p) (row : ProductWorkflowRevisionRow p.Json p.Time)
      → max_revision p job rows < row.revision_number
      → row.job_id ≡ job
      → last_revision p job (rows ++ row ∷ []) ≡ some row.id
  unfolding last_revision numbered
  last_revision-append job rows row h own =
      let found =
        first-append_new (numbered job row.revision_number) rows row
          (first-above_max job row.revision_number rows h)
          (ground (arith, eq_iff row.job_id job)) in
      ground (arith, max-append job rows row own h, found)

  -- If a revision of a job is created, its number is higher than that of every revision that the job
  -- had, it is the one that `list_product_reviews` takes as the job's last.
  pub create_product_revision_last :
      (job : String) (result : ProductNormalizationResult p.Json p.Time)
      (actor parent : Option String) (tenant : String) (db : Db p) {new : Db p × Revision}
      → create_product_revision p job result actor parent tenant db ≡ ok new
      → All
          (λ r. r.job_id ≡ job → r.revision_number < new.1.revision_number)
          db.product_workflow_revisions
        × (last_revision p job new.0.product_workflow_revisions ≡ some new.1.revision_id)
  create_product_revision_last job result actor parent tenant db {new} h =
      let r = create_product_revision-ok p job result actor parent tenant db h in
      let rows = db.product_workflow_revisions in
      let number = max_revision p job rows + 1 in
      let (row, grown, row_id, own, row_number) =
        add_revision-ok job result actor parent (p.ulid "prev_" db.calls) number _ r.add in
      let final : new.0.product_workflow_revisions ≡ rows ++ row ∷ [] =
        ground
          (arith, r.log, grown, add_reviews-revisions job _ result.review_items r.added r.review) in
      (
        rw r.revision_number (below_max job number rows (omega arith)),
        rw (final, r.revision_id)
            (last_revision-append job rows row (omega (arith, row_number)) own ∙ ap some row_id),
      )
