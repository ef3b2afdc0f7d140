-- ===== src/Persistence/Products.antt =====
-- The revisions of the product workflow in persistence.py.
use excel_youhua.Persistence.Catalogs.{CatalogSchemaSnapshot, CategoryCatalogSnapshot}
use excel_youhua.Prelude.{
  ℕ, ◌+◌, String, Bool, ◌&&◌, ◌||◌, Option, none, some, List, [], ◌∷◌, ◌==◌, string_eq, nat_eq,
  if◌then◌else◌, any, ltb, map, nat_beq,
}
use excel_youhua.Prelude.Results.{Result, ok, err, ◌>>=◌, ◌>>◌}
use excel_youhua.Persistence.Rows.{
  ComparisonJobRow, ProductCategorySnapshotRow, ProductWorkflowRevisionRow, ProductReviewItemRow,
}
use excel_youhua.Persistence.Session.{
  not_found, invalid, Platform, Db, Error, add_row, add_event, refers,
}
use excel_youhua.Product.Reviews.Models.{ReviewItem, ReviewType}

-- What `create_product_revision` reads of `ProductNormalizationResult`, and its JSON.
pub record ProductNormalizationResult (Json Time : Type 0) : Type 0 where
  pub category_catalog_snapshot : CategoryCatalogSnapshot Json Time
  pub catalog_snapshots : List (CatalogSchemaSnapshot Json Time)
  pub review_items : List ReviewItem
  pub requires_manual_review : Bool
  pub json : Json

-- The result of `create_product_revision`.
pub record Revision : Type 0 where
  pub revision_id : String
  pub revision_number : ℕ
  pub status : String

abbrev pub type_text : ReviewType → String
type_text ReviewType.category = "category"
type_text ReviewType.field_mapping = "field_mapping"
type_text ReviewType.duplicate_header = "duplicate_header"
type_text ReviewType.schema_conflict = "schema_conflict"

abbrev pub max : ℕ → ℕ → ℕ
max a b = if ltb a b then b else a

module _ (p : Platform) where
  open p use {Json, Time}

  -- `func.max(revision_number)` of the job's revisions, or 0
  abbrev pub max_revision : String → List (ProductWorkflowRevisionRow Json Time) → ℕ
  max_revision job_id [] = 0
  max_revision job_id (r ∷ rows) =
      let rest = max_revision job_id rows in
      if r.job_id == job_id then max r.revision_number rest else rest

  -- the job of the tenant
  abbrev pub own_job : String → String → ComparisonJobRow Json Time → Bool
  own_job job_id tenant_id job = job.id == job_id && job.tenant_id == tenant_id

  abbrev pub is_revision : String → String → ProductWorkflowRevisionRow Json Time → Bool
  is_revision revision_id job_id r = r.id == revision_id && r.job_id == job_id

  -- the tests before a revision is created
  unfoldable pub check_parent : String → Option String → Db p → Result Error (Unit {0})
  check_parent job_id none db = ok tt
  check_parent job_id (some parent) db =
      if any (is_revision parent job_id) db.product_workflow_revisions then ok tt else err invalid

  abbrev pub status_of : Bool → String
  status_of manual = if manual then "manual_review" else "ready"

  abbrev pub has_category_snapshot : String → Db p → Bool
  has_category_snapshot snapshot_id db =
      any (λ (s : ProductCategorySnapshotRow Json Time). s.id == snapshot_id)
        db.product_category_snapshots

  -- the row of the revision, with the constraints that it is checked against
  unfoldable pub add_revision :
      String
      → ProductNormalizationResult Json Time
      → Option String
      → Option String
      → String
      → ℕ
      → Db p
      → Result Error (Db p)
  unfolding add_row
  add_revision job_id result actor_id parent revision_id number db = do
    refers p.foreign_keys (has_category_snapshot result.category_catalog_snapshot.snapshot_id db)
    rows ←
        add_row
          (λ (r : ProductWorkflowRevisionRow Json Time).
            r.id == revision_id || (r.job_id == job_id && nat_beq r.revision_number number))
          (record {
            id = revision_id;
            job_id = job_id;
            revision_number = number;
            parent_revision_id = parent;
            status = status_of result.requires_manual_review;
            category_snapshot_id = some result.category_catalog_snapshot.snapshot_id;
            catalog_snapshot_ids_json =
                map (λ (s : CatalogSchemaSnapshot Json Time). s.snapshot_id)
                  result.catalog_snapshots;
            result_json = result.json;
            created_at = p.now db.calls;
            created_by = actor_id;
          })
          db.product_workflow_revisions
    ok (record db { product_workflow_revisions = rows; calls = db.calls + 1 })

  abbrev pub review_row : String → String → String → Time → ReviewItem → ProductReviewItemRow Time
  review_row job_id revision_id review_id now review = record {
    id = review_id;
    job_id = job_id;
    revision_id = revision_id;
    review_key = review.key;
    review_type = type_text review.review_type;
    status = "pending";
    payload_json = review;
    decision_json = none;
    created_at = now;
    decided_at = none;
    decided_by = none;
  }

  -- the loop over the review items
  unfoldable pub add_reviews : String → String → List ReviewItem → Db p → Result Error (Db p)
  unfolding add_row
  add_reviews job_id revision_id [] db = ok db
  add_reviews job_id revision_id (review ∷ reviews) db = do
    let review_id = p.ulid "review_" db.calls
    rows ←
        add_row
          (λ (r : ProductReviewItemRow Time).
            r.id == review_id || (r.revision_id == revision_id && r.review_key == review.key))
          (review_row job_id revision_id review_id (p.now (db.calls + 1)) review)
          db.product_review_items
    add_reviews job_id revision_id reviews
        (record db { product_review_items = rows; calls = db.calls + 2 })

  -- from the identifier of the revision on
  unfoldable pub write_revision :
      String
      → ProductNormalizationResult Json Time
      → Option String
      → Option String
      → String
      → Db p
      → Result Error (Db p × Revision)
  unfolding add_revision add_reviews add_event
  write_revision job_id result actor_id parent tenant_id db = do
    let number = max_revision job_id db.product_workflow_revisions + 1
    let revision_id = p.ulid "prev_" db.calls
    let status = status_of result.requires_manual_review
    added ←
        add_revision job_id result actor_id parent revision_id number
          (record db { calls = db.calls + 1 })
    reviewed ← add_reviews job_id revision_id result.review_items added
    done ←
        add_event p "product.revision_created" "product_workflow_revision" revision_id actor_id
          (("job_id", p.text job_id)
            ∷ ("revision_number", p.number number)
            ∷ ("status", p.text status)
            ∷ [])
          (some tenant_id) reviewed
    ok (done, record { revision_id = revision_id; revision_number = number; status = status })

  unfoldable pub create_product_revision :
      String
      → ProductNormalizationResult Json Time
      → Option String
      → Option String
      → String
      → Db p
      → Result Error (Db p × Revision)
  unfolding check_parent write_revision
  create_product_revision job_id result actor_id parent tenant_id db = do
    if any (own_job job_id tenant_id) db.comparison_jobs then ok (tt {0}) else err not_found
    check_parent job_id parent db
    write_revision job_id result actor_id parent tenant_id db
