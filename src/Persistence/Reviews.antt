-- ===== src/Persistence/Reviews.antt =====
-- The review items of persistence.py: `list_product_reviews` and `decide_product_review`.
use excel_youhua.Persistence.Products.{own_job, max_revision}
use excel_youhua.Prelude.{
  ◌+◌, String, Bool, true, ◌&&◌, ◌||◌, Option, none, some, List, [], ◌∷◌, ◌==◌, string_eq, nat_eq,
  if◌then◌else◌, keep, any, not, nat_beq,
}
use excel_youhua.Prelude.Results.{Result, ok, err, ◌>>=◌, ◌>>◌}
use excel_youhua.Prelude.Sorting.{sorted}
use excel_youhua.Product.Models.{str_le}
use excel_youhua.Persistence.Rows.{ProductWorkflowRevisionRow, ProductReviewItemRow}
use excel_youhua.Persistence.Session.{
  not_found, invalid, Platform, Db, Error, first, update_where, add_event,
}
use excel_youhua.Product.Reviews.Models.{ProductReviewDecision, Action}

abbrev pub action_text : Action → String
action_text Action.confirm_category = "confirm_category"
action_text Action.confirm_mapping = "confirm_mapping"
action_text Action.keep_extra = "keep_extra"
action_text Action.reject = "reject"

module _ (p : Platform) where
  open p use {Json, Time}

  -- the revision of the job with the highest number, if it has one
  unfoldable pub last_revision :
      String → List (ProductWorkflowRevisionRow Json Time) → Option String
  last_revision job_id rows =
      elim (first
        (λ (r : ProductWorkflowRevisionRow Json Time).
          r.job_id == job_id && nat_beq r.revision_number (max_revision p job_id rows))
        rows) [ none ↦ none | some r ↦ some r.id ]

  abbrev pub with_status : Option String → ProductReviewItemRow Time → Bool
  with_status none row = true
  with_status (some status) row = row.status == status

  -- The rows that `list_product_reviews` gives the payloads of, before they are ordered.
  unfoldable pub selected_reviews :
      String → Option String → Option String → Db p → List (ProductReviewItemRow Time)
  selected_reviews job_id revision status db = elim revision [
    | none ↦ []
    | some revision_id ↦
        keep
          (λ (r : ProductReviewItemRow Time).
            r.job_id == job_id && (r.revision_id == revision_id && with_status status r))
          db.product_review_items
  ]

  -- `order_by(created_at, id)`
  abbrev pub review_le : ProductReviewItemRow Time → ProductReviewItemRow Time → Bool
  review_le a b =
      p.time_le a.created_at b.created_at
      && (not (p.time_le b.created_at a.created_at) || str_le a.id b.id)

  abbrev pub selected_revision : String → Option String → Db p → Option String
  selected_revision job_id none db = last_revision job_id db.product_workflow_revisions
  selected_revision job_id (some revision_id) db = some revision_id

  unfoldable pub list_product_reviews :
      String
      → Option String
      → Option String
      → String
      → Db p
      → Result Error (List (ProductReviewItemRow Time))
  unfolding last_revision selected_reviews sorted
  list_product_reviews job_id revision status tenant_id db = do
    if any (own_job p job_id tenant_id) db.comparison_jobs then ok (tt {0}) else err not_found
    let rows = selected_reviews job_id (selected_revision job_id revision db) status db
    ok (sorted review_le rows)

  -- the review of a job of the tenant, by the join of `decide_product_review`
  abbrev pub own_review : String → String → String → Db p → ProductReviewItemRow Time → Bool
  own_review job_id review_id tenant_id db row =
      row.id == review_id
      && (row.job_id == job_id && any (own_job p row.job_id tenant_id) db.comparison_jobs)

  unfoldable pub resolve_row :
      ProductReviewDecision → String → Time → ProductReviewItemRow Time → ProductReviewItemRow Time
  resolve_row decision actor_id now row = record row {
    status = "resolved";
    decision_json = some decision;
    decided_at = some now;
    decided_by = some actor_id;
  }

  unfoldable pub decide_product_review :
      String
      → String
      → ProductReviewDecision
      → String
      → String
      → Db p
      → Result Error (Db p × ProductReviewItemRow Time)
  unfolding resolve_row add_event
  decide_product_review job_id review_id decision actor_id tenant_id db =
      elim (first (own_review job_id review_id tenant_id db) db.product_review_items) [
        | none ↦ err not_found
        | some row ↦ if not (row.status == "pending") then err invalid else do
          let now = p.now db.calls
          done ←
              add_event p "product.review_decided" "product_review_item" review_id (some actor_id)
                (("job_id", p.text job_id) ∷ ("action", p.text (action_text decision.action)) ∷ [])
                (some tenant_id)
                (record db {
                  product_review_items =
                      update_where (λ (r : ProductReviewItemRow Time). r.id == row.id)
                        (resolve_row decision actor_id now) db.product_review_items;
                  calls = db.calls + 1;
                })
          ok (done, resolve_row decision actor_id now row)
      ]
