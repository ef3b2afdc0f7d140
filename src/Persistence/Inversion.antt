-- ===== src/Persistence/Inversion.antt =====
-- What a call that succeeds has done to the database.
use excel_youhua.Persistence.Products.{
  check_parent, own_job, add_reviews, max_revision, add_revision, Revision, create_product_revision,
  write_revision, ProductNormalizationResult,
}
use excel_youhua.Persistence.Reviews.{action_text, resolve_row, own_review, decide_product_review}
use excel_youhua.Prelude.{eq_iff, inr, inl, Option-cases, ◌==◌, string_eq, some, if◌then◌else◌}
use excel_youhua.Persistence.Rows.{ProductReviewItemRow}
use excel_youhua.Product.Reviews.Models.{ProductReviewDecision}
use excel_youhua.Prelude.{◌≡◌, arith, Bool, false, List, [], ◌∷◌, ◌++◌, any, String, Option, ◌+◌}
use excel_youhua.Prelude.Results.{err, >>=-eq-ok, ok}
use excel_youhua.Dict.{Dict}
use excel_youhua.Persistence.Rows.{AuditEventRow}
use excel_youhua.Persistence.Session.{
  not_found, update_where, first, event, Platform, Db, add_row, add_event,
}

pub add_row-ok {ℓ} :
    {A : Type ℓ} (clashes : A → Bool) (row : A) (rows : List A) {added : List A}
    → add_row clashes row rows ≡ ok added
    → (any clashes rows ≡ false) × (added ≡ rows ++ row ∷ [])
unfolding add_row
add_row-ok clashes row rows h = (ground arith, ground arith)

module _ (p : Platform) where
  pub add_event-ok :
      (action kind id : String) (actor : Option String) (metadata : Dict String p.Json)
      (tenant : Option String) (db : Db p) {new : Db p}
      → add_event p action kind id actor metadata tenant db ≡ ok new
      → (e : AuditEventRow p.Json p.Time) × (new
          ≡ record db { audit_events = db.audit_events ++ e ∷ []; calls = db.calls + 2 })
  unfolding add_event
  add_event-ok action kind id actor metadata tenant db h =
      (event p action kind id actor metadata tenant db.calls, ground arith)

  -- the three parts of a revision that has been written
  pub record IsRevised (job : String) (result : ProductNormalizationResult p.Json p.Time)
      (actor parent : Option String) (tenant : String) (db : Db p) (new : Db p × Revision)
      : Type 0 where
    pub added : Db p
    pub reviewed : Db p
    pub add :
        add_revision p job result actor parent
          (p.ulid "prev_" db.calls)
          (max_revision p job db.product_workflow_revisions + 1)
          (record db { calls = db.calls + 1 })
        ≡ ok added
    pub review : add_reviews p job (p.ulid "prev_" db.calls) result.review_items added ≡ ok reviewed
    pub logged : AuditEventRow p.Json p.Time
    pub log : new.0 ≡ record reviewed {
      audit_events = reviewed.audit_events ++ logged ∷ [];
      calls = reviewed.calls + 2;
    }
    pub revision_id : new.1.revision_id ≡ p.ulid "prev_" db.calls
    pub revision_number :
        new.1.revision_number ≡ max_revision p job db.product_workflow_revisions + 1

  pub write_revision-ok :
      (job : String) (result : ProductNormalizationResult p.Json p.Time)
      (actor parent : Option String) (tenant : String) (db : Db p) {new : Db p × Revision}
      → write_revision p job result actor parent tenant db ≡ ok new
      → IsRevised job result actor parent tenant db new
  unfolding write_revision
  write_revision-ok job result actor parent tenant db h =
      let (added, h1, rest) =
        >>=-eq-ok
          (add_revision p job result actor parent (p.ulid "prev_" db.calls)
            (max_revision p job db.product_workflow_revisions + 1)
            (record db { calls = db.calls + 1 }))
          _ h in
      let (reviewed, h2, rest2) =
        >>=-eq-ok (add_reviews p job (p.ulid "prev_" db.calls) result.review_items added) _ rest in
      let (done, h3, h4) = >>=-eq-ok (add_event p _ _ _ _ _ _ reviewed) _ rest2 in
      let (e, same) = add_event-ok _ _ _ _ _ _ reviewed h3 in
      record {
        added = added;
        reviewed = reviewed;
        add = h1;
        review = h2;
        logged = e;
        log = ground (arith, h4, same);
        revision_id = ground (arith, h4);
        revision_number = ground (arith, h4);
      }

  pub create_product_revision-ok :
      (job : String) (result : ProductNormalizationResult p.Json p.Time)
      (actor parent : Option String) (tenant : String) (db : Db p) {new : Db p × Revision}
      → create_product_revision p job result actor parent tenant db ≡ ok new
      → IsRevised job result actor parent tenant db new
  unfolding create_product_revision
  create_product_revision-ok job result actor parent tenant db h =
      let (_, h1, rest) =
        >>=-eq-ok
          (if any (own_job p job tenant) db.comparison_jobs then ok (tt {0}) else err not_found) _
          h in
      let (_, h2, written) = >>=-eq-ok (check_parent p job parent db) _ rest in
      write_revision-ok job result actor parent tenant db written

  pub decide_product_review-ok :
      (job review : String) (decision : ProductReviewDecision) (actor tenant : String) (db : Db p)
      {new : Db p × ProductReviewItemRow p.Time}
      → decide_product_review p job review decision actor tenant db ≡ ok new
      → (row : ProductReviewItemRow p.Time) × (e : AuditEventRow p.Json p.Time) × (first
            (own_review p job review tenant db)
            db.product_review_items
          ≡ some row)
        × (row.status ≡ "pending")
        × (new.0 ≡ record db {
          product_review_items =
              update_where
                (λ (r : ProductReviewItemRow p.Time). r.id == row.id)
                (resolve_row p decision actor (p.now db.calls))
                db.product_review_items;
          audit_events = db.audit_events ++ e ∷ [];
          calls = db.calls + 3;
        })
        × (new.1 ≡ resolve_row p decision actor (p.now db.calls) row)
  unfolding decide_product_review
  decide_product_review-ok job review decision actor tenant db h =
      elim (Option-cases (first (own_review p job review tenant db) db.product_review_items)) [
        | inl missing ↦ absurd (ground (arith, missing))
        | inr (row, found) ↦ (
          row,
          event p "product.review_decided" "product_review_item" review (some actor)
              (("job_id", p.text job) ∷ ("action", p.text (action_text decision.action)) ∷ [])
              (some tenant) (db.calls + 1),
          found,
          ground (arith, found, eq_iff row.status "pending"),
          ground (arith, found),
          ground (arith, found),
        )
      ]
