-- ===== src/Persistence/Decided/Once.antt =====
-- Over any calls of the repository, a decision on a review stays, and no second one is taken.
use excel_youhua.Prelude.Equality.{beq_refl}
use excel_youhua.Persistence.First.{first_of_any, first-passes}
use excel_youhua.Persistence.Inversion.{decide_product_review-ok}
use excel_youhua.Persistence.Items.{Items, run-Change, has_id, purges}
use excel_youhua.Prelude.Results.{Result-cases, ok}
use excel_youhua.Persistence.Reviews.{resolve_row, own_review, decide_product_review}
use excel_youhua.Persistence.Decided.{
  update_where-ids, first_unique, any_of_first, first-update_where, eq_iff, Change-resolved,
  Change-Distinct, inr, some, inl, false, purges, ◌∷◌, review_ids,
}
use excel_youhua.Persistence.Rows.{ProductReviewItemRow}
use excel_youhua.Product.Reviews.Models.{ProductReviewDecision}
use excel_youhua.Persistence.History.{perform-done, perform-failed, run, empty_db, Call, perform}
use excel_youhua.Persistence.Session.{first, Db, Platform}
use excel_youhua.Prelude.{
  sym, ◌∙◌, true, eq_iff, Bool, [], string_eq, some, false, any, Distinct, List, String, ◌≡◌, arith,
  subst, ◌≢◌,
}

module _ (p : Platform) where
  perform-Distinct :
      (calls : List (Call p)) (db : Db p)
      → Distinct (review_ids db.product_review_items)
      → Distinct (review_ids (perform p calls db).product_review_items)
  unfolding perform
  perform-Distinct [] db d = d
  perform-Distinct (call ∷ calls) db d = elim (Result-cases (run p call db)) [
    | inl (error, failed) ↦ rw (perform-failed p call calls db failed) (perform-Distinct calls db d)
    | inr (new, done) ↦
        rw (perform-done p call calls db done)
          (perform-Distinct calls new (Change-Distinct p call (run-Change p call db done) d))
  ]

  perform-resolved :
      (calls : List (Call p)) (key : String) (db : Db p) {row : ProductReviewItemRow p.Time}
      → Distinct (review_ids db.product_review_items)
      → any (purges row.job_id) calls ≡ false
      → row.status ≡ "resolved"
      → first (has_id key) db.product_review_items ≡ some row
      → (first (has_id key) (perform p calls db).product_review_items ≡ some row)
        × Distinct (review_ids (perform p calls db).product_review_items)
  unfolding perform
  perform-resolved [] key db d kept resolved f = (f, d)
  perform-resolved (call ∷ calls) key db {row} d kept resolved f =
      elim (Result-cases (run p call db)) [
        | inl (error, failed) ↦
            rw (perform-failed p call calls db failed)
              (perform-resolved calls key db d (ground arith) resolved f)
        | inr (new, done) ↦
            let c = run-Change p call db done in
            rw (perform-done p call calls db done) (
              perform-resolved calls key new (Change-Distinct p call c d) (ground arith) resolved
                (Change-resolved p call key c d (ground arith) resolved f))
      ]

  first_of_id :
      (own : ProductReviewItemRow p.Time → Bool) (xs : Items p.Time) (key : String)
      (row : ProductReviewItemRow p.Time)
      → Distinct (review_ids xs)
      → first own xs ≡ some row
      → row.id ≡ key
      → first (has_id key) xs ≡ some row
  first_of_id own xs key row d f same_id =
      let (r, g) =
        first_of_any (has_id key) xs
          (subst (λ k. any (has_id k) xs ≡ true) same_id (any_of_first own xs f)) in
      let r_id = (string_eq.beq_iff r.id key).0 (first-passes (has_id key) xs g) in
      rw (g, first_unique (has_id key) own xs d g f (r_id ∙ sym same_id))

  -- the row that a decision has changed
  decided_row :
      (job review : String) (decision : ProductReviewDecision) (actor tenant : String) (db : Db p)
      {new : Db p × ProductReviewItemRow p.Time}
      → Distinct (review_ids db.product_review_items)
      → decide_product_review p job review decision actor tenant db ≡ ok new
      → (first (has_id review) new.0.product_review_items ≡ some new.1)
        × (new.1.status ≡ "resolved")
        × (new.1.decision_json ≡ some decision)
        × (new.1.job_id ≡ job)
        × Distinct (review_ids new.0.product_review_items)
  unfolding resolve_row
  decided_row job review decision actor tenant db {new} d h =
      let (row, e, found, pending, same_rows, result) =
        decide_product_review-ok p job review decision actor tenant db h in
      let mine = first-passes (own_review p job review tenant db) db.product_review_items found in
      let row_id : row.id ≡ review = ground (arith, mine, eq_iff row.id review) in
      let row_job : row.job_id ≡ job = ground (arith, mine, eq_iff row.job_id job) in
      let f =
        first_of_id (own_review p job review tenant db) db.product_review_items review row d found
          row_id in
      (
        rw (same_rows, result)
            (first-update_where p review row.id decision actor (p.now db.calls)
                db.product_review_items f
              ∙ rw (beq_refl row.id)),
        rw result,
        rw result,
        rw result row_job,
        rw
            (
              same_rows,
              update_where-ids p row.id decision actor (p.now db.calls) db.product_review_items,
            )
            d,
      )

  -- In a database that the repository has filled, a decision that is taken stays the review's until
  -- its job is purged, and no second decision on that review succeeds.
  pub decide_product_review-once :
      (before : List (Call p)) (job review : String) (decision : ProductReviewDecision)
      (actor tenant : String) (after : List (Call p)) (again : ProductReviewDecision)
      (actor' tenant' : String) {new second : Db p × ProductReviewItemRow p.Time}
      → decide_product_review p job review decision actor tenant (perform p before (empty_db p))
        ≡ ok new
      → any (purges job) after ≡ false
      → (first (has_id review) (perform p after new.0).product_review_items ≡ some new.1)
        × (new.1.decision_json ≡ some decision)
        × (decide_product_review p job review again actor' tenant' (perform p after new.0)
            ≢ ok second)
  decide_product_review-once before job review decision actor tenant after again actor' tenant'
        {new} {second} h kept =
      let (f, resolved, decided, own, d) =
        decided_row job review decision actor tenant (perform p before (empty_db p))
          (perform-Distinct before (empty_db p) tt) h in
      let (still, d') = perform-resolved after review new.0 d (rw own kept) resolved f in
      (
        still,
        decided,
        λ twice.
            let (row, e, found, pending, _, _) =
              decide_product_review-ok p job review again actor' tenant' (perform p after new.0)
                twice in
            let mine =
              first-passes (own_review p job review tenant' (perform p after new.0)) _ found in
            let f =
              first_of_id (own_review p job review tenant' (perform p after new.0))
                (perform p after new.0).product_review_items review row d' found
                (ground (arith, mine, eq_iff row.id review)) in
            absurd (ground (arith, f, still, pending, resolved, eq_iff "pending" "resolved")),
      )
