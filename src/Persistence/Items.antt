-- ===== src/Persistence/Items.antt =====
-- How the calls of the repository change the table of review items.
use excel_youhua.Prelude.Equality.{beq_refl}
use excel_youhua.Persistence.Schemas.{
  of_version, add_version, save_schema, publish_new, publish_rule,
}
use excel_youhua.Persistence.Inversion.{
  decide_product_review-ok, create_product_revision-ok, add_event-ok, add_row-ok,
}
use excel_youhua.Prelude.Results.{>>=-eq-ok, ok}
use excel_youhua.Product.Reviews.Models.{ProductReviewDecision, ReviewItem}
use excel_youhua.Persistence.Jobs.{update_job, audit, create_job}
use excel_youhua.Persistence.Snapshots.{save_snapshot, drop_snapshot, purge_job}
use excel_youhua.Persistence.Differences.{save_differences, mark_repair_results}
use excel_youhua.Persistence.Products.{
  create_product_revision, add_revision, review_row, add_reviews,
}
use excel_youhua.Persistence.Reviews.{own_review, decide_product_review, resolve_row}
use excel_youhua.Persistence.Catalogs.{
  save_product_category_snapshot, save_product_catalog_snapshot,
}
use excel_youhua.Persistence.History.{
  decide, revision, categories, catalog, event, repairs, differences, snapshot, update, create,
  publish, run, purge, Call,
}
use excel_youhua.Persistence.Rows.{ComparisonJobRow, ProductReviewItemRow}
use excel_youhua.Persistence.Session.{update_where, first, add_row, Db, Platform}
use excel_youhua.Prelude.{
  none, ◌&&◌, Option-cases, Option, string_eq, not, keep, any-weaken, ◌+◌, some, inr, inl, [],
  Bool-cases, ◌∷◌, true, ◌++◌, false, ◌==◌, any, Bool, String, List, ◌≡◌, refl, arith, subst,
}

abbrev pub Items : Type 0 → Type 0
Items Time = List (ProductReviewItemRow Time)

abbrev pub has_id : {T : Type 0} → String → ProductReviewItemRow T → Bool
has_id key row = row.id == key

abbrev pub purges : {p : Platform} → String → Call p → Bool
purges job (purge j tenant) = j == job
purges job _ = false

module _ (p : Platform) where
  -- What a call has done to the review items.
  pub data Change (call : Call p) (xs : Items p.Time) : Items p.Time → Type 0 where
    same : {ys : Items p.Time} → ys ≡ xs → Change call xs ys
    add :
        {ys zs : Items p.Time} (row : ProductReviewItemRow p.Time)
        → Change call xs ys
        → any (has_id row.id) ys ≡ false
        → zs ≡ ys ++ row ∷ []
        → Change call xs zs
    resolve :
        {ys : Items p.Time} (own : ProductReviewItemRow p.Time → Bool)
        (row : ProductReviewItemRow p.Time) (decision : ProductReviewDecision) (actor : String)
        (time : p.Time)
        → first own xs ≡ some row
        → row.status ≡ "pending"
        → ys ≡ update_where (has_id row.id) (resolve_row p decision actor time) xs
        → Change call xs ys
    remove :
        {ys : Items p.Time} (job : String)
        → purges job call ≡ true
        → ys ≡ keep (λ row. not (row.job_id == job)) xs
        → Change call xs ys

  add_reviews-Change :
      (call : Call p) (xs : Items p.Time) (job rev : String) (reviews : List ReviewItem) (db : Db p)
      {new : Db p}
      → Change call xs db.product_review_items
      → add_reviews p job rev reviews db ≡ ok new
      → Change call xs new.product_review_items
  unfolding add_reviews
  add_reviews-Change call xs job rev [] db c h = subst (Change call xs) (ground arith) c
  add_reviews-Change call xs job rev (r ∷ rs) db c h =
      let (rows, h1, rest) = >>=-eq-ok (add_row _ _ db.product_review_items) _ h in
      let (free, grown) = add_row-ok _ _ db.product_review_items h1 in
      add_reviews-Change call xs job rev rs
        (record db { product_review_items = rows; calls = db.calls + 2 })
        (add (review_row p job rev (p.ulid "review_" db.calls) (p.now (db.calls + 1)) r) c
          (any-weaken _ _ db.product_review_items (λ row clash. ground arith) free) grown)
        rest

  drop_snapshot-items :
      (snapshot : Option String) (db : Db p)
      → (drop_snapshot p snapshot db).product_review_items ≡ db.product_review_items
  unfolding drop_snapshot
  drop_snapshot-items none db = refl
  drop_snapshot-items (some s) db = ground arith

  purge_job-Change :
      (call : Call p) (job tenant : String) (db : Db p)
      → purges job call ≡ true
      → Change call db.product_review_items (purge_job p job tenant db).product_review_items
  unfolding purge_job
  purge_job-Change call job tenant db h = elim (Bool-cases p.foreign_keys) [
    | inl on ↦
        elim (Option-cases (
          first (λ (j : ComparisonJobRow p.Json p.Time). j.id == job && j.tenant_id == tenant)
            db.comparison_jobs)) [
              | inl missing ↦ same (ground (arith, missing))
              | inr (row, found) ↦
                  remove job h
                    (rw (purge_job, found, on) (drop_snapshot-items row.standard_snapshot_id _))
            ]
    | inr off ↦ same (ground arith)
  ]

  publish_rule-items :
      (rules : p.RuleSet) (actor : Option String) (tenant : String) (db : Db p) {new : Db p}
      → publish_rule p rules actor tenant db ≡ ok new
      → new.product_review_items ≡ db.product_review_items
  unfolding publish_rule publish_new save_schema add_version
  publish_rule-items rules actor tenant db h =
      elim (Option-cases (
        first (of_version p tenant (p.schema_id rules) (p.schema_version rules))
          db.schema_versions)) [
            | inl none_yet ↦
                let start = record db { calls = db.calls + 1 } in
                let (saved, h1, rest) =
                  >>=-eq-ok (save_schema p rules tenant (p.now db.calls) start) _
                    (rw (none_yet, publish_rule) at h) in
                let (added, h2, h3) =
                  >>=-eq-ok (add_version p rules actor tenant (p.now db.calls) saved) _ rest in
                let (e, same_rows) = add_event-ok p _ _ _ _ _ _ added h3 in
                ground (arith, h1, h2, same_rows)
            | inr (row, found) ↦ ground (arith, found)
          ]

  create_job-items :
      (job tenant user : String) (db : Db p) {new : Db p}
      → create_job p job tenant user db ≡ ok new
      → new.product_review_items ≡ db.product_review_items
  unfolding create_job
  create_job-items job tenant user db h =
      let (jobs, h1, rest) = >>=-eq-ok (add_row _ _ db.comparison_jobs) _ h in
      let (e, same_rows) =
        add_event-ok p _ _ _ _ _ _ (record db { comparison_jobs = jobs; calls = db.calls + 1 })
          rest in
      ground (arith, same_rows)

  pub run-Change :
      (call : Call p) (db : Db p) {new : Db p}
      → run p call db ≡ ok new
      → Change call db.product_review_items new.product_review_items
  unfolding run mark_repair_results audit update_job save_differences save_snapshot
      save_product_catalog_snapshot save_product_category_snapshot add_revision
  run-Change (publish rules actor tenant) db h = same (publish_rule-items rules actor tenant db h)
  run-Change (create job tenant user) db h = same (create_job-items job tenant user db h)
  run-Change (update payload) db h = same (ground arith)
  run-Change (snapshot str s source tenant key) db h = same (ground arith)
  run-Change (differences job items) db h = same (ground arith)
  run-Change (repairs job results) db h = same (ground arith)
  run-Change (event action kind id actor metadata tenant) db h =
      let (e, same_rows) = add_event-ok p action kind id actor metadata tenant db h in
      same (ground (arith, same_rows))
  run-Change (catalog s tenant) db h = same (ground arith)
  run-Change (categories s tenant) db h = same (ground arith)
  run-Change (revision job result actor parent tenant) db h =
      let (new, created, final) =
        >>=-eq-ok (create_product_revision p job result actor parent tenant db) _ h in
      let r = create_product_revision-ok p job result actor parent tenant db created in
      let c =
        add_reviews-Change (revision job result actor parent tenant) db.product_review_items job
          (p.ulid "prev_" db.calls) result.review_items r.added (same (ground (arith, r.add)))
          r.review in
      subst (Change _ db.product_review_items) (ground (arith, r.log, final)) c
  run-Change (decide job review decision actor tenant) db h =
      let (new, decided, final) =
        >>=-eq-ok (decide_product_review p job review decision actor tenant db) _ h in
      let (row, e, found, pending, same_rows, _) =
        decide_product_review-ok p job review decision actor tenant db decided in
      resolve (own_review p job review tenant db) row decision actor (p.now db.calls) found pending
        (ground (arith, final, same_rows))
  run-Change (purge job tenant) db h =
      subst (Change _ db.product_review_items) (ground arith)
        (purge_job-Change (purge job tenant) job tenant db (beq_refl job))
