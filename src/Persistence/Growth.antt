-- ===== src/Persistence/Growth.antt =====
-- The rows of rule versions and of audit events only grow, whatever is called.
use excel_youhua.Persistence.Later.{
  IsLater-refl, IsLater-trans, Grows-same, IsLater-same, Grows-refl, IsLater,
}
use excel_youhua.Persistence.Rows.{ProductReviewItemRow}
use excel_youhua.Persistence.History.{
  Call, publish, create, update, snapshot, differences, repairs, event, catalog, categories,
  revision, decide, purge, run, perform,
}
use excel_youhua.Prelude.{inl, inr}
use excel_youhua.Prelude.{subst}
use excel_youhua.Prelude.Results.{Result-cases}
use excel_youhua.Product.Reviews.Models.{ProductReviewDecision, ReviewItem}
use excel_youhua.Prelude.{
  inr, inl, Option-cases, ◌+◌, ◌≡◌, refl, arith, String, Option, List, [], ◌∷◌,
}
use excel_youhua.Prelude.Results.{ok, >>=-eq-ok}
use excel_youhua.Dict.{Dict}
use excel_youhua.Persistence.Session.{first, add_row, Platform, Db, add_event}
use excel_youhua.Persistence.Schemas.{
  of_version, save_schema, add_version, version_row, publish_rule, publish_new,
}
use excel_youhua.Persistence.Inversion.{
  decide_product_review-ok, create_product_revision-ok, add_event-ok,
}
use excel_youhua.Persistence.Jobs.{audit, JobPayload, update_job, create_job}
use excel_youhua.Persistence.Snapshots.{drop_snapshot, StandardSnapshot, purge_job, save_snapshot}
use excel_youhua.Persistence.Differences.{mark_repair_results, DifferenceEntry, save_differences}
use excel_youhua.Persistence.Products.{
  ProductNormalizationResult, create_product_revision, add_revision, Revision, add_reviews,
}
use excel_youhua.Persistence.Reviews.{decide_product_review}
use excel_youhua.Persistence.Catalogs.{
  CategoryCatalogSnapshot, CatalogSchemaSnapshot, save_product_category_snapshot,
  save_product_catalog_snapshot,
}

module _ (p : Platform) where
  pub add_event-IsLater :
      (action kind id : String) (actor : Option String) (metadata : Dict String p.Json)
      (tenant : Option String) (db : Db p) {new : Db p}
      → add_event p action kind id actor metadata tenant db ≡ ok new
      → IsLater p db new
  add_event-IsLater action kind id actor metadata tenant db h =
      let (e, eq) = add_event-ok p action kind id actor metadata tenant db h in
      rw eq (record {
        versions = Grows-refl db.schema_versions;
        faithful = tt;
        events = record { added = e ∷ []; grown = refl };
      })

  save_schema-IsLater :
      (rules : p.RuleSet) (tenant : String) (now : p.Time) (db : Db p) {new : Db p}
      → save_schema p rules tenant now db ≡ ok new
      → IsLater p db new
  unfolding save_schema
  save_schema-IsLater rules tenant now db h = IsLater-same p (ground arith) (ground arith)

  add_version-IsLater :
      (rules : p.RuleSet) (actor : Option String) (tenant : String) (now : p.Time) (db : Db p)
      {new : Db p}
      → add_version p rules actor tenant now db ≡ ok new
      → IsLater p db new
  unfolding add_version
  add_version-IsLater rules actor tenant now db h = record {
    versions = record {
      added = version_row p rules actor tenant now (p.ulid "sv_" db.calls) ∷ [];
      grown = ground arith;
    };
    faithful = ((rules, refl, refl), tt);
    events = Grows-same (ground arith);
  }

  publish_new-IsLater :
      (rules : p.RuleSet) (actor : Option String) (tenant : String) (db : Db p) {new : Db p}
      → publish_new p rules actor tenant db ≡ ok new
      → IsLater p db new
  unfolding publish_new
  publish_new-IsLater rules actor tenant db h =
      let start = record db { calls = db.calls + 1 } in
      let (saved, h1, rest) = >>=-eq-ok (save_schema p rules tenant (p.now db.calls) start) _ h in
      let (added, h2, h3) =
        >>=-eq-ok (add_version p rules actor tenant (p.now db.calls) saved) _ rest in
      IsLater-trans p (IsLater-same p refl refl) (
        IsLater-trans p (save_schema-IsLater rules tenant (p.now db.calls) start h1) (
          IsLater-trans p (add_version-IsLater rules actor tenant (p.now db.calls) saved h2)
            (add_event-IsLater _ _ _ _ _ _ added h3)))

  pub publish_rule-IsLater :
      (rules : p.RuleSet) (actor : Option String) (tenant : String) (db : Db p) {new : Db p}
      → publish_rule p rules actor tenant db ≡ ok new
      → IsLater p db new
  unfolding publish_rule
  publish_rule-IsLater rules actor tenant db h =
      elim (Option-cases (
        first (of_version p tenant (p.schema_id rules) (p.schema_version rules))
          db.schema_versions)) [
            | inl none_yet ↦
                publish_new-IsLater rules actor tenant db (rw (none_yet, publish_rule) at h)
            | inr (existing, found) ↦ IsLater-same p (ground (arith, found)) (ground (arith, found))
          ]

  create_job-IsLater :
      (job tenant user : String) (db : Db p) {new : Db p}
      → create_job p job tenant user db ≡ ok new
      → IsLater p db new
  unfolding create_job
  create_job-IsLater job tenant user db h =
      let (jobs, h1, h2) = >>=-eq-ok (add_row _ _ db.comparison_jobs) _ h in
      IsLater-trans p (IsLater-same p refl refl) (
        add_event-IsLater _ _ _ _ _ _ (record db { comparison_jobs = jobs; calls = db.calls + 1 })
          h2)

  update_job-IsLater :
      (payload : JobPayload p.Json) (db : Db p) {new : Db p}
      → update_job p payload db ≡ ok new
      → IsLater p db new
  unfolding update_job
  update_job-IsLater payload db h = IsLater-same p (ground arith) (ground arith)

  save_differences-IsLater :
      (job : String) (items : List DifferenceEntry) (db : Db p) {new : Db p}
      → save_differences p job items db ≡ ok new
      → IsLater p db new
  unfolding save_differences
  save_differences-IsLater job items db h = IsLater-same p (ground arith) (ground arith)

  save_snapshot-IsLater :
      (str : p.Json → String) (s : StandardSnapshot p.Json p.Time) (source tenant : String)
      (key : Option String) (db : Db p) {new : Db p}
      → save_snapshot p str s source tenant key db ≡ ok new
      → IsLater p db new
  unfolding save_snapshot
  save_snapshot-IsLater str s source tenant key db h = IsLater-same p (ground arith) (ground arith)

  purge_job-IsLater : (job tenant : String) (db : Db p) → IsLater p db (purge_job p job tenant db)
  unfolding purge_job drop_snapshot
  purge_job-IsLater job tenant db = IsLater-same p (ground arith) (ground arith)

  catalog-IsLater :
      (s : CatalogSchemaSnapshot p.Json p.Time) (tenant : String) (db : Db p) {new : Db p}
      → save_product_catalog_snapshot p s tenant db ≡ ok new
      → IsLater p db new
  unfolding save_product_catalog_snapshot
  catalog-IsLater s tenant db h = IsLater-same p (ground arith) (ground arith)

  categories-IsLater :
      (s : CategoryCatalogSnapshot p.Json p.Time) (tenant : String) (db : Db p) {new : Db p}
      → save_product_category_snapshot p s tenant db ≡ ok new
      → IsLater p db new
  unfolding save_product_category_snapshot
  categories-IsLater s tenant db h = IsLater-same p (ground arith) (ground arith)

  add_reviews-IsLater :
      (job rev : String) (reviews : List ReviewItem) (db : Db p) {new : Db p}
      → add_reviews p job rev reviews db ≡ ok new
      → IsLater p db new
  unfolding add_reviews
  add_reviews-IsLater job rev [] db h = IsLater-same p (ground arith) (ground arith)
  add_reviews-IsLater job rev (r ∷ rs) db h =
      let (rows, h1, rest) = >>=-eq-ok (add_row _ _ db.product_review_items) _ h in
      IsLater-trans p (IsLater-same p refl refl) (
        add_reviews-IsLater job rev rs
          (record db { product_review_items = rows; calls = db.calls + 2 }) rest)

  revision-IsLater :
      (job : String) (result : ProductNormalizationResult p.Json p.Time)
      (actor parent : Option String) (tenant : String) (db : Db p) {new : Db p × Revision}
      → create_product_revision p job result actor parent tenant db ≡ ok new
      → IsLater p db new.0
  unfolding add_revision
  revision-IsLater job result actor parent tenant db h =
      let r = create_product_revision-ok p job result actor parent tenant db h in
      IsLater-trans p
        (IsLater-same p {db = db} {new = r.added} (ground (arith, r.add)) (ground (arith, r.add)))
        (IsLater-trans p (add_reviews-IsLater job _ result.review_items r.added r.review) (record {
          versions = Grows-same (ground (arith, r.log));
          faithful = tt;
          events = record { added = r.logged ∷ []; grown = ground (arith, r.log) };
        }))

  decide-IsLater :
      (job review : String) (decision : ProductReviewDecision) (actor tenant : String) (db : Db p)
      {new : Db p × ProductReviewItemRow p.Time}
      → decide_product_review p job review decision actor tenant db ≡ ok new
      → IsLater p db new.0
  decide-IsLater job review decision actor tenant db h =
      let (row, e, _, _, same, _) =
        decide_product_review-ok p job review decision actor tenant db h in
      record {
        versions = Grows-same (ground (arith, same));
        faithful = tt;
        events = record { added = e ∷ []; grown = ground (arith, same) };
      }

  run-IsLater : (call : Call p) (db : Db p) {new : Db p} → run p call db ≡ ok new → IsLater p db new
  unfolding run mark_repair_results audit
  run-IsLater (publish rules actor tenant) db h = publish_rule-IsLater rules actor tenant db h
  run-IsLater (create job tenant user) db h = create_job-IsLater job tenant user db h
  run-IsLater (update payload) db h = update_job-IsLater payload db h
  run-IsLater (snapshot str s source tenant key) db h =
      save_snapshot-IsLater str s source tenant key db h
  run-IsLater (differences job items) db h = save_differences-IsLater job items db h
  run-IsLater (repairs job results) db h = IsLater-same p (ground arith) (ground arith)
  run-IsLater (event action kind id actor metadata tenant) db h =
      add_event-IsLater action kind id actor metadata tenant db h
  run-IsLater (catalog s tenant) db h = catalog-IsLater s tenant db h
  run-IsLater (categories s tenant) db h = categories-IsLater s tenant db h
  run-IsLater (revision job result actor parent tenant) db h =
      let (new, created, same) =
        >>=-eq-ok (create_product_revision p job result actor parent tenant db) _ h in
      subst (IsLater p db) (cc) (revision-IsLater job result actor parent tenant db created)
  run-IsLater (decide job review decision actor tenant) db h =
      let (new, decided, same) =
        >>=-eq-ok (decide_product_review p job review decision actor tenant db) _ h in
      subst (IsLater p db) (cc) (decide-IsLater job review decision actor tenant db decided)
  run-IsLater (purge job tenant) db h = subst (IsLater p db) (cc) (purge_job-IsLater job tenant db)

  pub perform-IsLater : (calls : List (Call p)) (db : Db p) → IsLater p db (perform p calls db)
  unfolding perform
  perform-IsLater [] db = IsLater-refl p db
  perform-IsLater (call ∷ calls) db = elim (Result-cases (run p call db)) [
    | inl (error, failed) ↦ rw failed (perform-IsLater calls db)
    | inr (new, done) ↦
        rw done (IsLater-trans p (run-IsLater call db done) (perform-IsLater calls new))
  ]
