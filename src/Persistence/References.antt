-- ===== src/Persistence/References.antt =====
-- The snapshots that jobs refer to are there.
pub mod Tables
use excel_youhua.Persistence.References.Tables.{
  known_after_add, known_after_update, known_after_keep, known_after_drop, AllKnown,
}
use excel_youhua.Persistence.Inversion.{
  decide_product_review-ok, create_product_revision-ok, add_row-ok, add_event-ok,
}
use excel_youhua.Product.Reviews.Models.{ReviewItem}
use excel_youhua.Persistence.Products.{create_product_revision, add_revision, add_reviews}
use excel_youhua.Persistence.Reviews.{decide_product_review}
use excel_youhua.Persistence.Catalogs.{
  save_product_category_snapshot, save_product_catalog_snapshot,
}
use excel_youhua.Persistence.Schemas.{
  of_version, add_version, save_schema, publish_new, publish_rule,
}
use excel_youhua.Persistence.History.{
  perform-done, perform-failed, Call, perform, run, publish, create, update, snapshot, differences,
  repairs, event, catalog, categories, revision, decide, purge,
}
use excel_youhua.Prelude.Equality.{option_beq}
use excel_youhua.Prelude.Results.{ok-injective, Result-cases, >>=-eq-ok, ok}
use excel_youhua.Persistence.Rows.{ComparisonJobRow, StandardSnapshotRow}
use excel_youhua.Persistence.Jobs.{
  audit, update_row, create_job, has_snapshot, JobPayload, update_job,
}
use excel_youhua.Persistence.Snapshots.{StandardSnapshot, save_snapshot, purge_job, drop_snapshot}
use excel_youhua.Persistence.Differences.{save_differences, mark_repair_results}
use excel_youhua.Persistence.Session.{refers, add_row, update_where, first, Db, Platform}
use excel_youhua.Prelude.{
  sym, All-append, ◌+◌, none, eq_iff, string_eq, any-append_left, not, inr, [], inl, keep, ◌∷◌,
  ◌&&◌, Bool-cases, any, false, Bool, ◌++◌, All, true, some, ◌==◌, Option-cases, Option, String,
  List, ◌≡◌, refl, arith, subst,
}

module _ (p : Platform) where
  abbrev pub IsReferential : Db p → Type 0
  IsReferential db = AllKnown p db.standard_snapshots db.comparison_jobs

  -- neither table has changed
  unchanged :
      (db new : Db p)
      → new.comparison_jobs ≡ db.comparison_jobs
      → new.standard_snapshots ≡ db.standard_snapshots
      → IsReferential db
      → IsReferential new
  unchanged db new j s known = rw (j, s) known

  drop_snapshot-IsReferential :
      (snapshot : Option String) (db : Db p)
      → IsReferential db
      → IsReferential (drop_snapshot p snapshot db)
  unfolding drop_snapshot
  drop_snapshot-IsReferential none db known = known
  drop_snapshot-IsReferential (some gone) db known =
      elim (Bool-cases
        (any (λ j. option_beq j.standard_snapshot_id (some gone)) db.comparison_jobs)) [
          | inl used ↦ rw used known
          | inr unused ↦
              rw unused
                (known_after_drop p gone db.standard_snapshots db.comparison_jobs unused known)
        ]

  purge_job-IsReferential :
      (job tenant : String) (db : Db p)
      → IsReferential db
      → IsReferential (purge_job p job tenant db)
  unfolding purge_job
  purge_job-IsReferential job tenant db known =
      elim (Option-cases (
        first (λ (j : ComparisonJobRow p.Json p.Time). j.id == job && j.tenant_id == tenant)
          db.comparison_jobs)) [
            | inl missing ↦ rw (purge_job, missing) known
            | inr (row, found) ↦
                rw (purge_job, found)
                  (drop_snapshot-IsReferential row.standard_snapshot_id _
                    (known_after_keep p db.standard_snapshots _ db.comparison_jobs known))
          ]

  update_job-IsReferential :
      (payload : JobPayload p.Json) (db : Db p) {new : Db p}
      → p.foreign_keys ≡ true
      → update_job p payload db ≡ ok new
      → IsReferential db
      → IsReferential new
  unfolding update_job
  update_job-IsReferential payload db {new} on h known =
      elim (Option-cases (first (λ j. j.id == payload.job_id) db.comparison_jobs)) [
        | inl missing ↦ unchanged db new (ground (arith, missing)) (ground (arith, missing)) known
        | inr (row, found) ↦
            let (changed, h1, rest) =
              >>=-eq-ok (update_row p payload row) _ (rw (found, update_job) at h) in
            let (_, h2, h3) =
              >>=-eq-ok
                (refers p.foreign_keys
                  (has_snapshot p changed.standard_snapshot_id db.standard_snapshots))
                _ rest in
            let known' =
              known_after_update p db.standard_snapshots payload.job_id changed db.comparison_jobs
                (ground (arith, h2, on)) known in
            subst IsReferential (ok-injective h3) known'
      ]

  create_job-IsReferential :
      (job tenant user : String) (db : Db p) {new : Db p}
      → create_job p job tenant user db ≡ ok new
      → IsReferential db
      → IsReferential new
  unfolding create_job
  create_job-IsReferential job tenant user db h known =
      let (jobs, h1, rest) = >>=-eq-ok (add_row _ _ db.comparison_jobs) _ h in
      let (e, final) =
        add_event-ok p _ _ _ _ _ _ (record db { comparison_jobs = jobs; calls = db.calls + 1 })
          rest in
      let (free, grown) = add_row-ok _ _ db.comparison_jobs h1 in
      rw (final, grown)
        (All-append (λ j. has_snapshot p j.standard_snapshot_id db.standard_snapshots ≡ true)
          db.comparison_jobs (_ ∷ []) known (refl, tt))

  save_snapshot-IsReferential :
      (str : p.Json → String) (s : StandardSnapshot p.Json p.Time) (source tenant : String)
      (key : Option String) (db : Db p) {new : Db p}
      → save_snapshot p str s source tenant key db ≡ ok new
      → IsReferential db
      → IsReferential new
  unfolding save_snapshot
  save_snapshot-IsReferential str s source tenant key db h known =
      let (rows, h1, h2) = >>=-eq-ok (add_row _ _ db.standard_snapshots) _ h in
      let (free, grown) = add_row-ok _ _ db.standard_snapshots h1 in
      subst IsReferential (ok-injective h2)
        (rw grown (known_after_add p db.standard_snapshots _ db.comparison_jobs known))

  -- the calls that leave both tables alone
  abbrev SameTables : Db p → Db p → Type 0
  SameTables db new =
      (new.comparison_jobs ≡ db.comparison_jobs) × (new.standard_snapshots ≡ db.standard_snapshots)

  publish_rule-same :
      (rules : p.RuleSet) (actor : Option String) (tenant : String) (db : Db p) {new : Db p}
      → publish_rule p rules actor tenant db ≡ ok new
      → SameTables db new
  unfolding publish_rule publish_new save_schema add_version
  publish_rule-same rules actor tenant db h =
      elim (Option-cases (
        first (of_version p tenant (p.schema_id rules) (p.schema_version rules))
          db.schema_versions)) [
            | inl none_yet ↦
                let start = record db { calls = db.calls + 1 } in
                let (saved, h1, rest) =
                  >>=-eq-ok (save_schema p rules tenant (p.now db.calls) start) _
                    (rw (none_yet, publish_rule) at h) in
                let (added, h2, h3) =
                  >>=-eq-ok (add_version p rules actor tenant (p.now db.calls) saved) _ rest in
                let (e, final) = add_event-ok p _ _ _ _ _ _ added h3 in
                (ground (arith, h1, h2, final), ground (arith, h1, h2, final))
            | inr (row, found) ↦ (ground (arith, found), ground (arith, found))
          ]

  add_reviews-same :
      (job rev : String) (reviews : List ReviewItem) (db : Db p) {new : Db p}
      → add_reviews p job rev reviews db ≡ ok new
      → SameTables db new
  unfolding add_reviews
  add_reviews-same job rev [] db h = (ground arith, ground arith)
  add_reviews-same job rev (r ∷ rs) db h =
      let (rows, h1, rest) = >>=-eq-ok (add_row _ _ db.product_review_items) _ h in
      add_reviews-same job rev rs (record db { product_review_items = rows; calls = db.calls + 2 })
        rest

  run-IsReferential :
      (call : Call p) (db : Db p) {new : Db p}
      → p.foreign_keys ≡ true
      → run p call db ≡ ok new
      → IsReferential db
      → IsReferential new
  unfolding run mark_repair_results audit save_differences save_product_catalog_snapshot
      save_product_category_snapshot add_revision
  run-IsReferential (publish rules actor tenant) db {new} on h known =
      let (j, s) = publish_rule-same rules actor tenant db h in unchanged db new j s known
  run-IsReferential (create job tenant user) db on h known =
      create_job-IsReferential job tenant user db h known
  run-IsReferential (update payload) db on h known = update_job-IsReferential payload db on h known
  run-IsReferential (snapshot str s source tenant key) db on h known =
      save_snapshot-IsReferential str s source tenant key db h known
  run-IsReferential (differences job items) db {new} on h known =
      unchanged db new (ground arith) (ground arith) known
  run-IsReferential (repairs job results) db {new} on h known =
      unchanged db new (ground arith) (ground arith) known
  run-IsReferential (event action kind id actor metadata tenant) db {new} on h known =
      let (e, final) = add_event-ok p action kind id actor metadata tenant db h in
      unchanged db new (ground (arith, final)) (ground (arith, final)) known
  run-IsReferential (catalog s tenant) db {new} on h known =
      unchanged db new (ground arith) (ground arith) known
  run-IsReferential (categories s tenant) db {new} on h known =
      unchanged db new (ground arith) (ground arith) known
  run-IsReferential (revision job result actor parent tenant) db {new} on h known =
      let (pair, created, final) =
        >>=-eq-ok (create_product_revision p job result actor parent tenant db) _ h in
      let r = create_product_revision-ok p job result actor parent tenant db created in
      let (j, s) = add_reviews-same job _ result.review_items r.added r.review in
      unchanged db new (ground (arith, r.add, r.log, final, j))
        (ground (arith, r.add, r.log, final, s)) known
  run-IsReferential (decide job review decision actor tenant) db {new} on h known =
      let (pair, decided, final) =
        >>=-eq-ok (decide_product_review p job review decision actor tenant db) _ h in
      let (row, e, _, _, rows, _) =
        decide_product_review-ok p job review decision actor tenant db decided in
      unchanged db new (ground (arith, final, rows)) (ground (arith, final, rows)) known
  run-IsReferential (purge job tenant) db on h known =
      subst IsReferential (ok-injective h) (purge_job-IsReferential job tenant db known)

  -- Where the database enforces foreign keys, no job ever refers to a snapshot that is gone: any
  -- calls, purges included, keep every job's snapshot in the table.
  pub perform-IsReferential :
      (calls : List (Call p)) (db : Db p)
      → p.foreign_keys ≡ true
      → IsReferential db
      → IsReferential (perform p calls db)
  unfolding perform
  perform-IsReferential [] db on known = known
  perform-IsReferential (call ∷ calls) db on known = elim (Result-cases (run p call db)) [
    | inl (error, failed) ↦
        subst IsReferential (sym (perform-failed p call calls db failed))
          (perform-IsReferential calls db on known)
    | inr (new, done) ↦
        subst IsReferential (sym (perform-done p call calls db done))
          (perform-IsReferential calls new on (run-IsReferential call db on done known))
  ]
