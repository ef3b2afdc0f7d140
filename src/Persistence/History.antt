-- ===== src/Persistence/History.antt =====
-- The calls of the repository one after the other. A call that raises is rolled back: it leaves the
-- database as it was.
use excel_youhua.Prelude.{ap, ◌≡◌, String, Option, List, [], ◌∷◌}
use excel_youhua.Prelude.Results.{Result, ok, err, ◌>>=◌}
use excel_youhua.Dict.{Dict}
use excel_youhua.Persistence.Session.{Platform, Db, Error}
use excel_youhua.Persistence.Schemas.{publish_rule}
use excel_youhua.Persistence.Jobs.{JobPayload, create_job, update_job, audit}
use excel_youhua.Persistence.Snapshots.{StandardSnapshot, save_snapshot, purge_job}
use excel_youhua.Persistence.Differences.{DifferenceEntry, save_differences, mark_repair_results}
use excel_youhua.Persistence.Products.{ProductNormalizationResult, create_product_revision}
use excel_youhua.Persistence.Reviews.{decide_product_review}
use excel_youhua.Persistence.Catalogs.{
  CatalogSchemaSnapshot, CategoryCatalogSnapshot, save_product_catalog_snapshot,
  save_product_category_snapshot,
}
use excel_youhua.Product.Reviews.Models.{ProductReviewDecision}

-- A call of a method that writes, with its arguments.
pub data Call (p : Platform) : Type 0 where
  publish : p.RuleSet → Option String → String → Call p
  create : String → String → String → Call p
  update : JobPayload p.Json → Call p
  snapshot :
      (p.Json → String) → StandardSnapshot p.Json p.Time → String → String → Option String → Call p
  differences : String → List DifferenceEntry → Call p
  repairs : String → Dict String String → Call p
  event : String → String → String → Option String → Dict String p.Json → Option String → Call p
  catalog : CatalogSchemaSnapshot p.Json p.Time → String → Call p
  categories : CategoryCatalogSnapshot p.Json p.Time → String → Call p
  revision :
      String
      → ProductNormalizationResult p.Json p.Time
      → Option String
      → Option String
      → String
      → Call p
  decide : String → String → ProductReviewDecision → String → String → Call p
  purge : String → String → Call p

module _ (p : Platform) where
  unfoldable pub run : Call p → Db p → Result Error (Db p)
  run (publish rules actor tenant) db = publish_rule p rules actor tenant db
  run (create job tenant user) db = create_job p job tenant user db
  run (update payload) db = update_job p payload db
  run (snapshot str s source tenant key) db = save_snapshot p str s source tenant key db
  run (differences job items) db = save_differences p job items db
  run (repairs job results) db = ok (mark_repair_results p job results db)
  run (event action kind id actor metadata tenant) db =
      audit p action kind id actor metadata tenant db
  run (catalog s tenant) db = save_product_catalog_snapshot p s tenant db
  run (categories s tenant) db = save_product_category_snapshot p s tenant db
  run (revision job result actor parent tenant) db = do
    created ← create_product_revision p job result actor parent tenant db
    ok created.0
  run (decide job review decision actor tenant) db = do
    decided ← decide_product_review p job review decision actor tenant db
    ok decided.0
  run (purge job tenant) db = ok (purge_job p job tenant db)

  abbrev pub committed : Db p → Result Error (Db p) → Db p
  committed db (ok new) = new
  committed db (err error) = db

  unfoldable pub perform : List (Call p) → Db p → Db p
  unfolding run
  perform [] db = db
  perform (call ∷ calls) db = perform calls (committed db (run call db))

  pub perform-failed :
      (call : Call p) (calls : List (Call p)) (db : Db p) {error : Error}
      → run call db ≡ err error
      → perform (call ∷ calls) db ≡ perform calls db
  unfolding perform
  perform-failed call calls db h = ap (λ r. perform calls (committed db r)) h

  pub perform-done :
      (call : Call p) (calls : List (Call p)) (db : Db p) {new : Db p}
      → run call db ≡ ok new
      → perform (call ∷ calls) db ≡ perform calls new
  unfolding perform
  perform-done call calls db h = ap (λ r. perform calls (committed db r)) h

  abbrev pub empty_db : Db p
  empty_db = record {
    schemas = [];
    schema_versions = [];
    standard_snapshots = [];
    comparison_jobs = [];
    comparison_differences = [];
    audit_events = [];
    product_catalog_snapshots = [];
    product_category_snapshots = [];
    product_workflow_revisions = [];
    product_review_items = [];
    calls = 0;
  }
