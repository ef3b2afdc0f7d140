-- ===== src/Persistence/Snapshots.antt =====
-- The standard snapshots of persistence.py, and the jobs that are purged with theirs:
-- `save_snapshot` and `purge_job`.
use excel_youhua.Prelude.Equality.{option_beq}
use excel_youhua.Persistence.Rows.{
  StandardSnapshotRow, ProductReviewItemRow, ProductWorkflowRevisionRow, DifferenceIndexRow,
  ComparisonJobRow,
}
use excel_youhua.Prelude.Results.{ok, ◌>>=◌, Result}
use excel_youhua.Dict.{get, Dict}
use excel_youhua.Persistence.Session.{Error, first, Db, add_row, Platform}
use excel_youhua.Prelude.{
  string_eq, ◌&&◌, not, none, any, keep, ◌==◌, if◌then◌else◌, some, List, Option, ℕ, String,
}

-- `StandardSnapshot`
pub record StandardSnapshot (Json Time : Type 0) : Type 0 where
  pub snapshot_id : String
  pub path : String
  pub sha256 : String
  pub record_count : ℕ
  pub fetched_at : Time
  pub metadata : Dict String Json

module _ (p : Platform) where
  open p use {Json, Time}

  -- `str(snapshot.metadata.get(key, ""))`, with `str` of a JSON value
  abbrev pub metadata_text : (Json → String) → String → Dict String Json → String
  metadata_text str key metadata = elim (get key metadata) [ none ↦ "" | some value ↦ str value ]

  -- `object_key or str(snapshot.path)`
  abbrev pub or_path : Option String → String → String
  or_path none path = path
  or_path (some key) path = if key == "" then path else key

  unfoldable pub save_snapshot :
      (Json → String)
      → StandardSnapshot Json Time
      → String
      → String
      → Option String
      → Db p
      → Result Error (Db p)
  unfolding add_row get
  save_snapshot str snapshot source_type tenant_id object_key db = do
    snapshots ←
        add_row (λ (s : StandardSnapshotRow Json Time). s.id == snapshot.snapshot_id)
          (record {
            id = snapshot.snapshot_id;
            source_type = source_type;
            object_key = or_path object_key snapshot.path;
            content_sha256 = snapshot.sha256;
            record_count = snapshot.record_count;
            fetched_at = snapshot.fetched_at;
            metadata_json = snapshot.metadata;
            tenant_id = tenant_id;
            schema_id = metadata_text str "schema_id" snapshot.metadata;
            schema_version = metadata_text str "schema_version" snapshot.metadata;
            status = "ready";
            expires_at = none;
          })
          db.standard_snapshots
    ok (record db { standard_snapshots = snapshots })

  -- The rows that `ON DELETE CASCADE` removes with a job.
  abbrev pub cascade : {Row : Type 0} → (Row → String) → String → List Row → List Row
  cascade job_of job_id rows =
      if p.foreign_keys then keep (λ row. not (job_of row == job_id)) rows else rows

  -- the snapshot goes with the last job that refers to it
  unfoldable pub drop_snapshot : Option String → Db p → Db p
  drop_snapshot none db = db
  drop_snapshot (some snapshot_id) db =
      if any
        (λ (j : ComparisonJobRow Json Time). option_beq j.standard_snapshot_id (some snapshot_id))
        db.comparison_jobs
      then db
      else record db {
        standard_snapshots = keep (λ s. not (s.id == snapshot_id)) db.standard_snapshots;
      }

  unfoldable pub purge_job : String → String → Db p → Db p
  unfolding drop_snapshot
  purge_job job_id tenant_id db =
      elim (first (λ (j : ComparisonJobRow Json Time). j.id == job_id && j.tenant_id == tenant_id)
        db.comparison_jobs) [
          | none ↦ db
          | some job ↦ drop_snapshot job.standard_snapshot_id (record db {
            comparison_jobs =
                keep (λ (j : ComparisonJobRow Json Time). not (j.id == job_id)) db.comparison_jobs;
            comparison_differences =
                keep (λ (d : DifferenceIndexRow Time). not (d.job_id == job_id))
                  db.comparison_differences;
            product_workflow_revisions =
                cascade (λ (r : ProductWorkflowRevisionRow Json Time). r.job_id) job_id
                  db.product_workflow_revisions;
            product_review_items =
                cascade (λ (r : ProductReviewItemRow Time). r.job_id) job_id
                  db.product_review_items;
          })
        ]
