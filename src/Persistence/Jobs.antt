-- ===== src/Persistence/Jobs.antt =====
-- The comparison jobs of persistence.py: `create_job`, `update_job` and `audit`.

-- `save_differences`, `mark_repair_results`, `audit` and `purge_job`.
use excel_youhua.Prelude.{
  ℕ, ◌+◌, String, Bool, true, Option, none, some, List, [], ◌∷◌, ◌==◌, string_eq, if◌then◌else◌,
  any,
}
use excel_youhua.Prelude.Results.{Result, ok, err, ◌>>=◌, ◌>>◌}
use excel_youhua.Dict.{Dict}
use excel_youhua.Persistence.Rows.{ComparisonJobRow, StandardSnapshotRow}
use excel_youhua.Persistence.Session.{
  invalid, Platform, Db, Error, first, update_where, add_row, add_event, refers,
}

-- The payload of `update_job`: an entry is absent, or it has a value, which may be `None`.
pub record JobPayload (Json : Type 0) : Type 0 where
  pub job_id : String
  pub status : Option String
  pub progress : Option ℕ
  pub schema_id : Option (Option String)
  pub schema_version : Option (Option String)
  pub standard_snapshot_id : Option (Option String)
  pub input_sha256 : Option (Option String)
  pub output_sha256 : Option (Option String)
  pub error_code : Option (Option String)
  pub error_message_safe : Option (Option String)
  pub summary : Option (Dict String Json)
  pub completed_at : Option String
  pub retention_until : Option String
  pub deleted_at : Option String

-- `if key in payload: setattr(row, key, payload[key])`
abbrev pub updated {ℓ} : {A : Type ℓ} → Option A → A → A
updated none old = old
updated (some new) old = new

module _ (p : Platform) where
  open p use {Json, Time}

  unfoldable pub create_job : String → String → String → Db p → Result Error (Db p)
  unfolding add_row add_event
  create_job job_id tenant_id user_id db = do
    jobs ←
        add_row (λ (j : ComparisonJobRow Json Time). j.id == job_id)
          (record {
            id = job_id;
            tenant_id = tenant_id;
            user_id = user_id;
            schema_id = none;
            schema_version = none;
            standard_snapshot_id = none;
            status = "queued";
            progress = 0;
            input_sha256 = none;
            output_sha256 = none;
            summary_json = [];
            error_code = none;
            error_message_safe = none;
            created_at = p.now db.calls;
            completed_at = none;
            retention_until = none;
            deleted_at = none;
          })
          db.comparison_jobs
    add_event p "comparison.created" "comparison_job" job_id (some user_id)
        (("tenant_id", p.text tenant_id) ∷ []) (some tenant_id)
        (record db { comparison_jobs = jobs; calls = db.calls + 1 })

  -- `if payload.get(key): row.key = datetime.fromisoformat(payload[key])`
  unfoldable pub parsed_time : Option String → Option Time → Result Error (Option Time)
  parsed_time none old = ok old
  parsed_time (some value) old =
      if value == ""
      then ok old
      else elim (p.fromisoformat value) [ none ↦ err invalid | some time ↦ ok (some time) ]

  -- the row with the entries of the payload
  unfoldable pub update_row :
      JobPayload Json → ComparisonJobRow Json Time → Result Error (ComparisonJobRow Json Time)
  unfolding parsed_time
  update_row payload row = do
    completed_at ← parsed_time payload.completed_at row.completed_at
    retention_until ← parsed_time payload.retention_until row.retention_until
    deleted_at ← parsed_time payload.deleted_at row.deleted_at
    ok (record row {
      status = updated payload.status row.status;
      progress = updated payload.progress row.progress;
      schema_id = updated payload.schema_id row.schema_id;
      schema_version = updated payload.schema_version row.schema_version;
      standard_snapshot_id = updated payload.standard_snapshot_id row.standard_snapshot_id;
      input_sha256 = updated payload.input_sha256 row.input_sha256;
      output_sha256 = updated payload.output_sha256 row.output_sha256;
      error_code = updated payload.error_code row.error_code;
      error_message_safe = updated payload.error_message_safe row.error_message_safe;
      summary_json = updated payload.summary row.summary_json;
      completed_at = completed_at;
      retention_until = retention_until;
      deleted_at = deleted_at;
    })

  -- the snapshot that a job refers to is there
  abbrev pub has_snapshot : Option String → List (StandardSnapshotRow Json Time) → Bool
  has_snapshot none rows = true
  has_snapshot (some snapshot_id) rows = any (λ s. s.id == snapshot_id) rows

  unfoldable pub update_job : JobPayload Json → Db p → Result Error (Db p)
  unfolding update_row
  update_job payload db = elim (first (λ j. j.id == payload.job_id) db.comparison_jobs) [
    | none ↦ ok db
    | some row ↦ do
      new ← update_row payload row
      refers p.foreign_keys (has_snapshot new.standard_snapshot_id db.standard_snapshots)
      ok (record db {
        comparison_jobs = update_where (λ j. j.id == payload.job_id) (λ _. new) db.comparison_jobs;
      })
  ]

  unfoldable pub audit :
      String
      → String
      → String
      → Option String
      → Dict String Json
      → Option String
      → Db p
      → Result Error (Db p)
  unfolding add_event
  audit = add_event p
