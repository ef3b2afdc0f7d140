-- ===== src/Persistence/Rows.antt =====
-- The tables of persistence.py: a record for each row class, and the database as the lists of rows.
-- What SQLAlchemy stores as JSON of a review or of a decision is kept as that record.
use excel_youhua.Prelude.{ℕ, String, List, Option}
use excel_youhua.Dict.{Dict}
use excel_youhua.Product.Reviews.Models.{ReviewItem, ProductReviewDecision}

pub record SchemaRow (Time : Type 0) : Type 0 where
  pub id : String
  pub tenant_id : String
  pub schema_id : String
  pub name : String
  pub description : Option String
  pub current_version : Option String
  pub created_at : Time
  pub updated_at : Time

pub record SchemaVersionRow (Json Time : Type 0) : Type 0 where
  pub id : String
  pub tenant_id : String
  pub schema_id : String
  pub version : String
  pub status : String
  pub config_json : Json
  pub config_sha256 : String
  pub published_at : Time
  pub created_by : Option String
  pub change_summary : Option String

pub record StandardSnapshotRow (Json Time : Type 0) : Type 0 where
  pub id : String
  pub source_type : String
  pub object_key : String
  pub content_sha256 : String
  pub record_count : ℕ
  pub fetched_at : Time
  pub metadata_json : Dict String Json
  pub tenant_id : String
  pub schema_id : String
  pub schema_version : String
  pub status : String
  pub expires_at : Option Time

pub record ComparisonJobRow (Json Time : Type 0) : Type 0 where
  pub id : String
  pub tenant_id : String
  pub user_id : String
  pub schema_id : Option String
  pub schema_version : Option String
  pub standard_snapshot_id : Option String
  pub status : String
  pub progress : ℕ
  pub input_sha256 : Option String
  pub output_sha256 : Option String
  pub summary_json : Dict String Json
  pub error_code : Option String
  pub error_message_safe : Option String
  pub created_at : Time
  pub completed_at : Option Time
  pub retention_until : Option Time
  pub deleted_at : Option Time

pub record DifferenceIndexRow (Time : Type 0) : Type 0 where
  pub id : String
  pub job_id : String
  pub type : String
  pub severity : String
  pub sheet_id : String
  pub cell_ref : Option String
  pub canonical_field : Option String
  pub business_key_hash : Option String
  pub message_safe : String
  pub render_action : String
  pub repair_status : String
  pub created_at : Time

pub record AuditEventRow (Json Time : Type 0) : Type 0 where
  pub id : String
  pub tenant_id : Option String
  pub actor_id : Option String
  pub action : String
  pub resource_type : String
  pub resource_id : String
  pub metadata_json : Dict String Json
  pub occurred_at : Time

pub record ProductCatalogSnapshotRow (Json Time : Type 0) : Type 0 where
  pub id : String
  pub tenant_id : String
  pub connection_id : String
  pub category_id : String
  pub content_sha256 : String
  pub fields_json : List Json
  pub source_metadata_json : Dict String Json
  pub captured_at : Time

pub record ProductCategorySnapshotRow (Json Time : Type 0) : Type 0 where
  pub id : String
  pub tenant_id : String
  pub connection_id : String
  pub content_sha256 : String
  pub categories_json : List Json
  pub source_metadata_json : Dict String Json
  pub captured_at : Time

pub record ProductWorkflowRevisionRow (Json Time : Type 0) : Type 0 where
  pub id : String
  pub job_id : String
  pub revision_number : ℕ
  pub parent_revision_id : Option String
  pub status : String
  pub category_snapshot_id : Option String
  pub catalog_snapshot_ids_json : List String
  pub result_json : Json
  pub created_at : Time
  pub created_by : Option String

pub record ProductReviewItemRow (Time : Type 0) : Type 0 where
  pub id : String
  pub job_id : String
  pub revision_id : String
  pub review_key : String
  pub review_type : String
  pub status : String
  pub payload_json : ReviewItem
  pub decision_json : Option ProductReviewDecision
  pub created_at : Time
  pub decided_at : Option Time
  pub decided_by : Option String

pub record Database (Json Time : Type 0) : Type 0 where
  pub schemas : List (SchemaRow Time)
  pub schema_versions : List (SchemaVersionRow Json Time)
  pub standard_snapshots : List (StandardSnapshotRow Json Time)
  pub comparison_jobs : List (ComparisonJobRow Json Time)
  pub comparison_differences : List (DifferenceIndexRow Time)
  pub audit_events : List (AuditEventRow Json Time)
  pub product_catalog_snapshots : List (ProductCatalogSnapshotRow Json Time)
  pub product_category_snapshots : List (ProductCategorySnapshotRow Json Time)
  pub product_workflow_revisions : List (ProductWorkflowRevisionRow Json Time)
  pub product_review_items : List (ProductReviewItemRow Time)
  -- how often `new_ulid` and `_now` have been called
  pub calls : ℕ
