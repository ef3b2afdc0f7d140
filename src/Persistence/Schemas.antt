-- ===== src/Persistence/Schemas.antt =====
-- The rule versions of persistence.py: `publish_rule`, `get_rule` and `list_rule_versions`.
use excel_youhua.Prelude.{
  ◌+◌, String, Bool, ◌&&◌, ◌||◌, Option, none, some, List, [], ◌∷◌, ◌==◌, string_eq, if◌then◌else◌,
  keep, map,
}
use Prim.Native.String
use excel_youhua.Prelude.Results.{Result, ok, err, ◌>>=◌}
use excel_youhua.Prelude.Sorting.{sorted}
use excel_youhua.Product.Models.{str_le}
use excel_youhua.Persistence.Rows.{SchemaRow, SchemaVersionRow}
use excel_youhua.Persistence.Session.{
  invalid, not_found, exists, Platform, Db, Error, first, update_where, add_row, add_event,
  content_sha256,
}

-- an entry of `list_rule_versions`
pub record RuleVersion : Type 0 where
  pub schema_id : String
  pub version : String
  pub config_sha256 : String
  pub status : String

module _ (p : Platform) where
  open p use {Json, Time}

  -- `where(tenant_id == …, schema_id == …)`
  abbrev pub of_schema : String → String → SchemaRow Time → Bool
  of_schema tenant_id schema_id row = row.tenant_id == tenant_id && row.schema_id == schema_id

  -- `where(tenant_id == …, schema_id == …, version == …)`
  abbrev pub of_version : String → String → String → SchemaVersionRow Json Time → Bool
  of_version tenant_id schema_id version row =
      row.tenant_id == tenant_id && (row.schema_id == schema_id && row.version == version)

  -- The schema's row is added, or brought up to date; `now` is the time of the call.
  unfoldable pub save_schema : p.RuleSet → String → Time → Db p → Result Error (Db p)
  unfolding add_row
  save_schema rules tenant_id now db =
      elim (first (of_schema tenant_id (p.schema_id rules)) db.schemas) [
        | none ↦ do
          let row_id = p.ulid "schema_" db.calls
          schemas ←
              add_row
                (λ (s : SchemaRow Time).
                  s.id == row_id || of_schema tenant_id (p.schema_id rules) s)
                (record {
                  id = row_id;
                  tenant_id = tenant_id;
                  schema_id = p.schema_id rules;
                  name = p.name rules;
                  description = none;
                  current_version = some (p.schema_version rules);
                  created_at = now;
                  updated_at = now;
                })
                db.schemas
          ok (record db { schemas = schemas; calls = db.calls + 1 })
        | some found ↦ ok (record db {
          schemas =
              update_where (λ (s : SchemaRow Time). s.id == found.id)
                (λ (s : SchemaRow Time). record s {
                  name = p.name rules;
                  current_version = some (p.schema_version rules);
                  updated_at = now;
                })
                db.schemas;
        })
      ]

  abbrev pub version_row :
      p.RuleSet → Option String → String → Time → String → SchemaVersionRow Json Time
  version_row rules actor_id tenant_id now row_id = record {
    id = row_id;
    tenant_id = tenant_id;
    schema_id = p.schema_id rules;
    version = p.schema_version rules;
    status = "published";
    config_json = p.model_dump rules;
    config_sha256 = content_sha256 p rules;
    published_at = now;
    created_by = actor_id;
    change_summary = none;
  }

  unfoldable pub add_version :
      p.RuleSet → Option String → String → Time → Db p → Result Error (Db p)
  unfolding add_row
  add_version rules actor_id tenant_id now db = do
    let row_id = p.ulid "sv_" db.calls
    versions ←
        add_row
          (λ (v : SchemaVersionRow Json Time).
            v.id == row_id || of_version tenant_id (p.schema_id rules) (p.schema_version rules) v)
          (version_row rules actor_id tenant_id now row_id) db.schema_versions
    ok (record db { schema_versions = versions; calls = db.calls + 1 })

  -- the part of `publish_rule` for a version that is not there yet
  unfoldable pub publish_new : p.RuleSet → Option String → String → Db p → Result Error (Db p)
  unfolding save_schema add_version add_event
  publish_new rules actor_id tenant_id db = do
    let now = p.now db.calls
    saved ← save_schema rules tenant_id now (record db { calls = db.calls + 1 })
    added ← add_version rules actor_id tenant_id now saved
    add_event p "schema.published" "schema_version"
        (String.◌++◌ (p.schema_id rules) (String.◌++◌ "@" (p.schema_version rules))) actor_id
        (("config_sha256", p.text (content_sha256 p rules)) ∷ []) (some tenant_id) added

  unfoldable pub publish_rule : p.RuleSet → Option String → String → Db p → Result Error (Db p)
  unfolding publish_new
  publish_rule rules actor_id tenant_id db =
      elim (first (of_version tenant_id (p.schema_id rules) (p.schema_version rules))
        db.schema_versions) [
          | none ↦ publish_new rules actor_id tenant_id db
          | some existing ↦
              if existing.config_sha256 == content_sha256 p rules then ok db else err exists
        ]

  unfoldable pub get_rule : String → String → String → Db p → Result Error p.RuleSet
  get_rule schema_id version tenant_id db =
      elim (first (of_version tenant_id schema_id version) db.schema_versions) [
        | none ↦ err not_found
        | some row ↦ elim (p.model_validate row.config_json) [
          | none ↦ err invalid
          | some rules ↦ ok rules
        ]
      ]

  abbrev pub rule_version : SchemaVersionRow Json Time → RuleVersion
  rule_version row = record {
    schema_id = row.schema_id;
    version = row.version;
    config_sha256 = row.config_sha256;
    status = row.status;
  }

  -- `order_by(SchemaVersionRow.version)`
  abbrev pub version_le : SchemaVersionRow Json Time → SchemaVersionRow Json Time → Bool
  version_le a b = str_le a.version b.version

  unfoldable pub list_rule_versions : String → String → Db p → List RuleVersion
  unfolding sorted
  list_rule_versions schema_id tenant_id db = map rule_version (
      sorted version_le (
        keep
          (λ (row : SchemaVersionRow Json Time).
            row.tenant_id == tenant_id && row.schema_id == schema_id)
          db.schema_versions))
