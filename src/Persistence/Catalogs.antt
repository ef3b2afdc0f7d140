-- ===== src/Persistence/Catalogs.antt =====
-- The catalog snapshots of persistence.py.
use excel_youhua.Prelude.{
  String, ◌||◌, none, some, List, [], ◌∷◌, ◌++◌, ◌==◌, string_eq, nat_eq, if◌then◌else◌, not,
}
use excel_youhua.Prelude.Results.{Result, ok, err}
use excel_youhua.Dict.{Dict}
use excel_youhua.Persistence.Session.{exists, Platform, Db, Error, first}

-- `CatalogSchemaSnapshot`, with the JSON of its fields
pub record CatalogSchemaSnapshot (Json Time : Type 0) : Type 0 where
  pub snapshot_id : String
  pub connection_id : String
  pub category_id : String
  pub captured_at : Time
  pub fields : List Json
  pub content_sha256 : String
  pub source_metadata : Dict String Json

-- `CategoryCatalogSnapshot`, with the JSON of its categories
pub record CategoryCatalogSnapshot (Json Time : Type 0) : Type 0 where
  pub snapshot_id : String
  pub connection_id : String
  pub captured_at : Time
  pub categories : List Json
  pub content_sha256 : String
  pub source_metadata : Dict String Json

module _ (p : Platform) where
  open p use {Json, Time}

  unfoldable pub save_product_catalog_snapshot :
      CatalogSchemaSnapshot Json Time → String → Db p → Result Error (Db p)
  save_product_catalog_snapshot snapshot tenant_id db =
      elim (first (λ s. s.id == snapshot.snapshot_id) db.product_catalog_snapshots) [
        | some existing ↦
            if not (existing.content_sha256 == snapshot.content_sha256)
              || not (existing.tenant_id == tenant_id)
            then err exists
            else ok db
        | none ↦ ok (record db {
          product_catalog_snapshots =
              db.product_catalog_snapshots
              ++ record {
                id = snapshot.snapshot_id;
                tenant_id = tenant_id;
                connection_id = snapshot.connection_id;
                category_id = snapshot.category_id;
                content_sha256 = snapshot.content_sha256;
                fields_json = snapshot.fields;
                source_metadata_json = snapshot.source_metadata;
                captured_at = snapshot.captured_at;
              }
                ∷ [];
        })
      ]

  unfoldable pub save_product_category_snapshot :
      CategoryCatalogSnapshot Json Time → String → Db p → Result Error (Db p)
  save_product_category_snapshot snapshot tenant_id db =
      elim (first (λ s. s.id == snapshot.snapshot_id) db.product_category_snapshots) [
        | some existing ↦
            if not (existing.content_sha256 == snapshot.content_sha256)
              || not (existing.tenant_id == tenant_id)
            then err exists
            else ok db
        | none ↦ ok (record db {
          product_category_snapshots =
              db.product_category_snapshots
              ++ record {
                id = snapshot.snapshot_id;
                tenant_id = tenant_id;
                connection_id = snapshot.connection_id;
                content_sha256 = snapshot.content_sha256;
                categories_json = snapshot.categories;
                source_metadata_json = snapshot.source_metadata;
                captured_at = snapshot.captured_at;
              }
                ∷ [];
        })
      ]
