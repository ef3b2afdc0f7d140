-- ===== src/Tests/Schema.antt =====
-- `build_dynamic_schema` on a small category: one fixed column, one platform field, and two headers
use excel_youhua.Product.SchemaBuilder.Free.{free_id-ends}
use excel_youhua.Text.{collapse}
use excel_youhua.Prelude.Results.{err, Result, ok}
use excel_youhua.Product.SchemaBuilder.{free_id, build_dynamic_schema}
use excel_youhua.Product.SchemaCore.{validation_error}
use excel_youhua.Product.SchemaCore.{Error}
use excel_youhua.Product.SchemaPlan.{planned_ids, DynamicSchemaPlan, ColumnRule}
-- that no field takes and that have the same hash.
use excel_youhua.Tests.Samples.{plain}
use excel_youhua.Product.Models.{
  FieldType, CatalogFieldDefinition, FieldMapping, Status, MatchType, platform_attribute, accepted,
}
use excel_youhua.Prelude.{
  Bool, contains, none, Option, some, true, List, ℕ, false, String, ◌≡◌, refl, string_eq, nat_eq,
  [], ◌∷◌,
}

abbrev same_hash : String → String
same_hash s = "0"

abbrev sku : ColumnRule
sku = record {
  name = "sku";
  title = "SKU";
  aliases = [];
  type = FieldType.string;
  required = true;
  enum_values = [];
  format = none;
  timezone = none;
  bounded = false;
}

abbrev size : CatalogFieldDefinition
size = record {
  field_id = "size";
  title = "Size";
  source = platform_attribute;
  aliases = [];
  field_type = FieldType.string;
  required = false;
  multiple = false;
  display_order = 0;
  category_id = some "c1";
  attribute_id = some "a1";
  enum_values = [];
  number_format = none;
  timezone = none;
}

abbrev column : ℕ → String → Option String → MatchType → Status → FieldMapping
column n header field_id match_type status = record {
  physical_column = n;
  raw_header = header;
  normalized_header = header;
  field_id = field_id;
  match_type = match_type;
  status = status;
  confidence = none;
  candidates = [];
}

abbrev sheet_mappings : List FieldMapping
sheet_mappings =
    column 1 "SKU" (some "sku") MatchType.exact accepted
    ∷ column 2 "note" none MatchType.unmapped Status.unmapped
    ∷ column 3 "memo" none MatchType.unmapped Status.unmapped
    ∷ []

abbrev sheet_headers : List String
sheet_headers = "SKU" ∷ "note" ∷ "memo" ∷ []

free_id-ends_example :
    (id : String) × (free_id 4 "merchant_extra.0" 2 "merchant_extra.0"
        ("merchant_extra.0" ∷ "sku" ∷ [])
      ≡ ok id)
    × (contains ("merchant_extra.0" ∷ "sku" ∷ []) id ≡ false)
free_id-ends_example = free_id-ends "merchant_extra.0" ("merchant_extra.0" ∷ "sku" ∷ [])

abbrev no_zones : String → Bool
no_zones zone = false

abbrev built : List ColumnRule → List FieldMapping → Result Error DynamicSchemaPlan
unfolding build_dynamic_schema
built columns mappings =
    build_dynamic_schema plain no_zones same_hash "c1" "Shoes" columns (size ∷ []) sheet_headers
      mappings

abbrev plan_ids : Result Error DynamicSchemaPlan → Result Error (List String)
plan_ids (ok plan) = ok (planned_ids plan.fields)
plan_ids (err error) = err error

-- the second of the two headers gets a numbered identifier
same_hash_numbered :
    plan_ids (built (sku ∷ []) sheet_mappings)
    ≡ ok ("sku" ∷ "size" ∷ "merchant_extra.0" ∷ "merchant_extra.0.2" ∷ [])
unfolding build_dynamic_schema built collapse
same_hash_numbered = refl

-- a column of texts cannot have a minimum
bounds_refused :
    plan_ids (built (record sku { bounded = true } ∷ []) sheet_mappings) ≡ err validation_error
unfolding build_dynamic_schema built collapse
bounds_refused = refl
