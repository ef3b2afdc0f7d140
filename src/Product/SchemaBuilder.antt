-- ===== src/Product/SchemaBuilder.antt =====
-- `build_dynamic_schema` of product_workflow/schema_builder.py.
pub mod Free
pub mod Apart
pub mod Columns
pub mod Core
pub mod Loops
pub mod Contract
use excel_youhua.Product.SchemaCore.{
  broken_contract, field_le, duplicate_id, other_source, other_category, planned_field, misaligned,
  new_planned, plan_core, is_accepted, catalog_field, out_of_fuel, review_items, Error,
  fixed_fields,
}
use excel_youhua.Product.FieldContract.{
  is_platform, is_valid_planned, is_valid_review, is_valid_field,
}
use excel_youhua.Product.SchemaPlan.{
  field_ids, all_different, DynamicSchemaPlan, deterministic_contract, PlannedField, ColumnRule,
}
use Prim.Native.Char.{Char, code}
use excel_youhua.Prelude.Sorting.{sorted}
use excel_youhua.Prelude.{keep, map, any, [], ◌∷◌, string_eq}
use excel_youhua.Python.{Python, text}
use excel_youhua.Text.{normalize_header, header_key, strip}
use excel_youhua.Prelude.Equality.{option_beq}
use excel_youhua.Prelude.Results.{require, ◌>>◌, ◌>>=◌, ok, err, Result}
use excel_youhua.Text.Decimal.{numbered, decimal}
use Prim.Native.String.{◌∷◌, String}
use excel_youhua.Prelude.{
  ◌++◌, zero, length, string_eq, contains, nat_beq, suc, ◌==◌, ◌&&◌, not, ◌+◌, ◌||◌, false, [],
  if◌then◌else◌, some, ltb, none, true, Option, List, Bool, ℕ, String,
}
use Prim.Native.String
use excel_youhua.Product.Models.{
  FieldType, CatalogFieldSource, CatalogFieldDefinition, FieldMapping, Status, MatchType, fixed,
  platform_attribute, platform_specification, merchant_extra, accepted, str_le,
}
use excel_youhua.Product.Reviews.Models.{ReviewItem, ReviewType}

-- `while candidate in used_ids`, with the name that is numbered, the next number and the candidate
unfoldable pub free_id : ℕ → String → ℕ → String → List String → Result Error String
unfolding numbered
free_id zero name n candidate used = err out_of_fuel
free_id (suc fuel) name n candidate used =
    let rest = free_id fuel name (n + 1) (numbered name n) used in
    if contains used candidate then rest else ok candidate

module _ (py : Python) (digest : String → String) where
  -- `digest` gives the first twelve digits of the hash of a text.
  abbrev pub normalized : String → String
  unfolding normalize_header
  normalized header = normalize_header py (text header)

  abbrev pub merchant_title : String → ℕ → String
  unfolding decimal normalize_header
  merchant_title header column =
      if normalized header == "" then String.◌++◌ "未命名字段" (decimal column) else normalized header

  -- `_merchant_field`; the fuel is two more than the names that are taken
  unfoldable pub merchant_id : String → List String → Result Error String
  unfolding free_id header_key
  merchant_id header used =
      let name = String.◌++◌ "merchant_extra." (digest (header_key py (text header))) in
      free_id (suc (suc (length used))) name 2 name used

  abbrev pub merchant_values : FieldMapping → String → CatalogFieldDefinition
  unfolding decimal normalize_header
  merchant_values m id = record {
    field_id = id;
    title = merchant_title m.raw_header m.physical_column;
    source = merchant_extra;
    aliases = [];
    field_type = FieldType.string;
    required = false;
    multiple = false;
    display_order = m.physical_column;
    category_id = none;
    attribute_id = none;
    enum_values = [];
    number_format = none;
    timezone = none;
  }

module _ (py : Python) (known_timezone : String → Bool) (digest : String → String) where
  -- what `_merchant_field` returns; its validation has no bounds
  unfoldable pub merchant_field : FieldMapping → String → Result Error CatalogFieldDefinition
  unfolding is_valid_field decimal normalize_header
  merchant_field m id = catalog_field py known_timezone false (merchant_values py digest m id)

  -- the loop over the mappings that are not accepted
  unfoldable pub plan_extra : ℕ → List String → List FieldMapping → Result Error (List PlannedField)
  unfolding merchant_id merchant_field
  plan_extra n used [] = ok []
  plan_extra n used (m ∷ mappings) = elim (is_accepted m) [
    | true ↦ plan_extra n used mappings
    | false ↦ do
      id ← merchant_id py digest m.raw_header used
      field ← merchant_field m id
      planned ← new_planned (planned_field n field (some m))
      rest ← plan_extra (n + 1) (used ++ id ∷ []) mappings
      ok (planned ∷ rest)
  ]

-- the first characters of a text
abbrev pub first_characters : ℕ → String → String
first_characters zero s = ""
first_characters (suc n) String.[] = ""
first_characters (suc n) (String.◌∷◌ c s) = String.◌∷◌ c (first_characters n s)

-- the characters `[]:*?/\\`, which the name of a worksheet cannot have
abbrev pub is_forbidden : Char → Bool
is_forbidden c =
    nat_beq (code c) b'['
    || nat_beq (code c) b']'
    || nat_beq (code c) b':'
    || nat_beq (code c) b'*'
    || nat_beq (code c) b'?'
    || nat_beq (code c) b'/'
    || nat_beq (code c) 92

abbrev pub has_forbidden : String → Bool
has_forbidden String.[] = false
has_forbidden (String.◌∷◌ c s) = is_forbidden c || has_forbidden s

unfoldable pub worksheet_name : String → String → String
worksheet_name category_id category_name =
    let name = first_characters 31 (strip category_name) in
    if name == "" || has_forbidden name
    then first_characters 31 (String.◌++◌ "类目-" category_id)
    else name

abbrev pub other_category_field : String → CatalogFieldDefinition → Bool
other_category_field category_id f = not (option_beq f.category_id (some category_id))

abbrev pub other_source_field : CatalogFieldDefinition → Bool
other_source_field f = not (is_platform f.source)

module _ (py : Python) (known_timezone : String → Bool) (digest : String → String) where
  unfoldable pub build_dynamic_schema :
      String
      → String
      → List ColumnRule
      → List CatalogFieldDefinition
      → List String
      → List FieldMapping
      → Result Error DynamicSchemaPlan
  unfolding fixed_fields review_items plan_core plan_extra worksheet_name sorted
      deterministic_contract
  build_dynamic_schema category_id category_name columns platform headers mappings = do
    require (nat_beq (length headers) (length mappings)) misaligned
    require (not (any (other_category_field category_id) platform)) other_category
    require (not (any other_source_field platform)) other_source
    own_fields ← fixed_fields py known_timezone 0 columns
    let combined = own_fields ++ platform
    require (all_different (field_ids combined)) duplicate_id
    reviews ← review_items category_id mappings
    core ← plan_core 1 mappings (sorted field_le combined)
    extra ← plan_extra py known_timezone digest (length core + 1) (field_ids combined) mappings
    require (deterministic_contract (core ++ extra)) broken_contract
    ok (record {
      category_id = category_id;
      worksheet_name = worksheet_name category_id category_name;
      fields = core ++ extra;
      mappings = mappings;
      review_items = reviews;
    })
