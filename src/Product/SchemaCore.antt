-- ===== src/Product/SchemaCore.antt =====
-- The fixed fields, the reviews and the core fields of a plan (product_workflow/schema_builder.py).
use excel_youhua.Product.FieldContract.{is_valid_planned, is_valid_review, is_valid_field}
use excel_youhua.Product.SchemaPlan.{PlannedField, ColumnRule}
use excel_youhua.Prelude.{[], ◌∷◌, string_eq}
use excel_youhua.Python.{Python}
use excel_youhua.Prelude.Equality.{option_beq}
use excel_youhua.Prelude.Results.{◌>>=◌, ok, err, Result}
use excel_youhua.Text.Decimal.{decimal}
use Prim.Native.String.{◌∷◌, String}
use excel_youhua.Prelude.{
  string_eq, nat_beq, ◌&&◌, ◌+◌, ◌||◌, false, [], if◌then◌else◌, some, ltb, none, true, Option,
  List, Bool, ℕ, String,
}
use Prim.Native.String
use excel_youhua.Product.Models.{
  FieldType, CatalogFieldSource, CatalogFieldDefinition, FieldMapping, Status, MatchType, fixed,
  platform_attribute, platform_specification, merchant_extra, accepted, str_le,
}
use excel_youhua.Product.Reviews.Models.{ReviewItem, ReviewType}

-- The `ValueError`s: headers without mappings, a field of another category, a field that is not of the
-- platform, an identifier that two fields have; that the loop for a free identifier has used its fuel
-- up; that a field, a review or a planned field is refused by its model; and that the plan is refused
-- by its own check.
pub data Error : Type 0 where
  misaligned other_category other_source duplicate_id out_of_fuel validation_error broken_contract :
      Error

abbrev pub is_set : FieldType → Bool
is_set FieldType.set = true
is_set _ = false

abbrev pub fixed_values : ColumnRule → ℕ → CatalogFieldDefinition
fixed_values column order = record {
  field_id = column.name;
  title = column.title;
  source = fixed;
  aliases = column.aliases;
  field_type = column.type;
  required = column.required;
  multiple = is_set column.type;
  display_order = order;
  category_id = none;
  attribute_id = none;
  enum_values = column.enum_values;
  number_format = column.format;
  timezone = column.timezone;
}

-- `_SOURCE_ORDER`
abbrev pub source_order : CatalogFieldSource → ℕ
source_order fixed = 0
source_order platform_attribute = 1
source_order platform_specification = 2
source_order merchant_extra = 3

-- the order of `(_SOURCE_ORDER[field.source], field.display_order, field.field_id)`
abbrev pub field_le : CatalogFieldDefinition → CatalogFieldDefinition → Bool
field_le a b =
    ltb (source_order a.source) (source_order b.source)
    || (nat_beq (source_order a.source) (source_order b.source)
        && (ltb a.display_order b.display_order
            || (nat_beq a.display_order b.display_order && str_le a.field_id b.field_id)))

module _ (py : Python) (known_timezone : String → Bool) where
  -- `CatalogFieldDefinition(…)`
  abbrev pub catalog_field : Bool → CatalogFieldDefinition → Result Error CatalogFieldDefinition
  unfolding is_valid_field
  catalog_field bounded f =
      if is_valid_field py known_timezone bounded f then ok f else err validation_error

  unfoldable pub fixed_field : ColumnRule → ℕ → Result Error CatalogFieldDefinition
  unfolding is_valid_field
  fixed_field column order = catalog_field column.bounded (fixed_values column order)

  unfoldable pub fixed_fields : ℕ → List ColumnRule → Result Error (List CatalogFieldDefinition)
  unfolding fixed_field
  fixed_fields n [] = ok []
  fixed_fields n (c ∷ columns) = do
    field ← fixed_field c n
    rest ← fixed_fields (n + 1) columns
    ok (field ∷ rest)

abbrev pub is_accepted : FieldMapping → Bool
is_accepted m = elim m.status [ accepted ↦ true | _ ↦ false ]

-- `accepted_by_id.get(field_id)`: the last accepted mapping of the field
abbrev pub accepted_mapping : String → List FieldMapping → Option FieldMapping
accepted_mapping field_id [] = none
accepted_mapping field_id (m ∷ mappings) = elim (accepted_mapping field_id mappings) [
  | some later ↦ some later
  | none ↦ if is_accepted m && option_beq m.field_id (some field_id) then some m else none
]

abbrev pub review_type_of : MatchType → ReviewType
review_type_of MatchType.duplicate = ReviewType.duplicate_header
review_type_of _ = ReviewType.field_mapping

-- the review item of a mapping that is to be reviewed
abbrev pub review_values : String → FieldMapping → ReviewItem
unfolding decimal
review_values category_id m = record {
  review_type = review_type_of m.match_type;
  key = String.◌++◌ "column:" (decimal m.physical_column);
  raw_header = some m.raw_header;
  category_id = some category_id;
  physical_column = some m.physical_column;
  excel_row = none;
  candidates = m.candidates;
}

abbrev pub is_manual : FieldMapping → Bool
is_manual m = elim m.status [ Status.manual_review ↦ true | _ ↦ false ]

-- `ReviewItem(…)`
unfoldable pub review_of : String → FieldMapping → Result Error ReviewItem
unfolding decimal
review_of category_id m =
    if is_valid_review (review_values category_id m)
    then ok (review_values category_id m)
    else err validation_error

-- the loop over the mappings that are to be reviewed
unfoldable pub review_items : String → List FieldMapping → Result Error (List ReviewItem)
unfolding review_of
review_items category_id [] = ok []
review_items category_id (m ∷ mappings) = elim (is_manual m) [
  | false ↦ review_items category_id mappings
  | true ↦ do
    item ← review_of category_id m
    rest ← review_items category_id mappings
    ok (item ∷ rest)
]

abbrev pub planned_field : ℕ → CatalogFieldDefinition → Option FieldMapping → PlannedField
planned_field n field none = record {
  ordinal = n;
  field = field;
  present = false;
  source_header = none;
  source_column = none;
}
planned_field n field (some m) = record {
  ordinal = n;
  field = field;
  present = true;
  source_header = some m.raw_header;
  source_column = some m.physical_column;
}

-- `PlannedField(…)`
abbrev pub new_planned : PlannedField → Result Error PlannedField
new_planned f = if is_valid_planned f then ok f else err validation_error

-- the loop over the fields in their order
unfoldable pub plan_core :
    ℕ → List FieldMapping → List CatalogFieldDefinition → Result Error (List PlannedField)
plan_core n mappings [] = ok []
plan_core n mappings (f ∷ fields) = do
  planned ← new_planned (planned_field n f (accepted_mapping f.field_id mappings))
  rest ← plan_core (n + 1) mappings fields
  ok (planned ∷ rest)
