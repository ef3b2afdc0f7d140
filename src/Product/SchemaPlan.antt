-- ===== src/Product/SchemaPlan.antt =====
-- The data of schema_builder.py, and what DynamicSchemaPlan checks of itself.
use excel_youhua.Prelude.{[], ◌∷◌, string_eq}
use Prim.Native.String.{◌∷◌, String}
use excel_youhua.Prelude.{
  string_eq, contains, nat_beq, ◌&&◌, not, ◌+◌, [], true, Option, List, Bool, ℕ, String,
}
use excel_youhua.Product.Models.{FieldType, CatalogFieldDefinition, FieldMapping}
use excel_youhua.Product.Reviews.Models.{ReviewItem}

-- What is read of a rule's column; `bounded` is whether its validation has a minimum or a maximum.
-- `multiple` of a fixed field is whether its type is a set.
pub record ColumnRule : Type 0 where
  pub name : String
  pub title : String
  pub aliases : List String
  pub type : FieldType
  pub required : Bool
  pub enum_values : List String
  pub format : Option String
  pub timezone : Option String
  pub bounded : Bool

pub record PlannedField : Type 0 where
  pub ordinal : ℕ
  pub field : CatalogFieldDefinition
  pub present : Bool
  pub source_header : Option String
  pub source_column : Option ℕ

pub record DynamicSchemaPlan : Type 0 where
  pub category_id : String
  pub worksheet_name : String
  pub fields : List PlannedField
  pub mappings : List FieldMapping
  pub review_items : List ReviewItem

abbrev pub field_ids : List CatalogFieldDefinition → List String
field_ids [] = []
field_ids (f ∷ fields) = f.field_id ∷ field_ids fields

-- `len(ids) == len(set(ids))`
abbrev pub all_different : List String → Bool
all_different [] = true
all_different (id ∷ ids) = not (contains ids id) && all_different ids

abbrev pub planned_ids : List PlannedField → List String
planned_ids [] = []
planned_ids (f ∷ fields) = f.field.field_id ∷ planned_ids fields

-- the ordinals are the numbers from n on
abbrev pub is_numbered : ℕ → List PlannedField → Bool
is_numbered n [] = true
is_numbered n (f ∷ fields) = nat_beq f.ordinal n && is_numbered (n + 1) fields

unfoldable pub deterministic_contract : List PlannedField → Bool
deterministic_contract fields = is_numbered 1 fields && all_different (planned_ids fields)
