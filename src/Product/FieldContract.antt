-- ===== src/Product/FieldContract.antt =====
-- The validators of CatalogFieldDefinition, ReviewItem and PlannedField in product_workflow/models.py.
-- `known_timezone` tells the names that zoneinfo has.
use excel_youhua.Text.{any_char, header_key, normalize_header, strip}
use excel_youhua.Python.{text, Python}
use excel_youhua.Text.{header_key, normalize_header, strip}
use excel_youhua.Product.Models.{
  fixed, platform_attribute, platform_specification, merchant_extra, datetime,
  CatalogFieldDefinition, FieldType, CatalogFieldSource,
}
use excel_youhua.Product.SchemaPlan.{all_different, PlannedField}
use excel_youhua.Product.Reviews.Models.{is_none, ReviewItem}
use excel_youhua.Prelude.{
  ◌∷◌, map, string_eq, length, contains, [], ◌==◌, none, not, if◌then◌else◌, false, ◌||◌, some, ltb,
  leb, ◌&&◌, true, String, List, Bool, Option, ℕ,
}
use Prim.Native.String.{String, count}
use Prim.Native.Char.{Char, code}

-- `max_length`
abbrev pub at_most : ℕ → Option String → Bool
at_most n none = true
at_most n (some s) = leb (count s) n

-- `min_length=1` and `max_length`
abbrev pub is_between : ℕ → String → Bool
is_between n s = leb 1 (count s) && leb (count s) n

-- `ge=1`
abbrev pub is_positive : Option ℕ → Bool
is_positive none = true
is_positive (some n) = leb 1 n

abbrev pub is_valid_review : ReviewItem → Bool
is_valid_review r =
    at_most 512 r.raw_header
    && at_most 256 r.category_id
    && is_positive r.physical_column
    && is_positive r.excel_row

abbrev pub is_valid_planned : PlannedField → Bool
is_valid_planned f = leb 1 f.ordinal && is_positive f.source_column

abbrev pub is_control : Char → Bool
is_control c = ltb (code c) 32

abbrev pub is_format_control : Char → Bool
is_format_control c = ltb (code c) 32 || (leb 127 (code c) && leb (code c) 159)

-- `not value` for an optional text
abbrev pub is_falsy : Option String → Bool
is_falsy none = true
is_falsy (some s) = s == ""

abbrev pub is_platform : CatalogFieldSource → Bool
is_platform platform_attribute = true
is_platform platform_specification = true
is_platform fixed = false
is_platform merchant_extra = false

abbrev pub is_empty_list : List String → Bool
is_empty_list [] = true
is_empty_list (s ∷ ss) = false

abbrev pub is_enum : FieldType → Bool
is_enum FieldType.enum = true
is_enum _ = false

abbrev pub can_be_multiple : FieldType → Bool
can_be_multiple FieldType.string = true
can_be_multiple FieldType.enum = true
can_be_multiple FieldType.set = true
can_be_multiple _ = false

abbrev pub is_numeric : FieldType → Bool
is_numeric FieldType.integer = true
is_numeric FieldType.decimal = true
is_numeric _ = false

abbrev pub is_valid_format : Option String → Bool
is_valid_format none = true
is_valid_format (some s) = not (strip s == "") && not (any_char is_format_control s)

abbrev pub is_datetime_field : FieldType → Bool
is_datetime_field datetime = true
is_datetime_field _ = false

-- `source_contract`, of a field whose validation has bounds or none
unfoldable pub source_contract : Bool → CatalogFieldDefinition → Bool
source_contract bounded f =
    (if is_platform f.source
      then not (is_falsy f.category_id) && not (is_falsy f.attribute_id)
      else is_none f.category_id && is_none f.attribute_id)
    && (if is_enum f.field_type
        then not (is_empty_list f.enum_values)
        else is_empty_list f.enum_values)
    && all_different f.enum_values
    && (not f.multiple || can_be_multiple f.field_type)
    && (not bounded || is_numeric f.field_type)
    && is_valid_format f.number_format
    && (is_none f.timezone || is_datetime_field f.field_type)

module _ (py : Python) (known_timezone : String → Bool) where
  -- `non_blank`
  abbrev pub is_printable : String → Bool
  unfolding normalize_header
  is_printable s = not (normalize_header py (text s) == "") && not (any_char is_control s)

  abbrev pub alias_key : String → String
  unfolding header_key
  alias_key s = header_key py (text s)

  -- `unique_aliases`
  abbrev pub unique_aliases : List String → Bool
  unique_aliases aliases =
      not (contains (map alias_key aliases) "") && all_different (map alias_key aliases)

  abbrev pub valid_timezone : Option String → Bool
  valid_timezone none = true
  valid_timezone (some s) = known_timezone s

  -- a field that CatalogFieldDefinition does not refuse
  unfoldable pub is_valid_field : Bool → CatalogFieldDefinition → Bool
  unfolding source_contract normalize_header header_key
  is_valid_field bounded f =
      is_between 256 f.field_id
      && is_between 512 f.title
      && leb (length f.aliases) 128
      && at_most 256 f.category_id
      && at_most 256 f.attribute_id
      && leb (length f.enum_values) 10000
      && at_most 255 f.number_format
      && at_most 255 f.timezone
      && is_printable f.field_id
      && is_printable f.title
      && unique_aliases f.aliases
      && valid_timezone f.timezone
      && source_contract bounded f
