-- ===== src/Product/Models.antt =====
-- The data of the product workflow: product_workflow/models.py and `FieldType` of models.py.
-- Identifiers, titles and headers are texts; a confidence counts units of the matcher's scale.
use Prim.Native.String.{compare}
use text.Mathlib.Text.{is_le}
use excel_youhua.Prelude.{ℕ, String, Bool, ◌||◌, ◌&&◌, List, Option, ltb, nat_beq}

pub data FieldType : Type 0 where
  string integer decimal date datetime boolean enum phone id_code postal_code set json : FieldType
  fuzzy_string : FieldType

pub data CatalogFieldSource : Type 0 where
  fixed platform_attribute platform_specification merchant_extra : CatalogFieldSource

pub record CatalogFieldDefinition : Type 0 where
  pub field_id : String
  pub title : String
  pub source : CatalogFieldSource
  pub aliases : List String
  pub field_type : FieldType
  pub required : Bool
  pub multiple : Bool
  pub display_order : ℕ
  pub category_id : Option String
  pub attribute_id : Option String
  pub enum_values : List String
  pub number_format : Option String
  pub timezone : Option String

pub record MappingCandidate : Type 0 where
  pub field_id : String
  pub title : String
  pub confidence : ℕ
  pub match_value : String

pub data MatchType : Type 0 where
  exact confirmed_alias fuzzy_suggestion unmapped duplicate : MatchType

pub data Status : Type 0 where
  accepted manual_review unmapped : Status

pub record FieldMapping : Type 0 where
  pub physical_column : ℕ
  pub raw_header : String
  pub normalized_header : String
  pub field_id : Option String
  pub match_type : MatchType
  pub status : Status
  pub confidence : Option ℕ
  pub candidates : List MappingCandidate

-- `CategoryDefinition`; `parent_id` and `raw` are not read here.
pub record CategoryDefinition : Type 0 where
  pub category_id : String
  pub name : String
  pub path : List String
  pub aliases : List String
  pub active : Bool

pub data Resolved : Type 0 where
  resolved manual_review unresolved : Resolved

pub data Basis : Type 0 where
  id exact confirmed fuzzy_suggestion missing ambiguous id_name_conflict invalid_id : Basis

pub record CategoryResolution : Type 0 where
  pub excel_row : ℕ
  pub raw_category_id : Option String
  pub raw_category : Option String
  pub category_id : Option String
  pub category_name : Option String
  pub status : Resolved
  pub match_type : Basis
  pub confidence : Option ℕ
  pub candidates : List MappingCandidate

-- The fuzzy matcher (rapidfuzz). `full` is a confidence of 100, and a score is at most that.
-- `extract query choices cutoff limit` is `process.extract` with `fuzz.ratio`.
pub record Fuzzy : Type 0 where
  pub full : ℕ
  pub extract : String → List String → ℕ → ℕ → List (String × ℕ)

-- The order of texts in Python: by code point.
abbrev pub str_le : String → String → Bool
str_le a b = is_le (compare a b)

-- `key=lambda item: (-item.confidence, item.field_id)`
abbrev pub better : MappingCandidate → MappingCandidate → Bool
better a b =
    ltb b.confidence a.confidence
    || (nat_beq a.confidence b.confidence && str_le a.field_id b.field_id)
