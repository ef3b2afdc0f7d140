-- ===== src/Tests/Mapping.antt =====
-- `map_product_headers` on a small catalog.
use excel_youhua.Prelude.{
  ℕ, String, true, false, List, [], ◌∷◌, map, none, some, ◌≡◌, refl, ◌⊎◌, contains, Distinct, All,
  string_eq, nat_eq, arith,
}
use excel_youhua.Prelude.Results.{ok}
use excel_youhua.Dict.{get, put}
use excel_youhua.Python.{text}
use excel_youhua.Text.{header_key, normalize_header, collapse}
use excel_youhua.Product.Models.{
  CatalogFieldDefinition, FieldMapping, MatchType, Status, exact, confirmed_alias, fuzzy_suggestion,
  duplicate, accepted, manual_review, platform_attribute, string,
}
use excel_youhua.Product.Mapping.{Options, map_product_headers, targets, loop}
use excel_youhua.Product.Mapping.Prepare.{field_values}
use excel_youhua.Product.Mapping.Outcome.{accepted_id, accepted_ids, place, enumerate}
use excel_youhua.Product.Mapping.Exactness.{
  IsConfirmed, IsOnlyOwner, mapping-Distinct, mapping_exact, mapping_aligned, mapping_complete,
}
use excel_youhua.Tests.Samples.{plain, matcher}

abbrev field : String → String → CatalogFieldDefinition
field fid title = record {
  field_id = fid;
  title = title;
  source = platform_attribute;
  aliases = [];
  field_type = string;
  required = false;
  multiple = false;
  display_order = 0;
  category_id = some "c";
  attribute_id = none;
  enum_values = [];
  number_format = none;
  timezone = none;
}

abbrev fields : List CatalogFieldDefinition
fields = field "brand" "the brand" ∷ field "size" "the size" ∷ []

abbrev options : Options
options = record {
  confirmed_aliases = ("make", "brand") ∷ [];
  forced_extra_columns = 5 ∷ [];
  fuzzy_threshold = 92;
  max_candidates = 3;
}

abbrev headers : List String
headers = "the  size" ∷ "make" ∷ "brand" ∷ "thebrand" ∷ "size" ∷ []

abbrev mapping : ℕ → String → String → FieldMapping
mapping column raw normalized = record {
  physical_column = column;
  raw_header = raw;
  normalized_header = normalized;
  field_id = none;
  match_type = MatchType.unmapped;
  status = Status.unmapped;
  confidence = none;
  candidates = [];
}

abbrev result : List FieldMapping
result =
    record (mapping 1 "the  size" "the size") {
      field_id = some "size";
      match_type = exact;
      status = accepted;
      confidence = some 100;
    }
    ∷ record (mapping 2 "make" "make") {
      field_id = some "brand";
      match_type = confirmed_alias;
      status = accepted;
      confidence = some 100;
    }
    ∷ record (mapping 3 "brand" "brand") {
      field_id = some "brand";
      match_type = duplicate;
      status = manual_review;
      confidence = some 100;
    }
    ∷ record (mapping 4 "thebrand" "thebrand") {
      match_type = fuzzy_suggestion;
      status = manual_review;
      confidence = some 95;
      candidates =
          record { field_id = "brand"; title = "the brand"; confidence = 95; match_value = "brand" }
          ∷ [];
    }
    ∷ mapping 5 "size" "size"
    ∷ []

run : map_product_headers plain matcher headers fields options ≡ ok result
unfolding map_product_headers targets loop header_key normalize_header collapse get put
run = refl

mapping-Distinct_example : Distinct (accepted_ids result)
mapping-Distinct_example = mapping-Distinct plain matcher headers fields options result run

mapping_exact_example :
    All
      (λ m.
        (f : String)
        → accepted_id m ≡ some f
        → (IsConfirmed plain options (header_key plain (text m.raw_header)) f
            ⊎ IsOnlyOwner plain fields (header_key plain (text m.raw_header)) f)
          × (contains options.forced_extra_columns m.physical_column ≡ false))
      result
mapping_exact_example = mapping_exact plain matcher headers fields options result run

mapping_aligned_example : map place result ≡ enumerate 1 headers
mapping_aligned_example = mapping_aligned plain matcher headers fields options result run

size_alone : IsOnlyOwner plain fields (header_key plain (text "the  size")) "size"
unfolding header_key normalize_header collapse field_values
size_alone g = ground arith

mapping_complete_example : contains (accepted_ids result) "size" ≡ true
unfolding header_key normalize_header collapse
mapping_complete_example =
    mapping_complete plain matcher headers fields options result run 0 "the  size" "size" refl refl
      refl size_alone
