-- ===== src/Tests/Category.antt =====
-- `resolve_categories` on rows with an id, with a name and with neither.
use excel_youhua.Prelude.{
  ℕ, String, true, List, [], ◌∷◌, none, some, ◌≡◌, refl, All, nat_eq, string_eq,
}
use excel_youhua.Prelude.Results.{ok}
use excel_youhua.Dict.{Dict, get, put}
use excel_youhua.Python.{Value, text}
use excel_youhua.Text.{header_key, normalize_header, collapse}
use excel_youhua.Product.Models.{
  CategoryDefinition, CategoryResolution, resolved, unresolved, Basis,
}
use excel_youhua.Product.Category.{CategoryOptions, resolve_categories, index_categories}
use excel_youhua.Product.Category.Justified.{IsActive, IsJustified, resolve_categories-IsJustified}
use excel_youhua.Tests.Samples.{plain, matcher}

abbrev category : String → String → CategoryDefinition
category cid name = record {
  category_id = cid;
  name = name;
  path = [];
  aliases = [];
  active = true;
}

abbrev categories : List CategoryDefinition
categories = category "c1" "Chairs" ∷ category "c2" "Desks" ∷ []

abbrev options : CategoryOptions
options = record {
  source_field = "name";
  id_field = some "id";
  first_excel_row = 2;
  excel_rows = none;
  fuzzy_threshold = 95;
  candidate_score_margin = 5;
}

abbrev rows : List (Dict String (Value ℕ))
rows = (("name", text "Desks") ∷ []) ∷ (("id", text "c1") ∷ []) ∷ [] ∷ []

abbrev resolution : ℕ → CategoryResolution
resolution row = record {
  excel_row = row;
  raw_category_id = none;
  raw_category = none;
  category_id = none;
  category_name = none;
  status = unresolved;
  match_type = Basis.missing;
  confidence = none;
  candidates = [];
}

abbrev result : List CategoryResolution
result =
    record (resolution 2) {
      raw_category = some "Desks";
      category_id = some "c2";
      category_name = some "Desks";
      status = resolved;
      match_type = Basis.exact;
      confidence = some 100;
    }
    ∷ record (resolution 3) {
      raw_category_id = some "c1";
      category_id = some "c1";
      category_name = some "Chairs";
      status = resolved;
      match_type = Basis.id;
      confidence = some 100;
    }
    ∷ resolution 4
    ∷ []

categories_run : resolve_categories plain matcher options rows categories ≡ ok result
unfolding resolve_categories header_key normalize_header collapse get put
categories_run = refl

resolve_categories-IsJustified_example :
    All (IsJustified plain matcher options (index_categories [] categories)) result
    × All (IsActive categories) result
resolve_categories-IsJustified_example =
    resolve_categories-IsJustified plain matcher options rows categories result categories_run
