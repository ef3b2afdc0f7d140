-- ===== src/Product/Mapping.antt =====
-- `map_product_headers` of product_workflow/mapping.py: which catalog field each physical column
-- holds. Exact names are accepted, fuzzy matches are only suggested.
pub mod Prepare
pub mod Outcome
pub mod Accepted
pub mod Owners
pub mod Exactness
pub mod Step
unfoldable pub use Prepare.{targets}
pub use Prepare.{Error, Targets, key, field_values}
pub use Step.{Options}
unfoldable pub use Step.{step, loop}
use excel_youhua.Prelude.{ℕ, String, List, [], ◌≡◌}
use excel_youhua.Prelude.Results.{Result, ok, err, ◌>>=◌}
use excel_youhua.Python.{Python}
use excel_youhua.Product.Models.{CatalogFieldDefinition, FieldMapping, Fuzzy}

unfoldable pub map_product_headers :
    (py : Python)
    → Fuzzy
    → List String
    → List CatalogFieldDefinition
    → Options
    → Result Error (List FieldMapping)
map_product_headers py fz headers fields opts = do
  t ← targets py fields opts.confirmed_aliases
  ok (loop py fz opts t headers 1 [])
