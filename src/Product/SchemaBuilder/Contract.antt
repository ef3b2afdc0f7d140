-- ===== src/Product/SchemaBuilder/Contract.antt =====
-- What `build_dynamic_schema` guarantees of its plan, and why it fails.
use excel_youhua.Product.FieldContract.{is_valid_field}
use excel_youhua.Product.SchemaBuilder.Loops.{IsRefused}
use excel_youhua.Product.SchemaBuilder.Core.{refused_review, refused_column}
use excel_youhua.Product.SchemaBuilder.Columns.{HasColumns, IsNumbered}
use excel_youhua.Prelude.Results.{err, Result, ok}
use excel_youhua.Python.{Python}
use excel_youhua.Product.Models.{CatalogFieldDefinition, FieldMapping}
use excel_youhua.Product.SchemaBuilder.{
  is_valid_field, other_source_field, other_category_field, CatalogFieldDefinition, FieldMapping,
}
use excel_youhua.Product.SchemaCore.{
  misaligned, other_category, other_source, duplicate_id, validation_error, out_of_fuel,
  broken_contract,
}
use excel_youhua.Product.SchemaCore.{Error, fixed_fields}
use excel_youhua.Product.SchemaPlan.{
  planned_ids, DynamicSchemaPlan, ColumnRule, all_different, field_ids,
}
use excel_youhua.Prelude.{
  ◌⊎◌, nat_beq, any, true, false, length, Distinct, ◌++◌, Bool, String, List, ◌≡◌, string_eq,
  nat_eq,
}

module _ (py : Python) (known_timezone : String → Bool) (digest : String → String) where
  module _ (category_id : String) (columns : List ColumnRule)
      (platform : List CatalogFieldDefinition) (headers : List String)
      (mappings : List FieldMapping) where
    -- The input is in order, and the plan is what its own check asks for: the ordinals are 1, 2 and so
    -- on, and no identifier stands twice. It has the column of every mapping that is not accepted, in a
    -- field that CatalogFieldDefinition accepts.
    abbrev pub IsContract : DynamicSchemaPlan → Type 0
    IsContract plan =
        (nat_beq (length headers) (length mappings) ≡ true)
        × (any (other_category_field category_id) platform ≡ false)
        × (any other_source_field platform ≡ false)
        × (any (refused_column py known_timezone) columns ≡ false)
        × (any (refused_review category_id) mappings ≡ false)
        × IsNumbered 1 plan.fields
        × Distinct (planned_ids plan.fields)
        × HasColumns (is_valid_field py known_timezone false) mappings plan.fields

    -- What is wrong with the input where the error is raised.
    abbrev pub IsCause : Error → Type 0
    IsCause misaligned = nat_beq (length headers) (length mappings) ≡ false
    IsCause other_category = any (other_category_field category_id) platform ≡ true
    IsCause other_source = any other_source_field platform ≡ true
    IsCause duplicate_id =
        (fields : List CatalogFieldDefinition) × (fixed_fields py known_timezone 0 columns
          ≡ ok fields)
        × (all_different (field_ids (fields ++ platform)) ≡ false)
    IsCause validation_error =
        (any (refused_column py known_timezone) columns ≡ true)
        ⊎ ((any (refused_review category_id) mappings ≡ true)
            ⊎ IsRefused py known_timezone digest mappings)
    IsCause out_of_fuel = ⊥
    IsCause broken_contract = ⊥

    abbrev pub IsExplained : Result Error DynamicSchemaPlan → Type 0
    IsExplained (ok plan) = IsContract plan
    IsExplained (err error) = IsCause error
