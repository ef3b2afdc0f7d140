-- ===== src/Product.antt =====
-- The product workflow (src/excel_auditor/product_workflow).
pub mod Models
pub mod Mapping
pub mod Category
pub mod Reviews
pub mod SchemaPlan
pub mod FieldContract
pub mod SchemaCore
pub mod SchemaBuilder
