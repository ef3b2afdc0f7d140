-- ===== src/Product/Reviews.antt =====
-- Review items and decisions (product_workflow/models.py), and the reviews of a job in its file
-- product-workflow.json (product_workflow/service.py without a database).
pub mod Models
pub mod Decide
pub mod Rerun
pub mod Revise
pub mod Frozen
pub mod Numbered
