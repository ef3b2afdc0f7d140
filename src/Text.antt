-- ===== src/Text.antt =====
-- Header text: `normalize_header` of src/excel_auditor/models.py, over Python's `str.replace`,
-- `str.strip`, `str.split` and `str.join` (in the child module).
mod Space
pub mod Decimal
pub mod Words
pub use Space.{any_char, is_space, split, join, strip}
unfoldable pub use Space.{collapse}
use excel_youhua.Prelude.{String}
use excel_youhua.Python.{Value, null, text, other, Python}

module _ (py : Python) where
  open py use {Obj, str, nfkc, casefold}

  -- `"" if value is None else str(value)`
  abbrev pub str_or_empty : Value Obj → String
  str_or_empty null = ""
  str_or_empty (text s) = s
  str_or_empty (other o) = str o

  unfoldable pub normalize_header : Value Obj → String
  normalize_header value = collapse (nfkc (str_or_empty value))

  -- `_key` of product_workflow/mapping.py and product_workflow/category.py
  unfoldable pub header_key : Value Obj → String
  header_key value = casefold (normalize_header value)
