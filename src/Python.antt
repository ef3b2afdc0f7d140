-- ===== src/Python.antt =====
-- Python objects as the program sees them, and what it uses of Python's Unicode tables.
use excel_youhua.Prelude.{ℕ, String}

-- `None`, a `str`, or any other object.
pub data Value (Obj : Type 0) : Type 0 where
  null : Value Obj
  text : String → Value Obj
  other : Obj → Value Obj

pub record Python : Type 1 where
  -- Numbers, Booleans, dates and all else that is neither `None` nor a `str`.
  pub Obj : Type 0
  pub str : Obj → String
  -- The integer `n`.
  pub int : ℕ → Obj
  -- `unicodedata.normalize("NFKC", s)`
  pub nfkc : String → String
  pub casefold : String → String
