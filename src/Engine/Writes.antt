-- ===== src/Engine/Writes.antt =====
-- What the engine writes into cells: `_excel_write_safe` and `_excel_write_value` (engine.py).
use Prim.Native.String.{◌++◌ as ◌<>◌}
use excel_youhua.Engine.Keys.{is_formula_text, is_null, is_formula_mode, str_of}
use excel_youhua.Prelude.{
  String, Bool, true, not, ◌&&◌, ◌||◌, List, [], ◌∷◌, string_eq, nat_eq, if◌then◌else◌,
}
use excel_youhua.Python.{Python, Value, null}
use excel_youhua.Product.Models.{FieldType, datetime, integer, decimal, date, boolean, enum}
use excel_youhua.Engine.Models.{ColumnRule, ParsedValue}
use excel_youhua.Engine.Normalization.{Normalization}

-- `separator.join(parts)`
abbrev join_with : String → List String → String
join_with sep [] = ""
join_with sep (s ∷ []) = s
join_with sep (s ∷ t ∷ ss) = s <> sep <> join_with sep (t ∷ ss)

module _ (py : Python) (nm : Normalization py.Obj) where
  open py use {Obj}

  -- `_excel_write_safe`
  unfoldable pub excel_write_safe : ParsedValue Obj → ColumnRule Obj → Bool
  unfolding is_formula_text
  excel_write_safe p c = if not p.valid || is_null p.normalized then true else elim c.type [
    | datetime ↦ nm.excel_datetime_write_safe p.normalized c.timezone
    | integer ↦
        (is_formula_mode c.formula_mode && is_formula_text p.normalized)
        || nm.excel_numeric_write_safe p.normalized
    | decimal ↦
        (is_formula_mode c.formula_mode && is_formula_text p.normalized)
        || nm.excel_numeric_write_safe p.normalized
    | _ ↦ true
  ]

  -- `_excel_write_value`
  unfoldable pub excel_write_value : ParsedValue Obj → ColumnRule Obj → Value Obj
  excel_write_value p c = if not p.valid || is_null p.normalized then null else elim c.type [
    | decimal ↦ Value.text (str_of py p.normalized)
    | date ↦ Value.text (nm.isoformat p.normalized)
    | datetime ↦ Value.text (nm.isoformat p.normalized)
    | FieldType.set ↦ Value.text (join_with c.separator (nm.elements p.normalized))
    | FieldType.json ↦ Value.text (str_of py p.normalized)
    | integer ↦ p.normalized
    | boolean ↦ p.normalized
    | enum ↦ p.normalized
    | _ ↦ p.raw
  ]
