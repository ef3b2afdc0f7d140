-- ===== src/Product/SchemaBuilder/Columns.antt =====
-- The ordinals and the columns of planned fields.
use excel_youhua.Product.SchemaBuilder.Apart.{all_different-true}
use excel_youhua.Prelude.Equality.{option_beq}
use excel_youhua.Product.Models.{CatalogFieldDefinition, FieldMapping}
use excel_youhua.Product.SchemaBuilder.{FieldMapping}
use excel_youhua.Product.SchemaCore.{is_accepted}
use excel_youhua.Product.SchemaPlan.{planned_ids, deterministic_contract, is_numbered, PlannedField}
use excel_youhua.Prelude.{
  ◌&&◌, subst, any, some, true, false, ap, length, Distinct, ◌++◌, All, Bool, ◌+◌, String, ℕ, List,
  ◌≡◌, refl, arith, string_eq, nat_eq, [], ◌∷◌,
}

-- the ordinals are n, n + 1 and so on
abbrev pub IsNumbered : ℕ → List PlannedField → Type 0
IsNumbered n [] = Unit
IsNumbered n (f ∷ fields) = (f.ordinal ≡ n) × IsNumbered (n + 1) fields

-- a planned field that passes a test holds the column
abbrev pub has_column : (CatalogFieldDefinition → Bool) → ℕ → PlannedField → Bool
has_column valid column f = option_beq f.source_column (some column) && valid f.field

-- the column of every mapping that is not accepted is in the plan, in a field that passes the test
abbrev pub HasColumns :
    (CatalogFieldDefinition → Bool) → List FieldMapping → List PlannedField → Type 0
HasColumns valid mappings fields =
    All (λ m. is_accepted m ≡ false → any (has_column valid m.physical_column) fields ≡ true)
      mappings

pub IsNumbered-append :
    (n : ℕ) (xs ys : List PlannedField)
    → IsNumbered n xs
    → IsNumbered (n + length xs) ys
    → IsNumbered n (xs ++ ys)
IsNumbered-append n [] ys f g = subst (λ (k : ℕ). IsNumbered k ys) (omega arith) g
IsNumbered-append n (x ∷ xs) ys f g =
    (f.0, IsNumbered-append (n + 1) xs ys f.1 (subst (λ (k : ℕ). IsNumbered k ys) (omega arith) g))

is_numbered-true :
    (n : ℕ) (fields : List PlannedField) → IsNumbered n fields → is_numbered n fields ≡ true
is_numbered-true n [] h = refl
is_numbered-true n (f ∷ fields) h = ground (arith, is_numbered-true (n + 1) fields h.1)

-- A plan that is numbered and has no identifier twice passes its own check.
pub deterministic_contract-true :
    (fields : List PlannedField)
    → IsNumbered 1 fields
    → Distinct (planned_ids fields)
    → deterministic_contract fields ≡ true
unfolding deterministic_contract
deterministic_contract-true fields h d =
    rw (is_numbered-true 1 fields h, all_different-true (planned_ids fields) d) refl

pub planned_ids-append :
    (xs ys : List PlannedField) → planned_ids (xs ++ ys) ≡ planned_ids xs ++ planned_ids ys
planned_ids-append [] ys = refl
planned_ids-append (x ∷ xs) ys =
    ap (λ (ids : List String). x.field.field_id ∷ ids) (planned_ids-append xs ys)

pub more_columns :
    (valid : CatalogFieldDefinition → Bool) (f : PlannedField) (mappings : List FieldMapping)
    (fields : List PlannedField)
    → HasColumns valid mappings fields
    → HasColumns valid mappings (f ∷ fields)
more_columns valid f [] fields h = tt
more_columns valid f (m ∷ mappings) fields h =
    (λ other. ground (arith, h.0 other), more_columns valid f mappings fields h.1)

pub in_front :
    (valid : CatalogFieldDefinition → Bool) (fields : List PlannedField)
    (mappings : List FieldMapping) (extra : List PlannedField)
    → HasColumns valid mappings extra
    → HasColumns valid mappings (fields ++ extra)
in_front valid [] mappings extra h = h
in_front valid (f ∷ fields) mappings extra h =
    more_columns valid f mappings (fields ++ extra) (in_front valid fields mappings extra h)
