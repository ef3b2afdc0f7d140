-- ===== src/Product/SchemaBuilder/Apart.antt =====
-- Lists of identifiers that are different from each other, and sorted.
use excel_youhua.Product.Models.{CatalogFieldDefinition}
use excel_youhua.Prelude.Sorting.{sorted, insert}
use excel_youhua.Product.SchemaBuilder.{CatalogFieldDefinition}
use excel_youhua.Product.SchemaCore.{field_le}
use excel_youhua.Product.SchemaPlan.{all_different, field_ids}
use excel_youhua.Prelude.{
  contains-append, ◌||◌, eq_iff, ◌∙◌, ◌==◌, true, false, ap, contains, Distinct, ◌++◌, All, Bool,
  String, List, ◌≡◌, refl, arith, string_eq, nat_eq, [], ◌∷◌,
}

pub all_different-true : (ids : List String) → Distinct ids → all_different ids ≡ true
all_different-true [] d = refl
all_different-true (id ∷ ids) d = ground (arith, all_different-true ids d.1)

apart-tail :
    (x : String) (xs ys : List String)
    → All (λ y. contains (x ∷ xs) y ≡ false) ys
    → (contains ys x ≡ false) × All (λ y. contains xs y ≡ false) ys
apart-tail x xs [] h = (refl, tt)
apart-tail x xs (y ∷ ys) h =
    let (fresh, later) = apart-tail x xs ys h.1 in
    let first = h.0 in
    (ground (arith, first, fresh, eq_iff x y, eq_iff y x), (ground (arith, first), later))

pub Distinct-append :
    (xs ys : List String)
    → Distinct xs
    → Distinct ys
    → All (λ y. contains xs y ≡ false) ys
    → Distinct (xs ++ ys)
Distinct-append [] ys f g apart = g
Distinct-append (x ∷ xs) ys f g apart =
    let (fresh, later) = apart-tail x xs ys apart in
    (rw (contains-append xs ys x) (ground (arith, f.0, fresh)), Distinct-append xs ys f.1 g later)

module _ (le : CatalogFieldDefinition → CatalogFieldDefinition → Bool) where
  -- sorting keeps the identifiers
  contains-insert :
      (id : String) (f : CatalogFieldDefinition) (fields : List CatalogFieldDefinition)
      → contains (field_ids (insert le f fields)) id
        ≡ ((f.field_id == id) || contains (field_ids fields) id)
  unfolding insert
  contains-insert id f [] = refl
  contains-insert id f (g ∷ fields) = ground (arith, contains-insert id f fields)

  contains-sorted :
      (id : String) (fields : List CatalogFieldDefinition)
      → contains (field_ids (sorted le fields)) id ≡ contains (field_ids fields) id
  unfolding sorted
  contains-sorted id [] = refl
  contains-sorted id (f ∷ fields) =
      contains-insert id f (sorted le fields)
      ∙ ap (λ (b : Bool). (f.field_id == id) || b) (contains-sorted id fields)

  Distinct-insert :
      (f : CatalogFieldDefinition) (fields : List CatalogFieldDefinition)
      → contains (field_ids fields) f.field_id ≡ false
      → Distinct (field_ids fields)
      → Distinct (field_ids (insert le f fields))
  unfolding insert
  Distinct-insert f [] fresh d = (refl, tt)
  Distinct-insert f (g ∷ fields) fresh d = ground (
    arith,
    contains-insert g.field_id f fields,
    eq_iff f.field_id g.field_id,
    eq_iff g.field_id f.field_id,
    Distinct-insert f fields,
  )

  pub Distinct-sorted :
      (fields : List CatalogFieldDefinition)
      → all_different (field_ids fields) ≡ true
      → Distinct (field_ids (sorted le fields))
  unfolding sorted
  Distinct-sorted [] h = tt
  Distinct-sorted (f ∷ fields) h =
      Distinct-insert f (sorted le fields) (contains-sorted f.field_id fields ∙ ground arith)
        (Distinct-sorted fields (ground arith))

pub apart_sorted :
    (fields : List CatalogFieldDefinition) (ids : List String)
    → All (λ y. contains (field_ids fields) y ≡ false) ids
    → All (λ y. contains (field_ids (sorted field_le fields)) y ≡ false) ids
apart_sorted fields [] h = tt
apart_sorted fields (y ∷ ids) h =
    (contains-sorted field_le y fields ∙ h.0, apart_sorted fields ids h.1)
