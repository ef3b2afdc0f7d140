-- ===== src/Product/SchemaBuilder/Core.antt =====
-- How the loops over the columns, the reviews and the core fields end: with their result, or because a
-- model refuses a part of it.
use excel_youhua.Product.Reviews.Models.{ReviewItem}
use excel_youhua.Product.SchemaBuilder.Columns.{IsNumbered}
use excel_youhua.Product.FieldContract.{
  is_valid_planned, is_valid_review, source_contract, is_valid_field,
}
use excel_youhua.Prelude.Results.{err, ok}
use excel_youhua.Python.{Python}
use excel_youhua.Product.Models.{CatalogFieldDefinition, FieldMapping}
use excel_youhua.Product.SchemaBuilder.{is_valid_field, CatalogFieldDefinition, FieldMapping}
use excel_youhua.Product.SchemaCore.{validation_error}
use excel_youhua.Product.SchemaCore.{
  review_values, fixed_values, review_items, fixed_field, is_manual, review_of, fixed_fields,
  accepted_mapping, planned_field, plan_core,
}
use excel_youhua.Product.SchemaPlan.{planned_ids, ColumnRule, field_ids, PlannedField}
use excel_youhua.Prelude.{
  leb, ◌⊎◌, ◌≤◌, Option-cases, not, ◌&&◌, inr, inl, Bool-cases, none, ◌∙◌, any, some, true, Option,
  false, ap, Bool, ◌+◌, String, ℕ, List, ◌≡◌, refl, arith, string_eq, nat_eq, [], ◌∷◌,
}

module _ (py : Python) (known_timezone : String → Bool) where
  -- CatalogFieldDefinition refuses the field of the column.
  abbrev pub refused_column : ColumnRule → Bool
  unfolding is_valid_field
  refused_column c = not (is_valid_field py known_timezone c.bounded (fixed_values c 0))

  -- the order of display is no reason to refuse a field
  any_order :
      (c : ColumnRule) (n : ℕ)
      → is_valid_field py known_timezone c.bounded (fixed_values c n) ≡ not (refused_column c)
  unfolding is_valid_field source_contract
  any_order c n = ground arith

  pub fixed_fields-ends :
      (n : ℕ) (columns : List ColumnRule)
      → ((fields : List CatalogFieldDefinition) × (fixed_fields py known_timezone n columns
            ≡ ok fields)
          × (any refused_column columns ≡ false))
        ⊎ ((fixed_fields py known_timezone n columns ≡ err validation_error)
            × (any refused_column columns ≡ true))
  unfolding fixed_fields fixed_field
  fixed_fields-ends n [] = inl ([], refl, refl)
  fixed_fields-ends n (c ∷ columns) = elim (Bool-cases (refused_column c)) [
    | inl refused ↦ inr (rw (fixed_fields, fixed_field, any_order c n, refused), rw refused refl)
    | inr fine ↦ elim (fixed_fields-ends (n + 1) columns) [
      | inl (fields, made, none_refused) ↦ inl (
        fixed_values c n ∷ fields,
        rw (fixed_fields, fixed_field, any_order c n, fine, made),
        rw (fine, none_refused) refl,
      )
      | inr (failed, some_refused) ↦ inr (
        rw (fixed_fields, fixed_field, any_order c n, fine, failed),
        rw (fine, some_refused) refl,
      )
    ]
  ]

-- ReviewItem refuses the review of the mapping.
abbrev pub refused_review : String → FieldMapping → Bool
refused_review category_id m = is_manual m && not (is_valid_review (review_values category_id m))

pub review_items-ends :
    (category_id : String) (mappings : List FieldMapping)
    → ((items : List ReviewItem) × (review_items category_id mappings ≡ ok items)
        × (any (refused_review category_id) mappings ≡ false))
      ⊎ ((review_items category_id mappings ≡ err validation_error)
          × (any (refused_review category_id) mappings ≡ true))
unfolding review_items review_of
review_items-ends category_id [] = inl ([], refl, refl)
review_items-ends category_id (m ∷ mappings) = elim (Bool-cases (is_manual m)) [
  | inr other ↦ rw (review_items, other) (review_items-ends category_id mappings)
  | inl manual ↦ elim (Bool-cases (is_valid_review (review_values category_id m))) [
    | inr refused ↦ inr (rw (review_items, manual, review_of, refused), rw (manual, refused) refl)
    | inl fine ↦ elim (review_items-ends category_id mappings) [
      | inl (items, made, none_refused) ↦ inl (
        review_values category_id m ∷ items,
        rw (review_items, manual, review_of, fine, made),
        rw (manual, fine, none_refused) refl,
      )
      | inr (failed, some_refused) ↦
          inr (
            rw (review_items, manual, review_of, fine, failed),
            rw (manual, fine, some_refused) refl,
          )
    ]
  ]
]

-- PlannedField refuses the column of the mapping.
abbrev pub has_no_column : FieldMapping → Bool
has_no_column m = not (leb 1 m.physical_column)

accepted_mapping-column :
    (field_id : String) (mappings : List FieldMapping) {m : FieldMapping}
    → accepted_mapping field_id mappings ≡ some m
    → has_no_column m ≡ true
    → any has_no_column mappings ≡ true
accepted_mapping-column field_id [] h bad = cc
accepted_mapping-column field_id (m ∷ mappings) h bad =
    elim (Option-cases (accepted_mapping field_id mappings)) [
      | inr (later, e) ↦
          let rest = accepted_mapping-column field_id mappings e (ground (arith, h, bad)) in
          ground (arith, rest)
      | inl nothing ↦ ground (arith, h, bad, nothing)
    ]

planned-refused :
    (n : ℕ) (f : CatalogFieldDefinition) (mappings : List FieldMapping) (o : Option FieldMapping)
    → 1 ≤ n
    → accepted_mapping f.field_id mappings ≡ o
    → is_valid_planned (planned_field n f o) ≡ false
    → any has_no_column mappings ≡ true
planned-refused n f mappings none positive e h = absurd (ground (arith, positive, h))
planned-refused n f mappings (some m) positive e h =
    accepted_mapping-column f.field_id mappings e (ground (arith, positive, h))

planned-fields :
    (n : ℕ) (f : CatalogFieldDefinition) (o : Option FieldMapping)
    → ((planned_field n f o).ordinal ≡ n) × ((planned_field n f o).field ≡ f)
planned-fields n f none = (refl, refl)
planned-fields n f (some m) = (refl, refl)

pub plan_core-ends :
    (n : ℕ) (mappings : List FieldMapping) (fields : List CatalogFieldDefinition)
    → 1 ≤ n
    → ((core : List PlannedField) × (plan_core n mappings fields ≡ ok core)
        × IsNumbered n core
        × (planned_ids core ≡ field_ids fields))
      ⊎ ((plan_core n mappings fields ≡ err validation_error) × (any has_no_column mappings ≡ true))
unfolding plan_core
plan_core-ends n mappings [] positive = inl ([], refl, tt, refl)
plan_core-ends n mappings (f ∷ fields) positive =
    let planned = planned_field n f (accepted_mapping f.field_id mappings) in
    let (ordinal, same) = planned-fields n f (accepted_mapping f.field_id mappings) in
    elim (Bool-cases (is_valid_planned planned)) [
      | inr refused ↦ inr (
        rw (plan_core, refused),
        planned-refused n f mappings (accepted_mapping f.field_id mappings) positive refl refused,
      )
      | inl fine ↦ elim (plan_core-ends (n + 1) mappings fields (omega arith)) [
        | inl (core, made, numbers, ids) ↦ inl (
          planned ∷ core,
          rw (plan_core, fine, made),
          (ordinal, numbers),
          ap (λ (g : CatalogFieldDefinition). g.field_id ∷ planned_ids core) same
              ∙ ap (λ (l : List String). f.field_id ∷ l) ids,
        )
        | inr (failed, cause) ↦ inr (rw (plan_core, fine, failed), cause)
      ]
    ]
