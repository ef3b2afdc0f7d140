-- ===== src/Product/SchemaBuilder/Loops.antt =====
-- How the loop over the mappings that are not accepted ends.
use excel_youhua.Product.SchemaBuilder.Core.{has_no_column}
use excel_youhua.Product.SchemaBuilder.Columns.{more_columns, HasColumns, IsNumbered}
use excel_youhua.Product.FieldContract.{is_valid_planned, is_valid_field}
use excel_youhua.Product.SchemaBuilder.Free.{free_id-ends}
use excel_youhua.Prelude.Results.{err, ok}
use excel_youhua.Python.{Python}
use excel_youhua.Product.Models.{FieldMapping}
use excel_youhua.Product.SchemaBuilder.{
  merchant_values, is_valid_field, merchant_field, plan_extra, merchant_id, FieldMapping,
}
use excel_youhua.Product.SchemaCore.{validation_error}
use excel_youhua.Product.SchemaCore.{planned_field, is_accepted}
use excel_youhua.Product.SchemaPlan.{planned_ids, PlannedField}
use excel_youhua.Prelude.{
  ◌⊎◌, ◌≤◌, not, ◌&&◌, inr, inl, Bool-cases, sym, contains-append, eq_iff, ◌∙◌, any, some, true,
  false, contains, Distinct, ◌++◌, All, Bool, ◌+◌, String, ℕ, List, ◌≡◌, refl, arith, string_eq,
  nat_eq, [], ◌∷◌,
}

-- the names that are taken stay taken
kept_apart :
    (used : List String) (id : String) (ids : List String)
    → All (λ y. contains (used ++ id ∷ []) y ≡ false) ids
    → (contains ids id ≡ false) × All (λ y. contains used y ≡ false) ids
kept_apart used id [] h = (refl, tt)
kept_apart used id (y ∷ ids) h =
    let (fresh, later) = kept_apart used id ids h.1 in
    let both = sym (contains-append used (id ∷ []) y) ∙ h.0 in
    (ground (arith, both, fresh, eq_iff id y, eq_iff y id), (ground (arith, both), later))

module _ (py : Python) (known_timezone : String → Bool) (digest : String → String) where
  -- CatalogFieldDefinition refuses the field with the identifier for a header that no field takes.
  abbrev pub refused_extra : String → FieldMapping → Bool
  unfolding is_valid_field
  refused_extra id m =
      not (is_accepted m)
      && not (is_valid_field py known_timezone false (merchant_values py digest m id))

  -- why the loop over the mappings that are not accepted fails
  abbrev pub IsRefused : List FieldMapping → Type 0
  IsRefused mappings =
      ((id : String) × (any (refused_extra id) mappings ≡ true))
      ⊎ (any has_no_column mappings ≡ true)

  later-IsRefused :
      (m : FieldMapping) (mappings : List FieldMapping)
      → IsRefused mappings
      → IsRefused (m ∷ mappings)
  later-IsRefused m mappings (inl (id, refused)) = inl (id, ground (arith, refused))
  later-IsRefused m mappings (inr bad) = inr (ground (arith, bad))

  -- the loop makes fields with these ordinals and free identifiers, which hold all columns
  abbrev pub AreExtra : ℕ → List String → List FieldMapping → List PlannedField → Type 0
  AreExtra n used mappings fields =
      IsNumbered n fields
      × Distinct (planned_ids fields)
      × All (λ y. contains used y ≡ false) (planned_ids fields)
      × HasColumns (is_valid_field py known_timezone false) mappings fields

  pub merchant_id-ends :
      (header : String) (used : List String)
      → (id : String) × (merchant_id py digest header used ≡ ok id) × (contains used id ≡ false)
  unfolding merchant_id
  merchant_id-ends header used = free_id-ends _ used

  accepted-AreExtra :
      (n : ℕ) (used : List String) (m : FieldMapping) (mappings : List FieldMapping)
      (fields : List PlannedField)
      → is_accepted m ≡ true
      → AreExtra n used mappings fields
      → AreExtra n used (m ∷ mappings) fields
  accepted-AreExtra n used m mappings fields is_one (numbers, d, apart, columns) =
      (numbers, d, apart, (λ other. absurd (cc), columns))

  next-AreExtra :
      (n : ℕ) (used : List String) (m : FieldMapping) (mappings : List FieldMapping) (id : String)
      (fields : List PlannedField)
      → contains used id ≡ false
      → is_valid_field py known_timezone false (merchant_values py digest m id) ≡ true
      → AreExtra (n + 1) (used ++ id ∷ []) mappings fields
      → AreExtra n used
          (m ∷ mappings)
          (planned_field n (merchant_values py digest m id) (some m) ∷ fields)
  unfolding merchant_values
  next-AreExtra n used m mappings id fields free fine (numbers, d, apart, columns) =
      let (fresh, later) = kept_apart used id (planned_ids fields) apart in
      let planned = planned_field n (merchant_values py digest m id) (some m) in
      (
        (refl, numbers),
        (fresh, d),
        (free, later),
        (
          λ other. ground (arith, fine),
          more_columns (is_valid_field py known_timezone false) planned mappings fields columns,
        ),
      )

  pub plan_extra-ends :
      (n : ℕ) (used : List String) (mappings : List FieldMapping)
      → 1 ≤ n
      → ((fields : List PlannedField) × (plan_extra py known_timezone digest n used mappings
            ≡ ok fields)
          × AreExtra n used mappings fields)
        ⊎ ((plan_extra py known_timezone digest n used mappings ≡ err validation_error)
            × IsRefused mappings)
  unfolding plan_extra merchant_field
  plan_extra-ends n used [] positive = inl ([], refl, (tt, tt, tt, tt))
  plan_extra-ends n used (m ∷ mappings) positive = elim (Bool-cases (is_accepted m)) [
    | inl is_one ↦ elim (plan_extra-ends n used mappings positive) [
      | inl (fields, made, all) ↦ inl (
        fields,
        rw (plan_extra, is_one) made,
        accepted-AreExtra n used m mappings fields is_one all,
      )
      | inr (failed, cause) ↦ inr (rw (plan_extra, is_one) failed, later-IsRefused m mappings cause)
    ]
    | inr other ↦
        let (id, named, free) = merchant_id-ends m.raw_header used in
        let values = merchant_values py digest m id in
        elim (Bool-cases (is_valid_field py known_timezone false values)) [
          | inr refused ↦ inr (
            rw (plan_extra, other, named, merchant_field, refused),
            inl (id, rw (other, refused) refl),
          )
          | inl fine ↦ elim (Bool-cases (is_valid_planned (planned_field n values (some m)))) [
            | inr bad ↦ inr (
              rw (plan_extra, other, named, merchant_field, fine, bad),
              inr (ground (arith, bad, positive)),
            )
            | inl good ↦ elim (plan_extra-ends (n + 1) (used ++ id ∷ []) mappings (omega arith)) [
              | inl (fields, made, all) ↦ inl (
                planned_field n values (some m) ∷ fields,
                rw (plan_extra, other, named, merchant_field, fine, good, made),
                next-AreExtra n used m mappings id fields free fine all,
              )
              | inr (failed, cause) ↦ inr (
                rw (plan_extra, other, named, merchant_field, fine, good, failed),
                later-IsRefused m mappings cause,
              )
            ]
          ]
        ]
  ]
