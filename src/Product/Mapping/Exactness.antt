-- ===== src/Product/Mapping/Exactness.antt =====
-- What `map_product_headers` promises (product_workflow/mapping.py).
use excel_youhua.Prelude.{
  ℕ, ◌+◌, String, Bool, true, false, ◌||◌, List, [], ◌∷◌, map, some, ◌≡◌, refl, ◌⊎◌, inl, inr,
  contains, any, Distinct, All, get_elem?, ◌==◌, string_eq, ap, ◌∙◌, sym, subst, length, nat_eq,
}
use excel_youhua.Prelude.Results.{ok, require, >>=-eq-ok}
use excel_youhua.Dict.{Dict, get_or}
use excel_youhua.Python.{Python, text}
use excel_youhua.Text.{header_key}
use excel_youhua.Product.Models.{CatalogFieldDefinition, FieldMapping, Fuzzy}
use excel_youhua.Product.Mapping.{key, Targets, Options, targets, loop, map_product_headers}
use excel_youhua.Product.Mapping.Prepare.{
  index_fields, duplicate_target, confirm_aliases, collect_owners,
}
use excel_youhua.Product.Mapping.Owners.{
  is_named, is_confirmed, owners_lem, confirmed_lem, owners-singleton, unconfirmed_lem,
}
use excel_youhua.Product.Mapping.Accepted.{
  IsBacked, loop-Distinct, loop-IsBacked, loop-place, loop_complete,
}
use excel_youhua.Product.Mapping.Outcome.{accepted_id, accepted_ids, Names, place, enumerate}

or_false : (b : Bool) → (b || false) ≡ b
or_false true = refl
or_false false = refl

All-map {ℓ κ μ} :
    {A : Type ℓ} {P : A → Type κ} {Q : A → Type μ}
    → ((a : A) → P a → Q a)
    → (xs : List A) → All P xs
    → All Q xs
All-map f [] h = tt
All-map f (x ∷ xs) h = (f x h.0, All-map f xs h.1)

-- The header key is that of an alias confirmed for the field `f`.
abbrev pub IsConfirmed : Python → Options → String → String → Type 0
IsConfirmed py opts token f = any (is_confirmed py token f) opts.confirmed_aliases ≡ true

-- The field `f` has a name with this key, and no other field has one.
abbrev pub IsOnlyOwner : Python → List CatalogFieldDefinition → String → String → Type 0
IsOnlyOwner py fields token f = (g : String) → any (is_named py token g) fields ≡ (f == g)

module _ (py : Python) (fz : Fuzzy) (headers : List String) (fields : List CatalogFieldDefinition)
    (opts : Options) where
  abbrev Runs : Targets → List FieldMapping → Type 0
  Runs t ms =
      (targets py fields opts.confirmed_aliases ≡ ok t) × (loop py fz opts t headers 1 [] ≡ ms)

  runs :
      (ms : List FieldMapping)
      → map_product_headers py fz headers fields opts ≡ ok ms
      → (t : Targets) × Runs t ms
  unfolding map_product_headers
  runs ms e =
      let (t, prepared, looped) =
        >>=-eq-ok (targets py fields opts.confirmed_aliases)
          (λ t. ok (loop py fz opts t headers 1 [])) e in
      (t, (prepared, cc looped))

  targets_inv :
      (t : Targets)
      → targets py fields opts.confirmed_aliases ≡ ok t
      → (by_id : Dict String CatalogFieldDefinition) × (confirm_aliases py by_id
            opts.confirmed_aliases []
          ≡ ok t.confirmed)
        × (t.token_owners ≡ collect_owners py fields [])
  unfolding targets
  targets_inv t e =
      let by_id = index_fields [] fields in
      let (_, _, rest) =
        >>=-eq-ok (require (nat_eq.beq (length by_id) (length fields)) duplicate_target) _ e in
      let (confirmed, checked, built) =
        >>=-eq-ok (confirm_aliases py by_id opts.confirmed_aliases []) _ rest in
      (by_id, cc (checked, built), cc built)

  Names_lem :
      (t : Targets) (token f : String)
      → targets py fields opts.confirmed_aliases ≡ ok t
      → Names t token f
      → IsConfirmed py opts token f ⊎ IsOnlyOwner py fields token f
  Names_lem t token f e (inl c) =
      let (by_id, confirmed, _) = targets_inv t e in
      inl (confirmed_lem py by_id opts.confirmed_aliases t.confirmed token f confirmed c).0
  Names_lem t token f e (inr (_, one)) =
      let (_, _, owners) = targets_inv t e in
      inr (λ g.
        sym (owners_lem py token g fields)
        ∙ ap (λ (l : List String). contains l g) (ap (get_or token []) (sym owners) ∙ one)
        ∙ or_false (f == g))

  only_named :
      (t : Targets) (token f : String)
      → targets py fields opts.confirmed_aliases ≡ ok t
      → any (λ a. key py a.0 == token) opts.confirmed_aliases ≡ false
      → IsOnlyOwner py fields token f
      → Names t token f
  only_named t token f e unconfirmed only =
      let (by_id, confirmed, owners) = targets_inv t e in
      inr (
        unconfirmed_lem py by_id opts.confirmed_aliases t.confirmed token confirmed unconfirmed,
        rw owners (owners-singleton py token f fields only),
      )

  module _ (ms : List FieldMapping)
      (e : map_product_headers py fz headers fields opts ≡ ok ms) where
    -- No catalog field is accepted for two columns.
    pub mapping-Distinct : Distinct (accepted_ids ms)
    mapping-Distinct =
        let (t, (_, looped)) = runs ms e in
        subst (λ (l : List FieldMapping). Distinct (accepted_ids l)) looped
          (loop-Distinct py fz opts t headers 1 [])

    -- A column is accepted for a field only if it is not forced to be extra and the key of its
    -- header is that of an alias confirmed for the field, or of a name that this field alone has.
    -- So a fuzzy match is never accepted.
    pub mapping_exact :
        All
          (λ m.
            (f : String)
            → accepted_id m ≡ some f
            → (IsConfirmed py opts (header_key py (text m.raw_header)) f
                ⊎ IsOnlyOwner py fields (header_key py (text m.raw_header)) f)
              × (contains opts.forced_extra_columns m.physical_column ≡ false))
          ms
    mapping_exact =
        let (t, (prepared, looped)) = runs ms e in
        All-map
          (λ m backed f a.
            let (named, free) = backed f a in
            (Names_lem t (header_key py (text m.raw_header)) f prepared named, free))
          ms (subst (All (IsBacked py fz opts t)) looped (loop-IsBacked py fz opts t headers 1 []))

    -- There is one mapping for each header, in their order, numbered from 1, with the header's text.
    pub mapping_aligned : map place ms ≡ enumerate 1 headers
    mapping_aligned =
        let (t, (_, looped)) = runs ms e in
        subst (λ (l : List FieldMapping). map place l ≡ enumerate 1 headers) looped
          (loop-place py fz opts t headers 1 [])

    -- A field that alone has a name with the key of some header is accepted for some column, if
    -- that header's column is not forced to be extra and no alias with the key is confirmed.
    pub mapping_complete :
        (i : ℕ) (raw f : String)
        → get_elem? headers i ≡ some raw
        → contains opts.forced_extra_columns (1 + i) ≡ false
        → any (λ a. key py a.0 == header_key py (text raw)) opts.confirmed_aliases ≡ false
        → IsOnlyOwner py fields (header_key py (text raw)) f
        → contains (accepted_ids ms) f ≡ true
    mapping_complete i raw f at_i free unconfirmed only =
        let (t, (prepared, looped)) = runs ms e in
        subst (λ (l : List FieldMapping). contains (accepted_ids l) f ≡ true) looped
          (loop_complete py fz opts t headers i 1 [] raw f at_i free
            (only_named t (header_key py (text raw)) f prepared unconfirmed only))
