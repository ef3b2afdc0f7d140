-- ===== src/Product/Mapping/Owners.antt =====
-- What the prepared dictionaries of `map_product_headers` hold (product_workflow/mapping.py).
use excel_youhua.Prelude.{
  subst, sym, true, if◌then◌else◌, Option-cases, none, false, ◌∙◌, String, Bool, true, ◌||◌, ◌&&◌,
  List, [], ◌∷◌, map, some, ◌≡◌, ◌⊎◌, inl, inr, arith, contains, add, contains-add, any, Distinct,
  Distinct-add, eq-singleton, ◌==◌, string_eq, eq_iff,
}
use excel_youhua.Prelude.Results.{ok}
use excel_youhua.Dict.{get_or-put, Dict, get, put, get_or, has, get-put}
use excel_youhua.Python.{Python}
use excel_youhua.Product.Models.{CatalogFieldDefinition}
use excel_youhua.Product.Mapping.Prepare.{
  key, field_values, add_owner, collect_owners, confirm_aliases,
}

Distinct-if :
    (b : Bool) (xs ys : List String) → Distinct xs → Distinct ys → Distinct (if b then xs else ys)
Distinct-if true xs ys hx hy = hx
Distinct-if false xs ys hx hy = hy

module _ (py : Python) where
  -- The field is one with the id `f` and a name whose key is `token`.
  abbrev pub is_named : String → String → CatalogFieldDefinition → Bool
  is_named token f field =
      (field.field_id == f) && contains (map (key py) (field_values field)) token

  contains-put-add :
      (fid k token f : String) (d : Dict String (List String))
      → contains (get_or token [] (put k (add fid (get_or k [] d)) d)) f
        ≡ (contains (get_or token [] d) f || ((fid == f) && (k == token)))
  contains-put-add fid k token f d = ground (
    arith,
    get-put k token (add fid (get_or k [] d)) d,
    eq_iff k token,
    contains-add fid (get_or k [] d) f,
    contains-add fid [] f,
  )

  pub contains-add_owner :
      (fid token f : String) (vs : List String) (d : Dict String (List String))
      → contains (get_or token [] (add_owner py fid vs d)) f
        ≡ (contains (get_or token [] d) f || ((fid == f) && contains (map (key py) vs) token))
  unfolding add_owner
  contains-add_owner fid token f [] d = ground arith
  contains-add_owner fid token f (v ∷ vs) d = ground (
    arith,
    contains-put-add fid (key py v) token f d,
    contains-add_owner fid token f vs (put (key py v) (add fid (get_or (key py v) [] d)) d),
  )

  contains-collect_owners :
      (token f : String) (fields : List CatalogFieldDefinition) (d : Dict String (List String))
      → contains (get_or token [] (collect_owners py fields d)) f
        ≡ (contains (get_or token [] d) f || any (is_named token f) fields)
  unfolding collect_owners
  contains-collect_owners token f [] d = ground arith
  contains-collect_owners token f (field ∷ fields) d = ground (
    arith,
    contains-collect_owners token f fields (add_owner py field.field_id (field_values field) d),
    contains-add_owner field.field_id token f (field_values field) d,
  )

  -- The owners of a token are the fields that it names.
  pub owners_lem :
      (token f : String) (fields : List CatalogFieldDefinition)
      → contains (get_or token [] (collect_owners py fields [])) f ≡ any (is_named token f) fields
  unfolding get
  owners_lem token f fields = contains-collect_owners token f fields []

  -- The alias is confirmed for the field `f`, and its key is `token`.
  abbrev pub is_confirmed : String → String → String × String → Bool
  is_confirmed token f alias = (key py alias.0 == token) && (alias.1 == f)

  confirm_aliases_inv :
      (by_id : Dict String CatalogFieldDefinition) (aliases c₀ c : Dict String String)
      (token f : String)
      → confirm_aliases py by_id aliases c₀ ≡ ok c
      → get token c ≡ some f
      → (get token c₀ ≡ some f)
        ⊎ ((any (is_confirmed token f) aliases ≡ true) × (has f by_id ≡ true))
  unfolding confirm_aliases
  confirm_aliases_inv by_id [] c₀ c token f e g = inl (ground arith)
  confirm_aliases_inv by_id ((alias, fid) ∷ rest) c₀ c token f e g = ground (
    arith,
    get-put (key py alias) token fid c₀,
    eq_iff (key py alias) token,
    eq_iff fid f,
    confirm_aliases_inv by_id rest (put (key py alias) fid c₀) c token f,
  )

  pub confirmed_lem :
      (by_id : Dict String CatalogFieldDefinition) (aliases c : Dict String String)
      (token f : String)
      → confirm_aliases py by_id aliases [] ≡ ok c
      → get token c ≡ some f
      → (any (is_confirmed token f) aliases ≡ true) × (has f by_id ≡ true)
  unfolding get
  confirmed_lem by_id aliases c token f e g =
      elim (confirm_aliases_inv by_id aliases [] c token f e g) [ inl h ↦ cc h | inr h ↦ h ]

  -- The owners of every token are a set.
  abbrev AreSets : Dict String (List String) → Type 0
  AreSets d = (token : String) → Distinct (get_or token [] d)

  add_owner-AreSets :
      (fid : String) (vs : List String) (d : Dict String (List String))
      → AreSets d
      → AreSets (add_owner py fid vs d)
  unfolding add_owner
  add_owner-AreSets fid [] d h = h
  add_owner-AreSets fid (v ∷ vs) d h =
      add_owner-AreSets fid vs (put (key py v) (add fid (get_or (key py v) [] d)) d) λ token.
        let vs' = add fid (get_or (key py v) [] d) in
        subst (λ (l : List String). Distinct l) (sym (get_or-put (key py v) token vs' [] d))
          (Distinct-if (key py v == token) vs' (get_or token [] d)
            (Distinct-add fid (get_or (key py v) [] d) (h (key py v))) (h token))

  collect_owners-AreSets :
      (fields : List CatalogFieldDefinition) (d : Dict String (List String))
      → AreSets d
      → AreSets (collect_owners py fields d)
  unfolding collect_owners
  collect_owners-AreSets [] d h = h
  collect_owners-AreSets (f ∷ fields) d h =
      collect_owners-AreSets fields (add_owner py f.field_id (field_values f) d)
        (add_owner-AreSets f.field_id (field_values f) d h)

  -- A field that alone is named by a token is its one owner.
  pub owners-singleton :
      (token f : String) (fields : List CatalogFieldDefinition)
      → ((g : String) → any (is_named token g) fields ≡ (f == g))
      → get_or token [] (collect_owners py fields []) ≡ f ∷ []
  unfolding get
  owners-singleton token f fields only =
      eq-singleton (get_or token [] (collect_owners py fields [])) f
        (collect_owners-AreSets fields [] (λ _. tt) token) (λ g. owners_lem token g fields ∙ only g)

  any-is_confirmed :
      (token f : String) (aliases : Dict String String)
      → any (λ a. key py a.0 == token) aliases ≡ false
      → any (is_confirmed token f) aliases ≡ false
  any-is_confirmed token f [] h = h
  any-is_confirmed token f (a ∷ as') h = ground (arith, any-is_confirmed token f as')

  pub unconfirmed_lem :
      (by_id : Dict String CatalogFieldDefinition) (aliases c : Dict String String) (token : String)
      → confirm_aliases py by_id aliases [] ≡ ok c
      → any (λ a. key py a.0 == token) aliases ≡ false
      → get token c ≡ none
  unconfirmed_lem by_id aliases c token e h = elim (Option-cases (get token c)) [
    | inl n ↦ n
    | inr (f, found) ↦
        let absent = any-is_confirmed token f aliases h in
        cc (absent, (confirmed_lem by_id aliases c token f e found).0)
  ]
