-- ===== src/Product/Category/Justified.antt =====
-- On what evidence `resolve_categories` (product_workflow/category.py) resolves a row.
use excel_youhua.Product.Category.Active.{any-index_categories, has-index_categories, is_active_id}
use excel_youhua.Prelude.{
  any-weaken_true, keep, length, ℕ, ◌+◌, String, Bool, true, false, not, ◌&&◌, ◌||◌, List, [], ◌∷◌,
  map, Option, none, some, ◌≡◌, refl, ◌⊎◌, inl, inr, any, contains, All, ◌==◌, nat_eq, string_eq,
  eq_iff, arith, Bool-cases, sym, subst,
}
use excel_youhua.Prelude.Results.{require, ok, >>=-eq-ok}
use excel_youhua.Dict.{Dict, get, has, get_or}
use excel_youhua.Python.{Python, Value}
use excel_youhua.Product.Models.{Fuzzy, MappingCandidate}
use excel_youhua.Product.Mapping.Prepare.{key, add_owner}
use excel_youhua.Product.Mapping.Step.{values}
use excel_youhua.Product.Mapping.Owners.{contains-add_owner}
use excel_youhua.Product.Category.{
  duplicate_category, rows_not_aligned, cell, is_aligned, normalize_header, id_of,
  CategoryDefinition, CategoryResolution, CategoryOptions, resolved, Basis, id, index_categories,
  category_names, collect_names, or_none, is_only, has_any, owners_of, review, conflict, unknown_id,
  suggest_categories, resolve_name, resolve_to, resolve_row, resolve_rows, row_at,
  resolve_categories,
}

module _ (py : Python) where
  -- The category has this id, and one of its names has this key.
  abbrev pub is_called : String → String → CategoryDefinition → Bool
  is_called token cid c = (c.category_id == cid) && contains (map (key py) (category_names c)) token

  contains-collect_names :
      (token cid : String) (cs : List CategoryDefinition) (d : Dict String (List String))
      → contains (get_or token [] (collect_names py cs d)) cid
        ≡ (contains (get_or token [] d) cid || any (is_called token cid) cs)
  unfolding collect_names
  contains-collect_names token cid [] d = ground arith
  contains-collect_names token cid (c ∷ cs) d = ground (
    arith,
    contains-collect_names token cid cs (add_owner py c.category_id (category_names c) d),
    contains-add_owner py c.category_id token cid (category_names c) d,
  )

  names_lem :
      (token cid : String) (cs : List CategoryDefinition)
      → contains (get_or token [] (collect_names py cs [])) cid ≡ any (is_called token cid) cs
  unfolding get
  names_lem token cid cs = contains-collect_names token cid cs []

  module _ (fz : Fuzzy) (opts : CategoryOptions) (by_id : Dict String CategoryDefinition) where
    -- The name is no other category's.
    abbrev IsNameOf : Option String → String → Type 0
    IsNameOf name cid =
        (s g : String)
        → name ≡ some s
        → any (is_called (key py s) g) (values by_id) ≡ true
        → g ≡ cid

    -- A resolved row has one category: its id is that of an active category, or it has no id and its
    -- name is that of the category; and its name is no other category's.
    abbrev pub IsJustified : CategoryResolution → Type 0
    IsJustified m =
        m.status ≡ resolved
        → (cid : String) × (m.category_id ≡ some cid)
          × IsNameOf m.raw_category cid
          × (((m.raw_category_id ≡ some cid) × (has cid by_id ≡ true))
              ⊎ ((m.raw_category_id ≡ none)
                  × ((s : String) × (m.raw_category ≡ some s)
                      × (any (is_called (key py s) cid) (values by_id) ≡ true))))

    abbrev names : Dict String (List String)
    names = collect_names py (values by_id) []

    abbrev owners : String → List String
    owners s = owners_of py fz opts by_id names s

    or_none-filled : (s t : String) → or_none s ≡ some t → (s ≡ t) × ((s == "") ≡ false)
    or_none-filled s t h = ground (arith, h, Bool-cases (s == ""))

    owned :
        (s : String) (g : String)
        → (s == "") ≡ false
        → contains (owners s) g ≡ any (is_called (key py s) g) (values by_id)
    owned s g filled = ground (arith, filled, names_lem (key py s) g (values by_id))

    only-IsNameOf : (s cid : String) → owners s ≡ cid ∷ [] → IsNameOf (or_none s) cid
    only-IsNameOf s cid only t g h called =
        let (same, filled) = or_none-filled s t h in
        ground (arith, only, same, called, owned s g filled, eq_iff cid g)

    none-IsNameOf : (s cid : String) → owners s ≡ [] → IsNameOf (or_none s) cid
    none-IsNameOf s cid only t g h called =
        let (same, filled) = or_none-filled s t h in
        ground (arith, only, same, called, owned s g filled)

    review-IsJustified :
        (row : ℕ) (raw_id raw_name : String) (basis otherwise : Basis) (cs : List MappingCandidate)
        → IsJustified (review py fz opts by_id names row raw_id raw_name basis otherwise cs)
    review-IsJustified row raw_id raw_name basis otherwise [] h = absurd (ground (arith, h))
    review-IsJustified row raw_id raw_name basis otherwise (c ∷ cs) h = absurd (ground (arith, h))

    suggest-IsJustified :
        (row : ℕ) (raw_name : String) (os : List String)
        → IsJustified (suggest_categories py fz opts by_id names row raw_name os)
    unfolding suggest_categories
    suggest-IsJustified row raw_name [] = review-IsJustified row "" raw_name _ _ _
    suggest-IsJustified row raw_name (o ∷ os) = review-IsJustified row "" raw_name _ _ _

    name-IsJustified :
        (row : ℕ) (raw_name : String) (os : List String)
        → (raw_name == "") ≡ false
        → owners raw_name ≡ os
        → IsJustified (resolve_name py fz opts by_id names row raw_name os)
    unfolding resolve_name
    name-IsJustified row raw_name (o ∷ []) filled only h = (
      o,
      refl,
      only-IsNameOf raw_name o only,
      inr (
        refl,
        (
          raw_name,
          ground (arith, filled),
          ground (arith, only, owned raw_name o filled, eq_iff o o),
        ),
      ),
    )
    name-IsJustified row raw_name [] filled only h = suggest-IsJustified row raw_name [] h
    name-IsJustified row raw_name (o ∷ p ∷ os) filled only h =
        suggest-IsJustified row raw_name (o ∷ p ∷ os) h

    id-IsNameOf :
        (raw_id raw_name : String) (os : List String)
        → owners raw_name ≡ os
        → (has_any os && not (is_only raw_id os)) ≡ false
        → IsNameOf (or_none raw_name) raw_id
    id-IsNameOf raw_id raw_name [] only h = none-IsNameOf raw_name raw_id only
    id-IsNameOf raw_id raw_name (o ∷ []) only h =
        let same : o ≡ raw_id = ground (arith, h, eq_iff o raw_id) in
        only-IsNameOf raw_name raw_id (rw same at only)
    id-IsNameOf raw_id raw_name (o ∷ p ∷ os) only h = absurd (ground (arith, h))

    row-IsJustified :
        (row : ℕ) (raw_id raw_name : String)
        → IsJustified (resolve_row py fz opts by_id names row raw_id raw_name)
    unfolding resolve_row conflict unknown_id
    row-IsJustified row raw_id raw_name =
        elim (Bool-cases (not (raw_id == "") && has raw_id by_id)) [
          | inl known ↦
              elim (Bool-cases
                (has_any (owners raw_name) && not (is_only raw_id (owners raw_name)))) [
                  | inl other ↦ λ h. absurd (ground (arith, known, other, h))
                  | inr same ↦
                      let to : resolve_row py fz opts by_id names row raw_id raw_name
                          ≡ resolve_to py fz opts by_id names row raw_id raw_name raw_id id =
                        ground (arith, known, same) in
                      subst (λ m. IsJustified m) (sym to)
                        (λ h. (
                          raw_id,
                          refl,
                          id-IsNameOf raw_id raw_name (owners raw_name) refl same,
                          inl (ground (arith, known), ground (arith, known)),
                        ))
                ]
          | inr unknown ↦ elim (Bool-cases (raw_name == "")) [
            | inl blank ↦ λ h. absurd (ground (arith, unknown, blank, h))
            | inr filled ↦ elim (Bool-cases (raw_id == "")) [
              | inl without ↦
                  let to : resolve_row py fz opts by_id names row raw_id raw_name
                      ≡ resolve_name py fz opts by_id names row raw_name (owners raw_name) =
                    ground (arith, unknown, filled, without) in
                  subst (λ m. IsJustified m) (sym to)
                    (name-IsJustified row raw_name (owners raw_name) filled refl)
              | inr given ↦
                  let to : resolve_row py fz opts by_id names row raw_id raw_name
                      ≡ unknown_id py fz opts by_id names row raw_id raw_name (owners raw_name) =
                    ground (arith, unknown, filled, given) in
                  subst (λ m. IsJustified m) (sym to) (review-IsJustified row raw_id raw_name _ _ _)
            ]
          ]
        ]

    rows-IsJustified :
        (rs : List (Dict String (Value py.Obj))) (offset : ℕ)
        → All IsJustified (resolve_rows py fz opts by_id names rs offset)
    unfolding resolve_rows
    rows-IsJustified [] offset = tt
    rows-IsJustified (r ∷ rs) offset = (
      row-IsJustified (row_at py fz opts by_id names offset) (id_of py fz opts by_id names r)
          (normalize_header py (cell py fz opts by_id names opts.source_field r)),
      rows-IsJustified rs (offset + 1),
    )

-- The category of a resolved row is an active one of the list.
abbrev pub IsActive : List CategoryDefinition → CategoryResolution → Type 0
IsActive categories m =
    m.status ≡ resolved
    → (cid : String) × (m.category_id ≡ some cid) × (any (is_active_id cid) categories ≡ true)

called-active :
    (py : Python) (token cid : String) (categories : List CategoryDefinition)
    → any (is_called py token cid) (values (index_categories [] categories)) ≡ true
    → any (is_active_id cid) categories ≡ true
called-active py token cid categories h =
    any-weaken_true (λ c. c.active && is_called py token cid c) (is_active_id cid) categories
      (λ c e. ground (arith, e)) (any-index_categories (is_called py token cid) categories [] h)

IsJustified-IsActive :
    (py : Python) (fz : Fuzzy) (opts : CategoryOptions) (categories : List CategoryDefinition)
    (ms : List CategoryResolution)
    → All (IsJustified py fz opts (index_categories [] categories)) ms
    → All (IsActive categories) ms
IsJustified-IsActive py fz opts categories [] h = tt
IsJustified-IsActive py fz opts categories (m ∷ ms) h =
    (λ done. active done (h.0 done), IsJustified-IsActive py fz opts categories ms h.1)
  where
    active :
        m.status ≡ resolved
        → (cid : String) × (m.category_id ≡ some cid)
          × IsNameOf py fz opts (index_categories [] categories) m.raw_category cid
          × (((m.raw_category_id ≡ some cid) × (has cid (index_categories [] categories) ≡ true))
              ⊎ ((m.raw_category_id ≡ none)
                  × ((s : String) × (m.raw_category ≡ some s)
                      × (any (is_called py (key py s) cid) (values (index_categories [] categories))
                          ≡ true))))
        → (cid : String) × (m.category_id ≡ some cid) × (any (is_active_id cid) categories ≡ true)
    active done (cid, at, _, inl (_, known)) =
        (cid, at, has-index_categories cid categories [] known)
    active done (cid, at, _, inr (_, (s, _, called))) =
        (cid, at, called-active py (key py s) cid categories called)

-- If `resolve_categories` succeeds, every row that it resolves to a category has the id of that active
-- category, or no id and a name of that category; its category is an active one of the list, and its
-- name is no other active category's. A fuzzy suggestion never resolves a row.
pub resolve_categories-IsJustified :
    (py : Python) (fz : Fuzzy) (opts : CategoryOptions) (rows : List (Dict String (Value py.Obj)))
    (categories : List CategoryDefinition) (ms : List CategoryResolution)
    → resolve_categories py fz opts rows categories ≡ ok ms
    → All (IsJustified py fz opts (index_categories [] categories)) ms
      × All (IsActive categories) ms
unfolding resolve_categories
resolve_categories-IsJustified py fz opts rows categories ms h =
    let by_id = index_categories [] categories in
    let (_, _, next) = >>=-eq-ok (require (is_aligned opts.excel_rows rows) rows_not_aligned) _ h in
    let (_, _, last) =
      >>=-eq-ok
        (require (nat_eq.beq (length by_id) (length (keep (λ c. c.active) categories)))
          duplicate_category)
        _ next in
    let same : resolve_rows py fz opts by_id (collect_names py (values by_id) []) rows 0 ≡ ms =
      cc last in
    let justified =
      subst (λ (l : List CategoryResolution). All (IsJustified py fz opts by_id) l) same
        (rows-IsJustified py fz opts by_id rows 0) in
    (justified, IsJustified-IsActive py fz opts categories ms justified)
