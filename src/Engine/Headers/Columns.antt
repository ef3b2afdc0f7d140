-- ===== src/Engine/Headers/Columns.antt =====
-- `canonical_columns` of `map_headers` (engine.py): each field has one column.
use excel_youhua.Prelude.{
  ◌∙◌, ◌||◌, ℕ, ◌≤◌, String, Bool, true, false, not, List, [], ◌∷◌, map, Option, none, some, ◌≡◌,
  refl, arith, ltb, count, keep, contains, Distinct, All, Option-cases, Bool-cases, inl, inr, Eq,
  string_eq, eq_iff,
}
use excel_youhua.Dict.{Dict, get, put, has, get-put, has-put}
use excel_youhua.Python.{Python}
use excel_youhua.Engine.Models.{HeaderMapping, SheetRule, SheetSnapshot}
use excel_youhua.Engine.Headers.{
  normalize_header, add_column, header_values, map_cells, exact_names, title_choices, FuzzyOne,
  matched_field, matched_fields, cons_some, mark_one, mark_duplicates, columns_from, map_headers,
}

module _ {ℓ} {A : Type ℓ} ⦃e : Eq A⦄ where
  -- The elements that stand once in `all`.
  abbrev once : List A → A → Bool
  once all x = not (ltb 1 (count x all))

  contains-keep :
      (p : A → Bool) (xs : List A) (x : A) → contains xs x ≡ false → contains (keep p xs) x ≡ false
  contains-keep p [] x h = refl
  contains-keep p (y ∷ ys) x h = ground (arith, contains-keep p ys x)

  count-pos : (xs : List A) (x : A) → contains xs x ≡ true → 1 ≤ count x xs
  count-pos [] x h = ground arith
  count-pos (y ∷ ys) x h = ground (arith, count-pos ys x)

  keep-once-Distinct :
      (all xs : List A) → ((x : A) → count x xs ≤ count x all) → Distinct (keep (once all) xs)
  keep-once-Distinct all [] h = tt
  keep-once-Distinct all (x ∷ xs) h = elim (Bool-cases (contains xs x)) [
    | inl again ↦ ground (
      arith,
      e.beq_iff x x,
      h x,
      count-pos xs x again,
      keep-once-Distinct all xs (λ y. ground (arith, h y)),
    )
    | inr new ↦ ground (
      arith,
      contains-keep (once all) xs x new,
      keep-once-Distinct all xs (λ y. ground (arith, h y)),
    )
  ]

mark_one-matched :
    (fields : List String) (m : HeaderMapping) (fs : List String)
    → cons_some (matched_field (mark_one fields m)) (keep (once fields) fs)
      ≡ keep (once fields) (cons_some (matched_field m) fs)
unfolding mark_one
mark_one-matched fields m fs = elim (Option-cases (matched_field m)) [
  | inl e ↦ ground (arith, e)
  | inr (f, e) ↦ ground (arith, e)
]

matched_fields-mark :
    (fields : List String) (ms : List HeaderMapping)
    → matched_fields (map (mark_one fields) ms) ≡ keep (once fields) (matched_fields ms)
matched_fields-mark fields [] = refl
matched_fields-mark fields (m ∷ ms) =
    rw (matched_fields-mark fields ms) (mark_one-matched fields m (matched_fields ms))

pub mark_duplicates-Distinct :
    (ms : List HeaderMapping) → Distinct (matched_fields (mark_duplicates ms))
unfolding mark_duplicates
mark_duplicates-Distinct ms =
    rw matched_fields-mark
      (keep-once-Distinct (matched_fields ms) (matched_fields ms) (λ x. omega arith))

get-columns_from :
    (f : String) (ms : List HeaderMapping) (d : Dict String ℕ)
    → contains (matched_fields ms) f ≡ false
    → get f (columns_from ms d) ≡ get f d
unfolding columns_from
get-columns_from f [] d h = refl
get-columns_from f (m ∷ ms) d h = elim (Option-cases (matched_field m)) [
  | inl e ↦ ground (arith, e, get-columns_from f ms d)
  | inr (g, e) ↦
      ground (
        arith,
        e,
        get-put g f m.physical_column d,
        get-columns_from f ms (put g m.physical_column d),
      )
]

has-columns_from :
    (f : String) (ms : List HeaderMapping) (d : Dict String ℕ)
    → has f (columns_from ms d) ≡ (contains (matched_fields ms) f || has f d)
unfolding columns_from
has-columns_from f [] d = refl
has-columns_from f (m ∷ ms) d = elim (Option-cases (matched_field m)) [
  | inl e ↦ ground (arith, e, has-columns_from f ms d)
  | inr (g, e) ↦
      ground (
        arith,
        e,
        has-put g f m.physical_column d,
        has-columns_from f ms (put g m.physical_column d),
      )
]

-- The matched mapping is the column of its field.
abbrev pub IsColumnOf : Dict String ℕ → HeaderMapping → Type 0
IsColumnOf columns m =
    (f : String) → matched_field m ≡ some f → get f columns ≡ some m.physical_column

Distinct-cons_some :
    (o : Option String) (fs : List String) → Distinct (cons_some o fs) → Distinct fs
Distinct-cons_some none fs h = h
Distinct-cons_some (some f) fs h = h.1

columns_from-IsColumnOf :
    (ms : List HeaderMapping) (d : Dict String ℕ)
    → Distinct (matched_fields ms)
    → All (IsColumnOf (columns_from ms d)) ms
unfolding columns_from
columns_from-IsColumnOf [] d h = tt
columns_from-IsColumnOf (m ∷ ms) d h = (
  λ f q.
      let h' : Distinct (f ∷ matched_fields ms) = rw q at h in
      ground (
        arith,
        q,
        h'.0,
        get-columns_from f ms (add_column m d),
        get-put f f m.physical_column d,
        eq_iff f f,
      ),
  columns_from-IsColumnOf ms (add_column m d)
      (Distinct-cons_some (matched_field m) (matched_fields ms) h),
)

or_false : (b : Bool) → (b || false) ≡ b
or_false true = refl
or_false false = refl

module _ (py : Python) (fz : FuzzyOne) (sheet : SheetRule py.Obj)
    (snapshot : SheetSnapshot py.Obj) where
  -- The columns of `map_headers` are those of the matched mappings: no two mappings match one
  -- field, each matched mapping is the column of its field, and only their fields have a column.
  pub map_headers_columns :
      let (ms, columns) = map_headers py fz sheet snapshot in
      Distinct (matched_fields ms)
      × All (IsColumnOf columns) ms
      × ((f : String) → has f columns ≡ contains (matched_fields ms) f)
  unfolding map_headers
  map_headers_columns =
      let cells = header_values py sheet snapshot in
      let ms = mark_duplicates (
        map_cells py fz sheet (map (normalize_header py) cells) (exact_names py sheet.columns [])
          (title_choices py sheet.columns []) 1 cells) in
      let distinct = mark_duplicates-Distinct (
        map_cells py fz sheet (map (normalize_header py) cells) (exact_names py sheet.columns [])
          (title_choices py sheet.columns []) 1 cells) in
      (
        distinct,
        columns_from-IsColumnOf ms [] distinct,
        λ f. has-columns_from f ms [] ∙ or_false (contains (matched_fields ms) f),
      )
