-- ===== src/Engine/Headers/Names.antt =====
-- On what evidence `map_headers` (engine.py) matches a column: a name of the field, which stands in
-- one column only.
use excel_youhua.Prelude.{
  ℕ, ◌+◌, ◌≤◌, String, Bool, true, false, not, ◌&&◌, List, [], ◌∷◌, map, some, ◌≡◌, ◌≢◌, ◌⊎◌, inl,
  inr, arith, count, contains, any, All, Option-cases, Bool-cases, ◌==◌, string_eq, eq_iff,
}
use excel_youhua.Dict.{Dict, get, setdefault, get-setdefault}
use excel_youhua.Python.{Python, Value}
use excel_youhua.Text.{normalize_header}
use excel_youhua.Engine.Models.{ColumnRule, HeaderMapping, HeaderMatch, SheetRule, SheetSnapshot}
use excel_youhua.Engine.Headers.{
  ltb, FuzzyOne, norm_text, add_aliases, exact_names, title_choices, header_values, map_header,
  map_cells, matched_field, mark_one, matched_fields, map_headers,
}

module _ (py : Python) where
  open py use {Obj}

  -- The column rule is the one with this name, and one of its names reads as this header.
  abbrev pub is_name_of : String → String → ColumnRule Obj → Bool
  is_name_of header name c =
      (c.name == name) && contains (map (norm_text py) (c.name ∷ c.title ∷ c.aliases)) header

  get-add_aliases :
      (name header f : String) (kind : HeaderMatch) (as' : List String)
      (d : Dict String (String × HeaderMatch))
      → get header (add_aliases py name as' d) ≡ some (f, kind)
      → (get header d ≡ some (f, kind))
        ⊎ ((name ≡ f) × (contains (map (norm_text py) as') header ≡ true))
  unfolding add_aliases
  get-add_aliases name header f kind [] d e = inl e
  get-add_aliases name header f kind (a ∷ as') d e = ground (
    arith,
    e,
    get-setdefault (norm_text py a) header (name, HeaderMatch.confirmed_alias) d,
    get-add_aliases name header f kind as'
        (setdefault (norm_text py a) (name, HeaderMatch.confirmed_alias) d),
  )

  get-exact_names :
      (header f : String) (kind : HeaderMatch) (cs : List (ColumnRule Obj))
      (d : Dict String (String × HeaderMatch))
      → get header (exact_names py cs d) ≡ some (f, kind)
      → (get header d ≡ some (f, kind)) ⊎ (any (is_name_of header f) cs ≡ true)
  unfolding exact_names
  get-exact_names header f kind [] d e = inl e
  get-exact_names header f kind (c ∷ cs) d e =
      let d₁ = setdefault (norm_text py c.name) (c.name, HeaderMatch.canonical) d in
      let d₂ = setdefault (norm_text py c.title) (c.name, HeaderMatch.exact_title) d₁ in
      ground (
        arith,
        e,
        get-exact_names header f kind cs (add_aliases py c.name c.aliases d₂),
        get-add_aliases c.name header f kind c.aliases d₂,
        get-setdefault (norm_text py c.title) header (c.name, HeaderMatch.exact_title) d₁,
        get-setdefault (norm_text py c.name) header (c.name, HeaderMatch.canonical) d,
        eq_iff c.name f,
      )

  module _ (fz : FuzzyOne) (sheet : SheetRule Obj) (values : List String) where
    -- A matched column's header names its field, and stands in no other column.
    abbrev pub IsNamed : HeaderMapping → Type 0
    IsNamed m =
        (f : String)
        → matched_field m ≡ some f
        → (any (is_name_of m.normalized_header f) sheet.columns ≡ true)
          × (m.normalized_header ≢ "" → count m.normalized_header values ≤ 1)

    abbrev header_at : ℕ → Value Obj → HeaderMapping
    header_at index raw =
        map_header py fz sheet values (exact_names py sheet.columns [])
          (title_choices py sheet.columns []) index raw

    abbrev repeated : Value Obj → Bool
    repeated raw = let h = normalize_header py raw in not (h == "") && ltb 1 (count h values)

    normalized_header-at :
        (index : ℕ) (raw : Value Obj)
        → (header_at index raw).normalized_header ≡ normalize_header py raw
    unfolding map_header
    normalized_header-at index raw = elim (Bool-cases (repeated raw)) [
      | inl e ↦ ground (arith, e)
      | inr e ↦
          elim (Option-cases (get (normalize_header py raw) (exact_names py sheet.columns []))) [
            | inr ((name, kind), n) ↦ ground (arith, e, n)
            | inl n ↦ ground (arith, e, n)
          ]
    ]

    matched_field-at :
        (index : ℕ) (raw : Value Obj) (f : String)
        → matched_field (header_at index raw) ≡ some f
        → (repeated raw ≡ false)
          × ((kind : HeaderMatch) × (get (normalize_header py raw) (exact_names py sheet.columns [])
                ≡ some (f, kind)))
    unfolding map_header
    matched_field-at index raw f q = elim (Bool-cases (repeated raw)) [
      | inl e ↦ absurd (ground (arith, e, q))
      | inr e ↦
          elim (Option-cases (get (normalize_header py raw) (exact_names py sheet.columns []))) [
            | inl n ↦ absurd (ground (arith, e, n, q))
            | inr ((name, kind), n) ↦ (e, (kind, ground (arith, e, n, q)))
          ]
    ]

    named_by :
        (raw : Value Obj) (f : String) (kind : HeaderMatch)
        → get (normalize_header py raw) (exact_names py sheet.columns []) ≡ some (f, kind)
        → any (is_name_of (normalize_header py raw) f) sheet.columns ≡ true
    unfolding get
    named_by raw f kind n =
        elim (get-exact_names (normalize_header py raw) f kind sheet.columns [] n) [
          | inl none_yet ↦ absurd (cc none_yet)
          | inr found ↦ found
        ]

    map_header-IsNamed : (index : ℕ) (raw : Value Obj) → IsNamed (header_at index raw)
    map_header-IsNamed index raw f q =
        let (e, (kind, n)) = matched_field-at index raw f q in
        rw (normalized_header-at index raw) (
          named_by raw f kind n,
          λ filled. ground (arith, e, filled, eq_iff (normalize_header py raw) ""),
        )

    map_cells-IsNamed :
        (index : ℕ) (cells : List (Value Obj))
        → All IsNamed (
            map_cells py fz sheet values
              (exact_names py sheet.columns [])
              (title_choices py sheet.columns [])
              index
              cells)
    unfolding map_cells
    map_cells-IsNamed index [] = tt
    map_cells-IsNamed index (raw ∷ rest) =
        (map_header-IsNamed index raw, map_cells-IsNamed (index + 1) rest)

    mark_one-IsNamed :
        (fields : List String) (m : HeaderMapping) → IsNamed m → IsNamed (mark_one fields m)
    unfolding mark_one
    mark_one-IsNamed fields m h f q = elim (Option-cases (matched_field m)) [
      | inl e ↦ absurd (ground (arith, e, q))
      | inr (g, e) ↦ elim (Bool-cases (ltb 1 (count g fields))) [
        | inl many ↦ absurd (ground (arith, e, many, q))
        | inr few ↦
            let same : mark_one fields m ≡ m = ground (arith, e, few) in
            rw same (h f (rw same at q))
      ]
    ]

    map-mark_one-IsNamed :
        (fields : List String) (ms : List HeaderMapping)
        → All IsNamed ms
        → All IsNamed (map (mark_one fields) ms)
    map-mark_one-IsNamed fields [] h = tt
    map-mark_one-IsNamed fields (m ∷ ms) h =
        (mark_one-IsNamed fields m h.0, map-mark_one-IsNamed fields ms h.1)

module _ (py : Python) (fz : FuzzyOne) (sheet : SheetRule py.Obj)
    (snapshot : SheetSnapshot py.Obj) where
  -- A column is matched to a field only if its header reads as a name of the field (its name, its
  -- title or an alias) and, unless it is blank, no other header cell reads the same.
  -- A fuzzy suggestion is never a match.
  pub map_headers-IsNamed :
      All
        (IsNamed py fz sheet (map (normalize_header py) (header_values py sheet snapshot)))
        (map_headers py fz sheet snapshot).0
  unfolding map_headers
  map_headers-IsNamed =
      let cells = header_values py sheet snapshot in
      let values = map (normalize_header py) cells in
      let ms =
        map_cells py fz sheet values (exact_names py sheet.columns [])
          (title_choices py sheet.columns []) 1 cells in
      map-mark_one-IsNamed py fz sheet values (matched_fields ms) ms
        (map_cells-IsNamed py fz sheet values 1 cells)
