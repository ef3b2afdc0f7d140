-- ===== src/Dict.antt =====
-- Python's `dict`: an association list in order of insertion. Assigning to a key that is present
-- changes its value and keeps its place; `pop` takes the key out.
use excel_youhua.Prelude.{
  ◌≡◌, refl, Bool, true, false, ◌||◌, ◌&&◌, Option, none, some, List, [], ◌∷◌, ◌++◌, arith, Eq,
  ◌==◌, if◌then◌else◌, contains, not, Distinct, Bool-cases, inl, inr,
}

abbrev pub Dict {ℓ κ} : Type ℓ → Type κ → Type (ℓ ⊔ κ)
Dict K V = List (K × V)

abbrev pub keys {ℓ κ} : {K : Type ℓ} {V : Type κ} → Dict K V → List K
keys [] = []
keys ((k, v) ∷ d) = k ∷ keys d

module _ {ℓ κ} {K : Type ℓ} {V : Type κ} ⦃e : Eq K⦄ where
  unfoldable pub get : K → Dict K V → Option V
  get k [] = none
  get k ((j, v) ∷ d) = if j == k then some v else get k d

  -- `d[k] = v`
  unfoldable pub put : K → V → Dict K V → Dict K V
  put k v [] = (k, v) ∷ []
  put k v ((j, w) ∷ d) = if j == k then (j, v) ∷ d else (j, w) ∷ put k v d

  -- `d.pop(k, None)`
  unfoldable pub pop : K → Dict K V → Dict K V
  pop k [] = []
  pop k ((j, w) ∷ d) = let rest = pop k d in if j == k then rest else (j, w) ∷ rest

  -- `k in d`
  abbrev pub has : K → Dict K V → Bool
  has k d = contains (keys d) k

  -- `d.setdefault(k, v)`
  abbrev pub setdefault : K → V → Dict K V → Dict K V
  setdefault k v d = if has k d then d else d ++ (k, v) ∷ []

  abbrev pub get_or : K → V → Dict K V → V
  get_or k v d = elim (get k d) [ none ↦ v | some w ↦ w ]

  pub get-put :
      (k j : K) (v : V) (d : Dict K V) → get j (put k v d) ≡ (if k == j then some v else get j d)
  unfolding get put
  get-put k j v [] = refl
  get-put k j v ((i, w) ∷ d) =
      ground (arith, e.beq_iff k j, e.beq_iff i k, e.beq_iff i j, get-put k j v d)

  pub get-pop : (k j : K) (d : Dict K V) → get j (pop k d) ≡ (if k == j then none else get j d)
  unfolding get pop
  get-pop k j [] = ground arith
  get-pop k j ((i, w) ∷ d) =
      ground (arith, e.beq_iff k j, e.beq_iff i k, e.beq_iff i j, get-pop k j d)

  pub has-put : (k j : K) (v : V) (d : Dict K V) → has j (put k v d) ≡ ((k == j) || has j d)
  unfolding put
  has-put k j v [] = refl
  has-put k j v ((i, w) ∷ d) =
      ground (arith, e.beq_iff k j, e.beq_iff i k, e.beq_iff i j, has-put k j v d)

  pub has-pop : (k j : K) (d : Dict K V) → has j (pop k d) ≡ (not (k == j) && has j d)
  unfolding pop
  has-pop k j [] = ground arith
  has-pop k j ((i, w) ∷ d) =
      ground (arith, e.beq_iff k j, e.beq_iff i k, e.beq_iff i j, has-pop k j d)

  pub get-none_iff : (k : K) (d : Dict K V) → has k d ≡ false → get k d ≡ none
  unfolding get
  get-none_iff k [] h = refl
  get-none_iff k ((j, v) ∷ d) h = ground (arith, get-none_iff k d)

  pub get-some : (k : K) (d : Dict K V) → has k d ≡ true → (v : V) × (get k d ≡ some v)
  unfolding get
  get-some k [] h = ground arith
  get-some k ((j, v) ∷ d) h = elim (Bool-cases (j == k)) [
    | inl found ↦ (v, rw found)
    | inr other ↦ let (w, q) = get-some k d (ground arith) in (w, rw other q)
  ]

  pub has_of_get : (k : K) (d : Dict K V) {v : V} → get k d ≡ some v → has k d ≡ true
  unfolding get
  has_of_get k [] h = ground arith
  has_of_get k ((j, v) ∷ d) {v = u} h = ground (arith, has_of_get k d {v = u})

  pub Distinct-put :
      (k : K) (v : V) (d : Dict K V) → Distinct (keys d) → Distinct (keys (put k v d))
  unfolding put
  Distinct-put k v [] h = ground arith
  Distinct-put k v ((j, w) ∷ d) h =
      ground (arith, e.beq_iff j k, e.beq_iff k j, has-put k j v d, Distinct-put k v d)

  pub Distinct-pop : (k : K) (d : Dict K V) → Distinct (keys d) → Distinct (keys (pop k d))
  unfolding pop
  Distinct-pop k [] h = h
  Distinct-pop k ((j, w) ∷ d) h = ground (arith, has-pop k j d, Distinct-pop k d)

  pub get_or-put :
      (k j : K) (v w : V) (d : Dict K V)
      → get_or j w (put k v d) ≡ (if k == j then v else get_or j w d)
  get_or-put k j v w d = ground (arith, get-put k j v d)

  pub has_lem : (k : K) (d : Dict K V) → has k d ≡ elim (get k d) [ none ↦ false | some v ↦ true ]
  unfolding get
  has_lem k [] = refl
  has_lem k ((j, v) ∷ d) = ground (arith, has_lem k d)

  get-append_one :
      (k j : K) (v : V) (d : Dict K V)
      → get j (d ++ (k, v) ∷ [])
        ≡ elim (get j d) [ some w ↦ some w | none ↦ if k == j then some v else none ]
  unfolding get
  get-append_one k j v [] = refl
  get-append_one k j v ((i, w) ∷ d) = ground (arith, get-append_one k j v d)

  -- The first value that a key is given stays.
  pub get-setdefault :
      (k j : K) (v : V) (d : Dict K V)
      → get j (setdefault k v d)
        ≡ elim (get j d) [ some w ↦ some w | none ↦ if k == j then some v else none ]
  get-setdefault k j v d = elim (Bool-cases (has k d)) [
    | inl h ↦ let (w, found) = get-some k d h in rw h (ground (arith, found, e.beq_iff k j))
    | inr h ↦ rw h (get-append_one k j v d)
  ]

pub ruleset dict_laws = (get-put, get-pop, has-put, has-pop)
