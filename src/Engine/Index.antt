-- ===== src/Engine/Index.antt =====
-- How `_compare_records` (engine.py) indexes the records of one side by their keys: the first record
-- of a key is kept, further ones make the key a duplicate, and at the end duplicate keys are dropped.
use excel_youhua.Prelude.{
  inr, inl, Option-cases, ℕ, Bool, true, false, List, [], ◌∷◌, ◌++◌, Option, none, some, ◌≡◌, refl,
  Eq, ◌==◌, if◌then◌else◌, arith, contains,
}
use mathlib.Core.List.{append-nil, append_assoc}
use excel_youhua.Dict.{has-put, get-put, get-pop, Dict, get, put, pop, has, get_or, keys}

module _ {ℓ} {K : Type ℓ} ⦃e : Eq K⦄ where
  -- `for key in duplicates: records.pop(key, None)`
  unfoldable pub drop_keys {κ} : {V : Type κ} → List K → Dict K V → Dict K V
  drop_keys [] d = d
  drop_keys (k ∷ ks) d = drop_keys ks (pop k d)

-- The values of a key among the entries, in their order.
unfoldable pub matching {ℓ κ} : {K : Type ℓ} {V : Type κ} ⦃e : Eq K⦄ → K → List (K × V) → List V
matching k [] = []
matching k ((j, v) ∷ es) = let rest = matching k es in if j == k then v ∷ rest else rest

-- The value of a list that has exactly one.
abbrev pub sole {ℓ} : {V : Type ℓ} → List V → Option V
sole [] = none
sole (v ∷ []) = some v
sole (v ∷ w ∷ vs) = none

abbrev pub first {ℓ} : {V : Type ℓ} → List V → Option V
first [] = none
first (v ∷ vs) = some v

abbrev pub two_or_more {ℓ} : {V : Type ℓ} → List V → Bool
two_or_more [] = false
two_or_more (v ∷ []) = false
two_or_more (v ∷ w ∷ vs) = true

-- `excel_records` and `excel_duplicates`
pub record Index {ℓ κ} (K : Type ℓ) (R : Type κ) : Type (ℓ ⊔ κ) where
  pub records : Dict K (ℕ × R)
  pub duplicates : Dict K (List ℕ)

module _ {ℓ κ} {K : Type ℓ} {R : Type κ} ⦃e : Eq K⦄ where
  -- A keyed row: `excel_duplicates[key].extend([excel_records[key][0], row])`, or a new record.
  unfoldable pub note_row : K → ℕ → R → Index K R → Index K R
  note_row key row r ix = elim (get key ix.records) [
    | none ↦ record ix { records = put key (row, r) ix.records }
    | some (earlier, _) ↦ record ix {
      duplicates = put key (get_or key [] ix.duplicates ++ earlier ∷ row ∷ []) ix.duplicates;
    }
  ]

  unfoldable pub note_rows : List (K × (ℕ × R)) → Index K R → Index K R
  unfolding note_row
  note_rows [] ix = ix
  note_rows ((k, (row, r)) ∷ es) ix = note_rows es (note_row k row r ix)

  -- What is left for matching.
  unfoldable pub survivors : Index K R → Dict K (ℕ × R)
  unfolding drop_keys
  survivors ix = drop_keys (keys ix.duplicates) ix.records

module _ {ℓ κ} {K : Type ℓ} {V : Type κ} ⦃e : Eq K⦄ where
  pub get-drop_keys :
      (k : K) (ks : List K) (d : Dict K V)
      → get k (drop_keys ks d) ≡ (if contains ks k then none else get k d)
  unfolding drop_keys
  get-drop_keys k [] d = refl
  get-drop_keys k (j ∷ ks) d = ground (arith, get-drop_keys k ks (pop j d), get-pop j k d)

  pub matching-append_one :
      (k j : K) (v : V) (xs : List (K × V))
      → matching k (xs ++ (j, v) ∷ []) ≡ (if j == k then matching k xs ++ v ∷ [] else matching k xs)
  unfolding matching
  matching-append_one k j v [] = refl
  matching-append_one k j v ((i, w) ∷ xs) = ground (arith, matching-append_one k j v xs)

module _ {ℓ} {V : Type ℓ} where
  abbrev pub or_else : Option V → V → Option V
  or_else none w = some w
  or_else (some v) w = some v

  abbrev pub is_some : Option V → Bool
  is_some none = false
  is_some (some v) = true

  first-append_one : (vs : List V) (w : V) → first (vs ++ w ∷ []) ≡ or_else (first vs) w
  first-append_one [] w = refl
  first-append_one (v ∷ vs) w = refl

  two_or_more-append_one : (vs : List V) (w : V) → two_or_more (vs ++ w ∷ []) ≡ is_some (first vs)
  two_or_more-append_one [] w = refl
  two_or_more-append_one (v ∷ []) w = refl
  two_or_more-append_one (v ∷ x ∷ vs) w = refl

  pub two_or_more-first : (vs : List V) → first vs ≡ none → two_or_more vs ≡ false
  two_or_more-first [] h = refl
  two_or_more-first (v ∷ vs) h = cc

  pub sole_lem : (vs : List V) → sole vs ≡ (if two_or_more vs then none else first vs)
  sole_lem [] = refl
  sole_lem (v ∷ []) = refl
  sole_lem (v ∷ w ∷ vs) = refl

module _ {ℓ κ} {K : Type ℓ} {V : Type κ} ⦃e : Eq K⦄ where
  pub first_at :
      (k key : K) (v : V) (seen : List (K × V))
      → first (matching k (seen ++ (key, v) ∷ []))
        ≡ (if key == k then or_else (first (matching k seen)) v else first (matching k seen))
  first_at k key v seen =
      ground (arith, matching-append_one k key v seen, first-append_one (matching k seen) v)

  pub two_at :
      (k key : K) (v : V) (seen : List (K × V))
      → two_or_more (matching k (seen ++ (key, v) ∷ []))
        ≡ (if key == k then is_some (first (matching k seen)) else two_or_more (matching k seen))
  two_at k key v seen =
      ground (arith, matching-append_one k key v seen, two_or_more-append_one (matching k seen) v)

module _ {ℓ κ} {K : Type ℓ} {R : Type κ} ⦃e : Eq K⦄ where
  -- The index stands for the entries seen so far.
  abbrev Holds : List (K × (ℕ × R)) → Index K R → Type (ℓ ⊔ κ)
  Holds seen ix =
      (k : K)
      → (get k ix.records ≡ first (matching k seen))
        × (has k ix.duplicates ≡ two_or_more (matching k seen))

  note_row-Holds :
      (seen : List (K × (ℕ × R))) (ix : Index K R) (key : K) (row : ℕ) (r : R)
      → Holds seen ix
      → Holds (seen ++ (key, (row, r)) ∷ []) (note_row key row r ix)
  unfolding note_row
  note_row-Holds seen ix key row r h k = elim (Option-cases (get key ix.records)) [
    | inl new ↦ (
      ground (
        arith,
        new,
        first_at k key (row, r) seen,
        h k,
        h key,
        e.beq_iff key k,
        get-put key k (row, r) ix.records,
      ),
      ground (
        arith,
        new,
        two_at k key (row, r) seen,
        h k,
        h key,
        e.beq_iff key k,
        two_or_more-first (matching k seen),
      ),
    )
    | inr ((earlier, old), found) ↦ (
      ground (arith, found, first_at k key (row, r) seen, h k, h key, e.beq_iff key k),
      ground (
        arith,
        found,
        two_at k key (row, r) seen,
        h k,
        h key,
        e.beq_iff key k,
        has-put key k (get_or key [] ix.duplicates ++ earlier ∷ row ∷ []) ix.duplicates,
      ),
    )
  ]

  note_rows-Holds :
      (seen es : List (K × (ℕ × R))) (ix : Index K R)
      → Holds seen ix
      → Holds (seen ++ es) (note_rows es ix)
  unfolding note_rows
  note_rows-Holds seen [] ix h = rw append-nil h
  note_rows-Holds seen ((k, (row, r)) ∷ es) ix h =
      rw (← append_assoc seen ((k, (row, r)) ∷ []) es) (
        note_rows-Holds (seen ++ (k, (row, r)) ∷ []) es (note_row k row r ix)
          (note_row-Holds seen ix k row r h))

  -- A key survives exactly if one entry has it, with that entry's row and record.
  pub survivors_lem :
      (k : K) (es : List (K × (ℕ × R)))
      → get k (survivors (note_rows es (record { records = []; duplicates = [] })))
        ≡ sole (matching k es)
  unfolding survivors get matching
  survivors_lem k es =
      let ix = note_rows es (record { records = []; duplicates = [] }) in
      let h =
        note_rows-Holds [] es (record { records = []; duplicates = [] }) (λ j. (refl, refl)) k in
      ground
        (arith, h.0, h.1, get-drop_keys k (keys ix.duplicates) ix.records, sole_lem (matching k es))
