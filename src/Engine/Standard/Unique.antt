-- ===== src/Engine/Standard/Unique.antt =====
-- Which standard records take part in matching (engine.py, the loop over `standard_rows`).
use mathlib.Core.List.{append-nil, append_assoc}
use excel_youhua.Prelude.{
  ℕ, ◌+◌, Bool, true, false, ◌||◌, List, [], ◌∷◌, ◌++◌, ◌≡◌, refl, Eq, ◌==◌, contains, contains-add,
  contains-append, none, arith, if◌then◌else◌, Bool-cases, inl, inr,
}
use excel_youhua.Dict.{get, has, has_lem, get-put}
use excel_youhua.Python.{Python}
use excel_youhua.Engine.Models.{SheetRule}
use excel_youhua.Engine.Normalization.{Normalization}
use excel_youhua.Engine.Keys.{Record, Key}
use excel_youhua.Engine.KeyEquality.{key_eq}
use excel_youhua.Engine.Index.{
  get-drop_keys, matching, sole, sole_lem, first, two_or_more, two_or_more-first, first_at, two_at,
}
use excel_youhua.Engine.Standard.{
  StandardIndex, StandardOutcome, skipped, unusable, usable, add_key, classify_standard,
  apply_standard, scan_standard, standard_survivors,
}

abbrev pub is_nonempty : {Obj : Type 0} → Key Obj → Bool
is_nonempty [] = false
is_nonempty (p ∷ ps) = true

module _ (py : Python) ⦃e : Eq py.Obj⦄ (nm : Normalization py.Obj) (sheet : SheetRule py.Obj) where
  open py use {Obj}

  abbrev standard_entry :
      Record Obj → StandardOutcome Obj → List (Key Obj × Record Obj) → List (Key Obj × Record Obj)
  standard_entry r (usable key) es = (key, r) ∷ es
  standard_entry r _ es = es

  -- The records with a usable key, in their order.
  abbrev pub standard_entries : List (Record Obj) → ℕ → List (Key Obj × Record Obj)
  standard_entries [] ordinal = []
  standard_entries (r ∷ rs) ordinal =
      standard_entry r (classify_standard py nm sheet ordinal r) (standard_entries rs (ordinal + 1))

  abbrev partial_of : StandardOutcome Obj → List (Key Obj) → List (Key Obj)
  partial_of (unusable (p ∷ ps)) ks = (p ∷ ps) ∷ ks
  partial_of _ ks = ks

  -- The nonempty parts of keys that are not usable as a whole.
  abbrev pub partial_keys : List (Record Obj) → ℕ → List (Key Obj)
  partial_keys [] ordinal = []
  partial_keys (r ∷ rs) ordinal =
      partial_of (classify_standard py nm sheet ordinal r) (partial_keys rs (ordinal + 1))

  contains-add_key :
      (key k : Key Obj) (ks : List (Key Obj))
      → is_nonempty k ≡ true
      → contains (add_key key ks) k ≡ (contains ks k || (key == k))
  contains-add_key [] [] ks h = cc h
  contains-add_key [] (p ∷ ps) ks h = ground arith
  contains-add_key (q ∷ qs) k ks h = contains-add (q ∷ qs) ks k

  module _ (k : Key Obj) (filled : is_nonempty k ≡ true) where
    -- The index stands for the entries and the partial keys seen so far, as far as `k` goes.
    abbrev Holds : List (Key Obj × Record Obj) → List (Key Obj) → StandardIndex Obj → Type 0
    Holds seen parts ix =
        (get k ix.records ≡ first (matching k seen))
        × (contains ix.duplicates k ≡ (two_or_more (matching k seen) || contains parts k))

    usable-Holds :
        (seen : List (Key Obj × Record Obj)) (parts : List (Key Obj)) (ix : StandardIndex Obj)
        (key : Key Obj) (r : Record Obj)
        → Holds seen parts ix
        → Holds (seen ++ (key, r) ∷ []) parts (apply_standard py nm sheet r (usable key) ix)
    unfolding apply_standard
    usable-Holds seen parts ix key r h = elim (Bool-cases (has key ix.records)) [
      | inl old ↦ (
        ground (
          arith,
          old,
          first_at k key r seen,
          h.0,
          (key_eq ⦃e = e⦄).beq_iff key k,
          has_lem key ix.records,
        ),
        ground (
          arith,
          old,
          two_at k key r seen,
          h.0,
          h.1,
          (key_eq ⦃e = e⦄).beq_iff key k,
          has_lem key ix.records,
          contains-add_key key k ix.duplicates filled,
        ),
      )
      | inr new ↦ (
        ground (
          arith,
          new,
          first_at k key r seen,
          h.0,
          (key_eq ⦃e = e⦄).beq_iff key k,
          has_lem key ix.records,
          get-put key k r ix.records,
        ),
        ground (
          arith,
          new,
          two_at k key r seen,
          h.0,
          h.1,
          (key_eq ⦃e = e⦄).beq_iff key k,
          has_lem key ix.records,
          two_or_more-first (matching k seen),
        ),
      )
    ]

    unusable-Holds :
        (seen : List (Key Obj × Record Obj)) (parts : List (Key Obj)) (ix : StandardIndex Obj)
        (key : Key Obj) (r : Record Obj)
        → Holds seen parts ix
        → Holds seen
            (parts ++ partial_of (unusable key) [])
            (apply_standard py nm sheet r (unusable key) ix)
    unfolding apply_standard
    unusable-Holds seen parts ix [] r h = rw append-nil h
    unusable-Holds seen parts ix (p ∷ ps) r h = (
      h.0,
      ground (
        arith,
        h.1,
        contains-add_key (p ∷ ps) k ix.duplicates filled,
        contains-append parts ((p ∷ ps) ∷ []) k,
      ),
    )

    step-Holds :
        (seen : List (Key Obj × Record Obj)) (parts : List (Key Obj)) (ix : StandardIndex Obj)
        (r : Record Obj) (o : StandardOutcome Obj)
        → Holds seen parts ix
        → Holds
            (seen ++ standard_entry r o [])
            (parts ++ partial_of o [])
            (apply_standard py nm sheet r o ix)
    step-Holds seen parts ix r skipped h = unfold apply_standard in rw append-nil (rw append-nil h)
    step-Holds seen parts ix r (unusable key) h =
        rw append-nil (unusable-Holds seen parts ix key r h)
    step-Holds seen parts ix r (usable key) h = rw append-nil (usable-Holds seen parts ix key r h)

    entry-append :
        (r : Record Obj) (o : StandardOutcome Obj) (es : List (Key Obj × Record Obj))
        → standard_entry r o es ≡ standard_entry r o [] ++ es
    entry-append r skipped es = refl
    entry-append r (unusable key) es = refl
    entry-append r (usable key) es = refl

    partial-append :
        (o : StandardOutcome Obj) (ks : List (Key Obj)) → partial_of o ks ≡ partial_of o [] ++ ks
    partial-append skipped ks = refl
    partial-append (unusable []) ks = refl
    partial-append (unusable (p ∷ ps)) ks = refl
    partial-append (usable key) ks = refl

    scan-Holds :
        (rs : List (Record Obj)) (ordinal : ℕ) (seen : List (Key Obj × Record Obj))
        (parts : List (Key Obj)) (ix : StandardIndex Obj)
        → Holds seen parts ix
        → Holds
            (seen ++ standard_entries rs ordinal)
            (parts ++ partial_keys rs ordinal)
            (scan_standard py nm sheet rs ordinal ix)
    unfolding scan_standard
    scan-Holds [] ordinal seen parts ix h = rw append-nil (rw append-nil h)
    scan-Holds (r ∷ rs) ordinal seen parts ix h =
        let o = classify_standard py nm sheet ordinal r in
        let later =
          scan-Holds rs (ordinal + 1) (seen ++ standard_entry r o []) (parts ++ partial_of o [])
            (apply_standard py nm sheet r o ix) (step-Holds seen parts ix r o h) in
        rw
          (
            entry-append r o (standard_entries rs (ordinal + 1)),
            partial-append o (partial_keys rs (ordinal + 1)),
            ← append_assoc seen (standard_entry r o []) (standard_entries rs (ordinal + 1)),
            ← append_assoc parts (partial_of o []) (partial_keys rs (ordinal + 1)),
          )
          later

    -- A key with a part takes part in matching exactly if one record has it as its usable key and no
    -- record with an unusable key left it as the parts before the unusable one, and then with that record.
    pub standard_unique :
        (rs : List (Record Obj))
        → get k (standard_survivors py nm sheet rs) ≡ (
            if contains (partial_keys rs 1) k
            then none
            else sole (matching k (standard_entries rs 1)))
    unfolding standard_survivors get matching
    standard_unique rs =
        let ix = scan_standard py nm sheet rs 1 (record { records = []; duplicates = [] }) in
        let h = scan-Holds rs 1 [] [] (record { records = []; duplicates = [] }) (refl, refl) in
        ground (
          arith,
          h.0,
          h.1,
          get-drop_keys k ix.duplicates ix.records,
          sole_lem (matching k (standard_entries rs 1)),
        )
