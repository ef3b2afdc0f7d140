-- ===== src/Spill/Sequence.antt =====
-- Reading a spillable sequence (spill.py) back, as a refinement of a list.
use mathlib.Core.List.{append-nil, append_assoc}
use excel_youhua.Prelude.{
  ℕ, List, [], ◌∷◌, ◌++◌, map, Option, none, some, ◌≡◌, refl, length, ltb, leb, arith, ap, ◌∙◌, sym,
  subst, Bool-cases, Option-cases, inl, inr,
}
use excel_youhua.Spill.{
  Pickle, ℤ, place, at_place, SpilledObjects, no_objects, append_object, append_objects, get_object,
  SpillableSequence, new_sequence, migrate, store, append, extend, len, get_item,
}
use excel_youhua.Spill.Refinement.{
  Holds, IsAtEnd, append_object-Holds, append_objects-Holds, get_object-Holds, length-starts,
}

module _ {T : Type 0} (pk : Pickle T) (on_append : T → T) where
  abbrev Stands : List T → List T → Option SpilledObjects → Type 0
  Stands xs items none = items ≡ xs
  Stands xs items (some so) = Holds pk xs so

  -- The sequence stands for this list.
  abbrev IsSequence : List T → SpillableSequence T → Type 0
  IsSequence xs s = Stands xs s.items s.spilled

  abbrev Ends : Option SpilledObjects → Type 0
  Ends none = Unit
  Ends (some so) = IsAtEnd pk so

  -- It does, and no item has been read since the last one was appended.
  abbrev IsGrowing : List T → SpillableSequence T → Type 0
  IsGrowing xs s = IsSequence xs s × Ends s.spilled

  migrate-IsGrowing :
      (xs : List T) (s : SpillableSequence T)
      → IsGrowing xs s
      → IsGrowing xs (migrate pk on_append s)
  unfolding migrate
  migrate-IsGrowing xs s h = elim (Option-cases s.spilled) [
    | inr (so, there) ↦
        let same : migrate pk on_append s ≡ s = ground (arith, there) in
        subst (λ t. IsGrowing xs t) (sym same) h
    | inl fresh ↦ elim (Bool-cases (leb s.spill_after_items (length s.items))) [
      | inr few ↦
          let same : migrate pk on_append s ≡ s = ground (arith, fresh, few) in
          subst (λ t. IsGrowing xs t) (sym same) h
      | inl full ↦
          let to : migrate pk on_append s
              ≡ record s { items = []; spilled = some (append_objects pk s.items no_objects) } =
            ground (arith, fresh, full) in
          let items : s.items ≡ xs = subst (λ o. Stands xs s.items o) fresh h.0 in
          let moved = append_objects-Holds pk s.items [] no_objects (refl, refl) refl in
          subst (λ t. IsGrowing xs t) (sym to)
            (
              subst (λ ys. Holds pk ys (append_objects pk s.items no_objects)) items moved.0,
              moved.1,
            )
    ]
  ]

  store-IsGrowing :
      (xs : List T) (x : T) (s : SpillableSequence T)
      → IsGrowing xs s
      → IsGrowing (xs ++ x ∷ []) (store pk on_append x s)
  store-IsGrowing xs x s h = elim (Option-cases s.spilled) [
    | inl fresh ↦
        let to : store pk on_append x s ≡ record s { items = s.items ++ x ∷ [] } =
          ground (arith, fresh) in
        let items : s.items ≡ xs = subst (λ o. Stands xs s.items o) fresh h.0 in
        subst (λ t. IsGrowing (xs ++ x ∷ []) t) (sym to)
          (subst (λ o. Stands (xs ++ x ∷ []) (s.items ++ x ∷ []) o × Ends o) (sym fresh)
            (ap (λ ys. ys ++ x ∷ []) items, tt))
    | inr (so, there) ↦
        let to : store pk on_append x s ≡ record s { spilled = some (append_object pk x so) } =
          ground (arith, there) in
        let old = subst (λ o. Stands xs s.items o × Ends o) there h in
        subst (λ t. IsGrowing (xs ++ x ∷ []) t) (sym to)
          (append_object-Holds pk xs x so old.0 old.1)
  ]

  extend-IsGrowing :
      (ys xs : List T) (s : SpillableSequence T)
      → IsGrowing xs s
      → IsGrowing (xs ++ map on_append ys) (extend pk on_append ys s)
  unfolding extend append
  extend-IsGrowing [] xs s h = subst (λ zs. IsGrowing zs s) (sym (append-nil xs)) h
  extend-IsGrowing (y ∷ ys) xs s h =
      let next =
        store-IsGrowing xs (on_append y) (migrate pk on_append s) (migrate-IsGrowing xs s h) in
      subst (λ zs. IsGrowing zs (extend pk on_append ys (append pk on_append y s)))
        (append_assoc xs (on_append y ∷ []) (map on_append ys))
        (extend-IsGrowing ys (xs ++ on_append y ∷ []) (append pk on_append y s) next)

  len-IsSequence :
      (xs : List T) (s : SpillableSequence T) → IsSequence xs s → len pk on_append s ≡ length xs
  unfolding len
  len-IsSequence xs s h = elim (Option-cases s.spilled) [
    | inl fresh ↦
        let items : s.items ≡ xs = subst (λ o. Stands xs s.items o) fresh h in
        ground (arith, fresh, items)
    | inr (so, there) ↦
        let held = subst (λ o. Stands xs s.items o) there h in
        ground (arith, there, held.1, length-starts pk 0 xs)
  ]

  -- What is read at these indexes, one after the other.
  abbrev pub reads : List ℤ → SpillableSequence T → List (Option T)
  reads [] s = []
  reads (i ∷ is) s = let (x, t) = get_item pk on_append i s in x ∷ reads is t

  module _
      (loads : (x : T) (rest : List ℕ)
        → pk.load (pk.dump x ++ rest) ≡ some (x, length (pk.dump x))) where
    get_item-IsSequence :
        (xs : List T) (s : SpillableSequence T) (index : ℤ)
        → IsSequence xs s
        → ((get_item pk on_append index s).0 ≡ at_place xs (place index (length xs)))
          × IsSequence xs (get_item pk on_append index s).1
    unfolding get_item
    get_item-IsSequence xs s index h = elim (Option-cases s.spilled) [
      | inl fresh ↦
          let to : get_item pk on_append index s
              ≡ (at_place s.items (place index (length s.items)), s) =
            ground (arith, fresh) in
          let items : s.items ≡ xs = subst (λ o. Stands xs s.items o) fresh h in
          (
            ap (λ r. r.0) to ∙ ap (λ ys. at_place ys (place index (length ys))) items,
            subst (λ r. IsSequence xs r.1) (sym to) h,
          )
      | inr (so, there) ↦
          let (x, so') = get_object pk index so in
          let to : get_item pk on_append index s ≡ (x, record s { spilled = some so' }) =
            ground (arith, there) in
          let read =
            get_object-Holds pk loads xs so index (subst (λ o. Stands xs s.items o) there h) in
          (ap (λ r. r.0) to ∙ read.0, subst (λ r. IsSequence xs r.1) (sym to) read.1)
    ]

    reads-IsSequence :
        (xs : List T) (is : List ℤ) (s : SpillableSequence T)
        → IsSequence xs s
        → reads is s ≡ map (λ i. at_place xs (place i (length xs))) is
    reads-IsSequence xs [] s h = refl
    reads-IsSequence xs (i ∷ is) s h =
        let (read, kept) = get_item-IsSequence xs s i h in
        ap (λ x. x ∷ reads is (get_item pk on_append i s).1) read
        ∙ ap (λ rest. at_place xs (place i (length xs)) ∷ rest)
            (reads-IsSequence xs is (get_item pk on_append i s).1 kept)

    -- A new sequence that items are appended to and that is read afterwards has the length of the
    -- list of the items, and gives at each index, from the start or from the end, what that list
    -- has there, whether or not the items were moved to the file.
    pub sequence_refines :
        (n : ℕ) (ys : List T) (is : List ℤ) (s : SpillableSequence T)
        → new_sequence n ≡ some s
        → let xs = map on_append ys in
          (len pk on_append (extend pk on_append ys s) ≡ length xs)
          × (reads is (extend pk on_append ys s) ≡ map (λ i. at_place xs (place i (length xs))) is)
    unfolding new_sequence
    sequence_refines n ys is s h =
        let xs = map on_append ys in
        let fresh : IsGrowing [] s = elim (Bool-cases (ltb n 1)) [
          | inl zero ↦ absurd (ground (arith, zero, h))
          | inr positive ↦
              let made : record { spill_after_items = n; items = []; spilled = none } ≡ s =
                ground (arith, positive, h) in
              subst (λ t. IsGrowing [] t) made (refl, tt)
        ] in
        let grown = extend-IsGrowing ys [] s fresh in
        (
          len-IsSequence xs (extend pk on_append ys s) grown.0,
          reads-IsSequence xs is (extend pk on_append ys s) grown.0,
        )
