-- ===== src/Spill/Refinement.antt =====
-- A spillable sequence (spill.py) stands for the list of what was appended to it.
use mathlib.Core.List.{append-nil, append_assoc}
use excel_youhua.Prelude.{
  ℕ, ◌+◌, zero, suc, List, [], ◌∷◌, ◌++◌, Option, none, some, ◌≡◌, refl, length, get_elem?, take,
  drop, arith, ap, ◌∙◌, sym, subst, Option-cases, inl, inr, length-append,
}
use excel_youhua.Spill.{
  Pickle, ℤ, place, at_place, SpilledObjects, write_at, append_object, append_objects, read_offset,
  load_at, get_object,
}

module _ {ℓ} {A : Type ℓ} where
  take-all : (xs : List A) → take (length xs) xs ≡ xs
  take-all [] = refl
  take-all (x ∷ xs) = ap (λ ys. x ∷ ys) (take-all xs)

  drop-nil : (n : ℕ) → drop {A = A} n [] ≡ []
  drop-nil zero = refl
  drop-nil (suc n) = refl

  drop-past : (xs : List A) (n : ℕ) → drop (length xs + n) xs ≡ []
  drop-past [] n = drop-nil (0 + n)
  drop-past (x ∷ xs) n =
      let e : suc (length xs + n) ≡ suc (length xs) + n = omega arith in
      subst (λ m. drop m (x ∷ xs) ≡ []) e (drop-past xs n)

  drop-length : (xs ys : List A) → drop (length xs) (xs ++ ys) ≡ ys
  drop-length [] ys = refl
  drop-length (x ∷ xs) ys = drop-length xs ys

write_at-end : (bytes file : List ℕ) → write_at (length file) bytes file ≡ file ++ bytes
write_at-end bytes file =
    ap (λ xs. xs ++ (bytes ++ drop (length file + length bytes) file)) (take-all file)
    ∙ (ap (λ ys. file ++ (bytes ++ ys)) (drop-past file (length bytes))
        ∙ ap (λ ys. file ++ ys) (append-nil bytes))

module _ {T : Type 0} (pk : Pickle T) where
  abbrev dumps : List T → List ℕ
  dumps [] = []
  dumps (x ∷ xs) = pk.dump x ++ dumps xs

  -- Where the items start.
  abbrev starts : ℕ → List T → List ℕ
  starts n [] = []
  starts n (x ∷ xs) = n ∷ starts (n + length (pk.dump x)) xs

  dumps-append : (xs ys : List T) → dumps (xs ++ ys) ≡ dumps xs ++ dumps ys
  dumps-append [] ys = refl
  dumps-append (x ∷ xs) ys =
      ap (λ bs. pk.dump x ++ bs) (dumps-append xs ys)
      ∙ sym (append_assoc (pk.dump x) (dumps xs) (dumps ys))

  starts-snoc :
      (n : ℕ) (xs : List T) (y : T)
      → starts n (xs ++ y ∷ []) ≡ starts n xs ++ (n + length (dumps xs)) ∷ []
  starts-snoc n [] y = let e : n ≡ n + 0 = omega arith in ap (λ m. m ∷ []) e
  starts-snoc n (x ∷ xs) y =
      ground
        (arith, starts-snoc (n + length (pk.dump x)) xs y, length-append (pk.dump x) (dumps xs))

  pub length-starts : (n : ℕ) (xs : List T) → length (starts n xs) ≡ length xs
  length-starts n [] = refl
  length-starts n (x ∷ xs) = ap suc (length-starts (n + length (pk.dump x)) xs)

  -- The file holds these items.
  abbrev pub Holds : List T → SpilledObjects → Type 0
  Holds xs so = (so.file ≡ dumps xs) × (so.offsets ≡ starts 0 xs)

  abbrev pub IsAtEnd : SpilledObjects → Type 0
  IsAtEnd so = so.position ≡ length so.file

  pub append_object-Holds :
      (xs : List T) (x : T) (so : SpilledObjects)
      → Holds xs so
      → IsAtEnd so
      → Holds (xs ++ x ∷ []) (append_object pk x so) × IsAtEnd (append_object pk x so)
  unfolding append_object
  append_object-Holds xs x so h at_end =
      let file : write_at so.position (pk.dump x) so.file ≡ so.file ++ pk.dump x =
        ap (λ p. write_at p (pk.dump x) so.file) at_end ∙ write_at-end (pk.dump x) so.file in
      let end : so.position ≡ 0 + length (dumps xs) = at_end ∙ (ap length h.0 ∙ omega arith) in
      (
        (
          file
              ∙ (ap (λ f. f ++ pk.dump x) h.0
                  ∙ sym (
                      dumps-append xs (x ∷ [])
                      ∙ ap (λ bs. dumps xs ++ bs) (append-nil (pk.dump x)))),
          ap (λ os. os ++ so.position ∷ []) h.1
              ∙ (ap (λ p. starts 0 xs ++ p ∷ []) end ∙ sym (starts-snoc 0 xs x)),
        ),
        omega (arith, at_end, length-append so.file (pk.dump x), ap length file),
      )

  pub append_objects-Holds :
      (ys xs : List T) (so : SpilledObjects)
      → Holds xs so
      → IsAtEnd so
      → Holds (xs ++ ys) (append_objects pk ys so) × IsAtEnd (append_objects pk ys so)
  unfolding append_objects
  append_objects-Holds [] xs so h at_end =
      (subst (λ zs. Holds zs so) (sym (append-nil xs)) h, at_end)
  append_objects-Holds (y ∷ ys) xs so h at_end =
      let next = append_object-Holds xs y so h at_end in
      let later = append_objects-Holds ys (xs ++ y ∷ []) (append_object pk y so) next.0 next.1 in
      (
        subst (λ zs. Holds zs (append_objects pk ys (append_object pk y so)))
            (append_assoc xs (y ∷ []) ys) later.0,
        later.1,
      )

  -- `pickle.load` reads back what `pickle.dump` wrote, and no byte more.
  module _
      (loads : (x : T) (rest : List ℕ)
        → pk.load (pk.dump x ++ rest) ≡ some (x, length (pk.dump x))) where
    start_of :
        (pre : List ℕ) (xs : List T) (i : ℕ) (x : T)
        → get_elem? xs i ≡ some x
        → (o : ℕ) × (get_elem? (starts (length pre) xs) i ≡ some o)
          × ((rest : List ℕ) × (drop o (pre ++ dumps xs) ≡ pk.dump x ++ rest))
    start_of pre [] i x h = absurd (ground (arith, h))
    start_of pre (y ∷ ys) zero x h =
        let same : y ≡ x = cc h in
        (
          length pre,
          refl,
          (
            dumps ys,
            drop-length pre (pk.dump y ++ dumps ys) ∙ ap (λ z. pk.dump z ++ dumps ys) same,
          ),
        )
    start_of pre (y ∷ ys) (suc i) x h =
        let (o, at, (rest, there)) = start_of (pre ++ pk.dump y) ys i x h in
        (
          o,
          ap (λ n. get_elem? (starts n ys) i) (sym (length-append pre (pk.dump y))) ∙ at,
          (rest, ap (λ f. drop o f) (sym (append_assoc pre (pk.dump y) (dumps ys))) ∙ there),
        )

    no_start :
        (n : ℕ) (xs : List T) (i : ℕ) → get_elem? xs i ≡ none → get_elem? (starts n xs) i ≡ none
    no_start n [] i h = refl
    no_start n (x ∷ xs) zero h = absurd (ground (arith, h))
    no_start n (x ∷ xs) (suc i) h = no_start (n + length (pk.dump x)) xs i h

    read_at :
        (xs : List T) (so : SpilledObjects) (p : Option ℕ)
        → so.file ≡ dumps xs
        → (read_offset pk so (at_place (starts 0 xs) p)).0 ≡ at_place xs p
    read_at xs so none h = refl
    read_at xs so (some n) h = elim (Option-cases (get_elem? xs n)) [
      | inl gone ↦ ap (λ o. (read_offset pk so o).0) (no_start 0 xs n gone) ∙ sym gone
      | inr (x, here) ↦
          let (o, at, (rest, there)) = start_of [] xs n x here in
          let loaded : pk.load (drop o so.file) ≡ some (x, length (pk.dump x)) =
            ap (λ f. pk.load (drop o f)) h ∙ (ap pk.load there ∙ loads x rest) in
          ap (λ p. (read_offset pk so p).0) at ∙ (ap (λ l. (load_at pk so o l).0) loaded ∙ sym here)
    ]

    load_at-Holds :
        (xs : List T) (so : SpilledObjects) (o : ℕ) (l : Option (T × ℕ))
        → Holds xs so
        → Holds xs (load_at pk so o l).1
    load_at-Holds xs so o none h = h
    load_at-Holds xs so o (some (x, size)) h = h

    read_offset-Holds :
        (xs : List T) (so : SpilledObjects) (p : Option ℕ)
        → Holds xs so
        → Holds xs (read_offset pk so p).1
    read_offset-Holds xs so none h = h
    read_offset-Holds xs so (some o) h = load_at-Holds xs so o (pk.load (drop o so.file)) h

    pub get_object-Holds :
        (xs : List T) (so : SpilledObjects) (index : ℤ)
        → Holds xs so
        → ((get_object pk index so).0 ≡ at_place xs (place index (length xs)))
          × Holds xs (get_object pk index so).1
    unfolding get_object
    get_object-Holds xs so index h = (
      ap (λ os. (read_offset pk so (at_place os (place index (length os)))).0) h.1
          ∙ (ap (λ n. (read_offset pk so (at_place (starts 0 xs) (place index n))).0)
                (length-starts 0 xs)
              ∙ read_at xs so (place index (length xs)) h.0),
      read_offset-Holds xs so (at_place so.offsets (place index (length so.offsets))) h,
    )
