-- ===== src/Persistence/Decided.antt =====
-- A review is decided once: its decision stays, and no second one is taken.
pub mod Once
use excel_youhua.Persistence.First.{first-append}
use excel_youhua.Product.Reviews.Models.{ProductReviewDecision}
use excel_youhua.Persistence.History.{Call}
use excel_youhua.Persistence.Reviews.{resolve_row}
use excel_youhua.Prelude.Equality.{beq_refl}
use excel_youhua.Persistence.Session.{update_where, Platform, first}
use excel_youhua.Persistence.Rows.{ProductReviewItemRow}
use excel_youhua.Persistence.Items.{remove, resolve, add, purges, same, Change, has_id, Items}
use excel_youhua.Prelude.{
  not, inr, inl, Bool-cases, ◌==◌, if◌then◌else◌, ◌||◌, if◌then◌else◌, eq_iff, ◌||◌, true, ◌++◌,
  string_eq, some, false, [], keep, any, ◌∷◌, Bool, Distinct, contains, List, String, ◌≡◌, refl,
  arith,
}

-- the identifiers of the review items
abbrev pub review_ids : {T : Type 0} → Items T → List String
review_ids [] = []
review_ids (row ∷ rows) = row.id ∷ review_ids rows

module _ {T : Type 0} where
  contains-ids : (key : String) (xs : Items T) → contains (review_ids xs) key ≡ any (has_id key) xs
  contains-ids key [] = refl
  contains-ids key (x ∷ xs) = ground (arith, contains-ids key xs)

  pub any-append :
      (q : ProductReviewItemRow T → Bool) (xs ys : Items T)
      → any q (xs ++ ys) ≡ (any q xs || any q ys)
  any-append q [] ys = refl
  any-append q (x ∷ xs) ys = ground (arith, any-append q xs ys)

  pub Distinct-append :
      (xs : Items T) (row : ProductReviewItemRow T)
      → Distinct (review_ids xs)
      → any (has_id row.id) xs ≡ false
      → Distinct (review_ids (xs ++ row ∷ []))
  Distinct-append [] row d free = ground arith
  Distinct-append (x ∷ xs) row d free = ground (
    arith,
    contains-ids x.id (xs ++ row ∷ []),
    any-append (has_id x.id) xs (row ∷ []),
    contains-ids x.id xs,
    eq_iff row.id x.id,
    eq_iff x.id row.id,
    Distinct-append xs row,
  )

  any-keep :
      (q k : ProductReviewItemRow T → Bool) (xs : Items T)
      → any q xs ≡ false
      → any q (keep k xs) ≡ false
  any-keep q k [] h = refl
  any-keep q k (x ∷ xs) h = ground (arith, any-keep q k xs)

  Distinct-keep :
      (k : ProductReviewItemRow T → Bool) (xs : Items T)
      → Distinct (review_ids xs)
      → Distinct (review_ids (keep k xs))
  Distinct-keep k [] d = d
  Distinct-keep k (x ∷ xs) d = ground (
    arith,
    Distinct-keep k xs,
    contains-ids x.id xs,
    contains-ids x.id (keep k xs),
    any-keep (has_id x.id) k xs,
  )

  first-keep :
      (q k : ProductReviewItemRow T → Bool) (xs : Items T) {row : ProductReviewItemRow T}
      → first q xs ≡ some row
      → k row ≡ true
      → first q (keep k xs) ≡ some row
  first-keep q k [] h kept = ground arith
  first-keep q k (x ∷ xs) {row} h kept = ground (arith, first-keep q k xs {row = row})

  pub any_of_first :
      (q : ProductReviewItemRow T → Bool) (xs : Items T) {row : ProductReviewItemRow T}
      → first q xs ≡ some row
      → any (has_id row.id) xs ≡ true
  any_of_first q [] h = ground arith
  any_of_first q (x ∷ xs) {row} h = ground (arith, any_of_first q xs {row = row}, beq_refl row.id)

  -- Two rows with one identifier are the same row.
  pub first_unique :
      (q r : ProductReviewItemRow T → Bool) (xs : Items T) {a b : ProductReviewItemRow T}
      → Distinct (review_ids xs)
      → first q xs ≡ some a
      → first r xs ≡ some b
      → a.id ≡ b.id
      → a ≡ b
  first_unique q r [] d f g same_id = absurd (ground arith)
  first_unique q r (x ∷ xs) {a} {b} d f g same_id = ground (
    arith,
    contains-ids x.id xs,
    any_of_first q xs {row = a},
    any_of_first r xs {row = b},
    first_unique q r xs {a = a} {b = b},
  )

module _ (p : Platform) where
  pub update_where-ids :
      (key : String) (decision : ProductReviewDecision) (actor : String) (time : p.Time)
      (xs : Items p.Time)
      → review_ids (update_where (has_id key) (resolve_row p decision actor time) xs)
        ≡ review_ids xs
  unfolding resolve_row
  update_where-ids key decision actor time [] = refl
  update_where-ids key decision actor time (x ∷ xs) =
      ground (arith, update_where-ids key decision actor time xs)

  -- a resolution of another row, or of this one
  pub first-update_where :
      (key other : String) (decision : ProductReviewDecision) (actor : String) (time : p.Time)
      (xs : Items p.Time) {row : ProductReviewItemRow p.Time}
      → first (has_id key) xs ≡ some row
      → first (has_id key) (update_where (has_id other) (resolve_row p decision actor time) xs)
        ≡ some (if row.id == other then resolve_row p decision actor time row else row)
  unfolding resolve_row
  first-update_where key other decision actor time [] h = ground arith
  first-update_where key other decision actor time (x ∷ xs) {row} h =
      ground (arith, first-update_where key other decision actor time xs {row = row})

  pub first-id :
      (key : String) (xs : Items p.Time) {row : ProductReviewItemRow p.Time}
      → first (has_id key) xs ≡ some row
      → row.id ≡ key
  first-id key [] h = ground arith
  first-id key (x ∷ xs) {row} h = ground (arith, first-id key xs {row = row}, eq_iff x.id key)

  pub Change-Distinct :
      (call : Call p) {xs ys : Items p.Time}
      → Change p call xs ys
      → Distinct (review_ids xs)
      → Distinct (review_ids ys)
  Change-Distinct call (same e) d = rw e d
  Change-Distinct call (add {ys} row c free grown) d =
      rw grown (Distinct-append ys row (Change-Distinct call c d) free)
  Change-Distinct call {xs} (resolve own row decision actor time found pending e) d =
      rw (e, update_where-ids row.id decision actor time xs) d
  Change-Distinct call {xs} (remove job is_purge e) d = rw e (Distinct-keep _ xs d)

  -- a call keeps a resolved review, unless it purges the job
  pub Change-resolved :
      (call : Call p) (key : String) {xs ys : Items p.Time} {row : ProductReviewItemRow p.Time}
      → Change p call xs ys
      → Distinct (review_ids xs)
      → purges row.job_id call ≡ false
      → row.status ≡ "resolved"
      → first (has_id key) xs ≡ some row
      → first (has_id key) ys ≡ some row
  Change-resolved call key (same e) d kept resolved f = rw e f
  Change-resolved call key {xs} {row} (add new c free grown) d kept resolved f =
      rw grown
        (first-append (has_id key) _ (new ∷ []) (Change-resolved call key c d kept resolved f))
  Change-resolved call key {xs} {row} (resolve own found decision actor time g pending e) d kept
        resolved f =
      elim (Bool-cases (row.id == found.id)) [
        | inl same_id ↦
            let one =
              first_unique (has_id key) own xs d f g
                ((string_eq.beq_iff row.id found.id).0 same_id) in
            absurd (ground (arith, one, pending, resolved, eq_iff "pending" "resolved"))
        | inr other ↦ rw (e, first-update_where key found.id decision actor time xs f, other)
      ]
  Change-resolved call key {xs} {row} (remove job is_purge e) d kept resolved f = rw e (
      first-keep (has_id key) (λ r. not (r.job_id == job)) xs f
        (elim (Bool-cases (row.job_id == job)) [
          | inl own ↦
              let purged : purges row.job_id call ≡ true =
                rw ((string_eq.beq_iff row.job_id job).0 own) is_purge in
              absurd (cc)
          | inr other ↦ rw other
        ]))
