-- ===== src/Persistence/First.antt =====
-- The first row that fits, in a table to which rows are added.
use excel_youhua.Persistence.Session.{first}
use excel_youhua.Prelude.{
  any, inr, subst, inl, Bool-cases, [], ◌∷◌, arith, All, true, ◌++◌, none, some, ◌≡◌, List, Bool,
}

module _ {ℓ} {A : Type ℓ} (q : A → Bool) where
  pub first-append : (xs ys : List A) {a : A} → first q xs ≡ some a → first q (xs ++ ys) ≡ some a
  first-append [] ys h = ground arith
  first-append (x ∷ xs) ys {a} h = ground (arith, first-append xs ys {a = a})

  pub first-append_new :
      (xs : List A) (a : A) → first q xs ≡ none → q a ≡ true → first q (xs ++ a ∷ []) ≡ some a
  first-append_new [] a h k = ground arith
  first-append_new (x ∷ xs) a h k = ground (arith, first-append_new xs a)

  pub All-first {κ} : (P : A → Type κ) (xs : List A) {a : A} → first q xs ≡ some a → All P xs → P a
  All-first P [] h all = absurd (ground arith)
  All-first P (x ∷ xs) h all = elim (Bool-cases (q x)) [
    | inl here ↦ subst P (ground arith) all.0
    | inr later ↦ All-first P xs (ground arith) all.1
  ]

  pub first-passes : (xs : List A) {a : A} → first q xs ≡ some a → q a ≡ true
  first-passes [] h = ground arith
  first-passes (x ∷ xs) {a} h = ground (arith, first-passes xs {a = a})

  pub first_of_any : (xs : List A) → any q xs ≡ true → (a : A) × (first q xs ≡ some a)
  first_of_any [] h = ground arith
  first_of_any (x ∷ xs) h = elim (Bool-cases (q x)) [
    | inl here ↦ (x, rw here)
    | inr later ↦ let (a, f) = first_of_any xs (ground arith) in (a, rw later f)
  ]
