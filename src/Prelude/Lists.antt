-- ===== src/Prelude/Lists.antt =====
-- Lists measured by native numbers, under the library's names, and Boolean membership.
use Prim.Native.Nat.{ℕ, zero, suc, ◌+◌}
use mathlib.Core.Path.{◌≡◌, refl}
use mathlib.Core.Bool.{Bool, true, false, ◌||◌}
use mathlib.Core.List.{List, [], ◌∷◌, ◌++◌}
use mathlib.Core.Option.{Option, none, some}
use native.Mathlib.Omega.{arith}
use mathlib.Core.Logic.{inl, inr}
use excel_youhua.Prelude.Tests.{if◌then◌else◌, Bool-cases}
use excel_youhua.Prelude.Equality.{Eq, ◌==◌}

module _ {ℓ} {A : Type ℓ} where
  abbrev pub length : List A → ℕ
  length [] = 0
  length (x ∷ xs) = suc (length xs)

  abbrev pub get_elem? : List A → ℕ → Option A
  get_elem? [] i = none
  get_elem? (x ∷ xs) zero = some x
  get_elem? (x ∷ xs) (suc i) = get_elem? xs i

  abbrev pub take : ℕ → List A → List A
  take zero xs = []
  take (suc n) [] = []
  take (suc n) (x ∷ xs) = x ∷ take n xs

  abbrev pub drop : ℕ → List A → List A
  drop zero xs = xs
  drop (suc n) [] = []
  drop (suc n) (x ∷ xs) = drop n xs

  -- `[x for x in xs if p x]`
  abbrev pub keep : (A → Bool) → List A → List A
  keep p [] = []
  keep p (x ∷ xs) = let rest = keep p xs in if p x then x ∷ rest else rest

  abbrev pub any : (A → Bool) → List A → Bool
  any p [] = false
  any p (x ∷ xs) = p x || any p xs

  abbrev pub All {κ} : (A → Type κ) → List A → Type κ
  All P [] = Unit
  All P (x ∷ xs) = P x × All P xs

  pub length-append : (xs ys : List A) → length (xs ++ ys) ≡ length xs + length ys
  length-append [] ys = omega arith
  length-append (x ∷ xs) ys = omega (arith, length-append xs ys)

  pub any-append_left : (p : A → Bool) (xs ys : List A) → any p xs ≡ true → any p (xs ++ ys) ≡ true
  any-append_left p [] ys h = ground arith
  any-append_left p (x ∷ xs) ys h = ground (arith, any-append_left p xs ys)

  -- No element passes a test that is stricter than one which no element passes.
  pub any-weaken :
      (p q : A → Bool) (xs : List A)
      → ((x : A) → p x ≡ true → q x ≡ true)
      → any q xs ≡ false
      → any p xs ≡ false
  any-weaken p q [] f h = refl
  any-weaken p q (x ∷ xs) f h = ground (arith, f x, any-weaken p q xs f)

  pub any-weaken_true :
      (p q : A → Bool) (xs : List A)
      → ((x : A) → p x ≡ true → q x ≡ true)
      → any p xs ≡ true
      → any q xs ≡ true
  any-weaken_true p q [] f h = h
  any-weaken_true p q (x ∷ xs) f h = ground (arith, f x, any-weaken_true p q xs f)

  pub All-append {κ} : (P : A → Type κ) (xs ys : List A) → All P xs → All P ys → All P (xs ++ ys)
  All-append P [] ys f g = g
  All-append P (x ∷ xs) ys f g = (f.0, All-append P xs ys f.1 g)

module _ {ℓ} {A : Type ℓ} ⦃e : Eq A⦄ where
  -- `x in xs`
  abbrev pub contains : List A → A → Bool
  contains [] a = false
  contains (x ∷ xs) a = (x == a) || contains xs a

  -- How often `a` stands in the list.
  abbrev pub count : A → List A → ℕ
  count a [] = 0
  count a (x ∷ xs) = let rest = count a xs in if x == a then rest + 1 else rest

  -- No element stands twice.
  abbrev pub Distinct : List A → Type 0
  Distinct [] = Unit
  Distinct (x ∷ xs) = (contains xs x ≡ false) × Distinct xs

  -- `set.add`: sets are lists without repetition, in order of insertion.
  abbrev pub add : A → List A → List A
  add a xs = if contains xs a then xs else xs ++ a ∷ []

  pub contains-append :
      (xs ys : List A) (a : A) → contains (xs ++ ys) a ≡ (contains xs a || contains ys a)
  contains-append [] ys a = refl
  contains-append (x ∷ xs) ys a = ground (arith, contains-append xs ys a)

  pub contains-add :
      (b : A) (xs : List A) (a : A) → contains (add b xs) a ≡ (contains xs a || (b == a))
  contains-add b xs a = ground (arith, e.beq_iff b a, contains-append xs (b ∷ []) a)

  Distinct-append-singleton :
      (xs : List A) (b : A) → contains xs b ≡ false → Distinct xs → Distinct (xs ++ b ∷ [])
  Distinct-append-singleton [] b h d = (refl, tt)
  Distinct-append-singleton (x ∷ xs) b h d = ground (
    arith,
    contains-append xs (b ∷ []) x,
    e.beq_iff b x,
    e.beq_iff x b,
    Distinct-append-singleton xs b,
    d.0,
    d.1,
  )

  pub Distinct-add : (b : A) (xs : List A) → Distinct xs → Distinct (add b xs)
  Distinct-add b xs d = elim (Bool-cases (contains xs b)) [
    | inl h ↦ rw h d
    | inr h ↦ rw h (Distinct-append-singleton xs b h d)
  ]

  -- A set with one member is that member alone.
  pub eq-singleton :
      (xs : List A) (a : A) → Distinct xs → ((b : A) → contains xs b ≡ (a == b)) → xs ≡ a ∷ []
  eq-singleton [] a d h = ground (arith, h a, e.beq_iff a a)
  eq-singleton (x ∷ []) a d h = ground (arith, h x, e.beq_iff a x, e.beq_iff x x)
  eq-singleton (x ∷ y ∷ zs) a d h = ground (
    arith,
    h x,
    h y,
    e.beq_iff a x,
    e.beq_iff x x,
    e.beq_iff a y,
    e.beq_iff y y,
    e.beq_iff y x,
    d.0,
  )
