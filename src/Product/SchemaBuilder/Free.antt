-- ===== src/Product/SchemaBuilder/Free.antt =====
-- The loop for a free identifier ends, and its result is free.
use excel_youhua.Text.Decimal.{numbered-injective, numbered}
use excel_youhua.Prelude.Results.{ok}
use excel_youhua.Product.SchemaBuilder.{free_id}
use excel_youhua.Prelude.{
  ◌∙◌, sym, inr, zero, inl, ◌+◌, eq_iff, Bool-cases, ◌<◌, true, not, false, suc, ◌≤◌, contains,
  length, ◌==◌, keep, List, ℕ, String, ◌≡◌, refl, arith, string_eq, [], ◌∷◌,
}

pub free_id-fresh :
    (fuel : ℕ) (name : String) (n : ℕ) (candidate : String) (used : List String) {id : String}
    → free_id fuel name n candidate used ≡ ok id
    → contains used id ≡ false
unfolding free_id
free_id-fresh zero name n candidate used h = ground arith
free_id-fresh (suc fuel) name n candidate used {id} h =
    elim (Bool-cases (contains used candidate)) [
      | inl taken ↦
          free_id-fresh fuel name (n + 1) (numbered name n) used (rw (taken, free_id) at h)
      | inr free ↦ ground (arith, free)
    ]

-- the names that are not the candidate
others : String → List String → List String
others candidate used = keep (λ u. not (u == candidate)) used

contains-others :
    (candidate name : String) (used : List String)
    → (candidate == name) ≡ false
    → contains (others candidate used) name ≡ contains used name
unfolding others
contains-others candidate name [] h = refl
contains-others candidate name (u ∷ used) h = ground (
  arith,
  contains-others candidate name used,
  eq_iff u candidate,
  eq_iff u name,
  eq_iff candidate name,
)

length-others :
    (candidate : String) (used : List String) → length (others candidate used) ≤ length used
unfolding others
length-others candidate [] = omega arith
length-others candidate (u ∷ used) = ground (arith, length-others candidate used)

length-others_lt :
    (candidate : String) (used : List String)
    → contains used candidate ≡ true
    → length (others candidate used) < length used
unfolding others
length-others_lt candidate [] h = ground arith
length-others_lt candidate (u ∷ used) h =
    ground (arith, length-others candidate used, length-others_lt candidate used)

-- The loop reads only whether its candidates are taken.
free_id-agrees :
    (fuel : ℕ) (name : String) (n : ℕ) (used used' : List String)
    → ((m : ℕ) → n ≤ m → contains used (numbered name m) ≡ contains used' (numbered name m))
    → free_id fuel name (n + 1) (numbered name n) used
      ≡ free_id fuel name (n + 1) (numbered name n) used'
unfolding free_id
free_id-agrees zero name n used used' h = refl
free_id-agrees (suc fuel) name n used used' h =
    ground (arith, h n, free_id-agrees fuel name (n + 1) used used' (λ m above. h m (omega arith)))

numbered-ends :
    (fuel : ℕ) (name : String) (n : ℕ) (used : List String)
    → length used < fuel
    → (id : String) × (free_id fuel name (n + 1) (numbered name n) used ≡ ok id)
unfolding free_id
numbered-ends zero name n used h = absurd (omega arith)
numbered-ends (suc fuel) name n used h = elim (Bool-cases (contains used (numbered name n))) [
  | inl taken ↦
      let rest = others (numbered name n) used in
      let (id, found) =
        numbered-ends fuel name (n + 1) rest
          (omega (arith, length-others_lt (numbered name n) used taken)) in
      (
        id,
        rw taken (
            free_id-agrees fuel name (n + 1) used rest (λ m above.
              sym (contains-others (numbered name n) (numbered name m) used (differs n m above)))
            ∙ found),
      )
  | inr free ↦ (numbered name n, rw free)
]
  where
    differs : (k m : ℕ) → k + 1 ≤ m → (numbered name k == numbered name m) ≡ false
    differs k m above = elim (Bool-cases (numbered name k == numbered name m)) [
      | inl same ↦ absurd (
          omega (
            arith,
            numbered-injective name k m
                ((string_eq.beq_iff (numbered name k) (numbered name m)).0 same),
          ))
      | inr other ↦ other
    ]

-- With the fuel that `merchant_id` has, the loop always finds an identifier, and none that is taken.
pub free_id-ends :
    (name : String) (used : List String)
    → (id : String) × (free_id (suc (suc (length used))) name 2 name used ≡ ok id)
      × (contains used id ≡ false)
unfolding free_id
free_id-ends name used = elim (Bool-cases (contains used name)) [
  | inl taken ↦
      let (id, found) = numbered-ends (suc (length used)) name 2 used (omega arith) in
      (id, rw taken found, free_id-fresh (suc (length used)) name 3 (numbered name 2) used found)
  | inr free ↦ (name, rw free, free)
]
