-- ===== src/Product/Mapping/Accepted.antt =====
-- Which columns `map_product_headers` accepts (product_workflow/mapping.py).
use excel_youhua.Prelude.{
  ℕ, zero, suc, map, ◌||◌, ◌+◌, String, true, false, List, [], ◌∷◌, none, some, ◌≡◌, refl, inl, inr,
  arith, contains, Distinct, All, Option-cases, string_eq, nat_eq, eq_iff, get_elem?, ap,
}
use excel_youhua.Dict.{Dict, get, has, has-put, get-some, has_of_get}
use native.Mathlib.Nat.{add-zero}
use excel_youhua.Python.{Python, text}
use excel_youhua.Text.{header_key}
use excel_youhua.Product.Models.{FieldMapping, Fuzzy}
use excel_youhua.Product.Mapping.Prepare.{Targets}
use excel_youhua.Product.Mapping.Step.{Options, step, loop, by_owners, single}
use excel_youhua.Product.Mapping.Outcome.{
  accepted_id, accepted_ids, Names, step_confirmed, step_exact, step_outcome, place, enumerate,
  next, place-step,
}

module _ (py : Python) (fz : Fuzzy) (opts : Options) (t : Targets) where
  -- A step that finds a named field accepts it, unless an earlier column has it.
  step-Names :
      (column : ℕ) (raw f : String) (seen : Dict String ℕ)
      → contains opts.forced_extra_columns column ≡ false
      → Names t (header_key py (text raw)) f
      → get f seen ≡ none
      → accepted_id (step py fz opts t column raw seen).0 ≡ some f
  unfolding by_owners single
  step-Names column raw f seen e (inl c) fresh =
      rw (step_confirmed py fz opts t column raw seen f e c) (ground (arith, fresh))
  step-Names column raw f seen e (inr (c, one)) fresh =
      rw (step_exact py fz opts t column raw seen e c, one) (ground (arith, fresh))

  -- A field accepted before is not accepted again.
  loop-has :
      (headers : List String) (column : ℕ) (seen : Dict String ℕ) (f : String)
      → has f seen ≡ true
      → contains (accepted_ids (loop py fz opts t headers column seen)) f ≡ false
  unfolding loop
  loop-has [] column seen f h = refl
  loop-has (raw ∷ rest) column seen f h = elim (step_outcome py fz opts t column raw seen) [
    | inl n ↦ ground (arith, loop-has rest (column + 1) (step py fz opts t column raw seen).1 f)
    | inr (g, _, _, n) ↦ ground (
      arith,
      has-put g f column seen,
      eq_iff g f,
      get-some f seen h,
      loop-has rest (column + 1) (step py fz opts t column raw seen).1 f,
    )
  ]

  pub loop-Distinct :
      (headers : List String) (column : ℕ) (seen : Dict String ℕ)
      → Distinct (accepted_ids (loop py fz opts t headers column seen))
  unfolding loop
  loop-Distinct [] column seen = tt
  loop-Distinct (raw ∷ rest) column seen = elim (step_outcome py fz opts t column raw seen) [
    | inl n ↦ rw n.0 (loop-Distinct rest (column + 1) (step py fz opts t column raw seen).1)
    | inr (g, _, _, n) ↦ rw n.0 (
      loop-has rest (column + 1) (step py fz opts t column raw seen).1 g
          (rw n.2 (ground (arith, has-put g g column seen, eq_iff g g))),
      loop-Distinct rest (column + 1) (step py fz opts t column raw seen).1,
    )
  ]

  -- Every accepted field is named by the column's header, and the column is not forced extra.
  abbrev pub IsBacked : FieldMapping → Type 0
  IsBacked m =
      (f : String)
      → accepted_id m ≡ some f
      → Names t (header_key py (text m.raw_header)) f
        × (contains opts.forced_extra_columns m.physical_column ≡ false)

  pub loop-IsBacked :
      (headers : List String) (column : ℕ) (seen : Dict String ℕ)
      → All IsBacked (loop py fz opts t headers column seen)
  unfolding loop
  loop-IsBacked [] column seen = tt
  loop-IsBacked (raw ∷ rest) column seen = (
    λ f a. elim (step_outcome py fz opts t column raw seen) [
      | inl n ↦ cc n.0
      | inr (g, named, free, n) ↦
          let p = place-step py fz opts t column raw seen in
          let same : g ≡ f = cc n.0 in
          rw (ap (λ (x : ℕ × String). x.0) p, ap (λ (x : ℕ × String). x.1) p, ← same) (named, free)
    ],
    loop-IsBacked rest (column + 1) (step py fz opts t column raw seen).1,
  )

  pub loop-place :
      (headers : List String) (column : ℕ) (seen : Dict String ℕ)
      → map place (loop py fz opts t headers column seen) ≡ enumerate column headers
  unfolding loop
  loop-place [] column seen = refl
  loop-place (raw ∷ rest) column seen = rw (
    place-step py fz opts t column raw seen,
    loop-place rest (column + 1) (step py fz opts t column raw seen).1,
  )

  -- A named field is accepted for some column.
  pub loop_complete :
      (headers : List String) (i column : ℕ) (seen : Dict String ℕ) (raw f : String)
      → get_elem? headers i ≡ some raw
      → contains opts.forced_extra_columns (column + i) ≡ false
      → Names t (header_key py (text raw)) f
      → (has f seen || contains (accepted_ids (loop py fz opts t headers column seen)) f) ≡ true
  unfolding loop
  loop_complete [] i column seen raw f e free named = cc
  loop_complete (h ∷ rest) zero column seen raw f e free named =
      let same : h ≡ raw = cc e in
      elim (Option-cases (get f seen)) [
        | inr (c, found) ↦ rw (has_of_get f seen found)
        | inl fresh ↦
            let a = step-Names column h f seen (rw add-zero at free) (rw same named) fresh in
            rw a (ground (arith, eq_iff f f))
      ]
  loop_complete (h ∷ rest) (suc i) column seen raw f e free named =
      let later =
        loop_complete rest i (column + 1) (step py fz opts t column h seen).1 raw f e
          (rw (next column i) at free) named in
      elim (step_outcome py fz opts t column h seen) [
        | inl n ↦ ground (arith, later)
        | inr (g, _, _, n) ↦ ground (arith, later, has-put g f column seen, eq_iff g f)
      ]
