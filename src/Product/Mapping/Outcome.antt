-- ===== src/Product/Mapping/Outcome.antt =====
-- What one round of `map_product_headers` does with a column (product_workflow/mapping.py).
use excel_youhua.Prelude.{
  ℕ, suc, ◌+◌, String, true, false, List, [], ◌∷◌, Option, none, some, ◌≡◌, refl, ◌⊎◌, inl, inr,
  arith, contains, Option-cases, Bool-cases, string_eq, nat_eq,
}
use excel_youhua.Dict.{Dict, get, put, get_or}
use excel_youhua.Python.{Python, text}
use excel_youhua.Text.{normalize_header, header_key}
use excel_youhua.Product.Models.{
  FieldMapping, Status, accepted, Fuzzy, MatchType, MappingCandidate, exact, confirmed_alias,
}
use excel_youhua.Product.Mapping.Prepare.{Targets}
use excel_youhua.Product.Mapping.Step.{
  Options, step, by_owners, single, several, suggest, suggestions, unmapped_mapping,
}

abbrev pub when_accepted : Status → Option String → Option String
when_accepted accepted f = f
when_accepted _ f = none

-- The field that a column was accepted for.
abbrev pub accepted_id : FieldMapping → Option String
accepted_id m = when_accepted m.status m.field_id

abbrev pub cons_some : Option String → List String → List String
cons_some none fs = fs
cons_some (some f) fs = f ∷ fs

abbrev pub accepted_ids : List FieldMapping → List String
accepted_ids [] = []
accepted_ids (m ∷ ms) = cons_some (accepted_id m) (accepted_ids ms)

-- The header key `token` names the field `f`: a confirmed alias does, or no alias is confirmed for
-- it and `f` is its one owner.
abbrev pub Names : Targets → String → String → Type 0
Names t token f =
    (get token t.confirmed ≡ some f)
    ⊎ (get token t.confirmed ≡ none) × (get_or token [] t.token_owners ≡ f ∷ [])

-- A step accepts nothing and records nothing, or it accepts a field that was not accepted before.
abbrev pub Nothing : Dict String ℕ → FieldMapping × Dict String ℕ → Type 0
Nothing seen r = (accepted_id r.0 ≡ none) × (r.1 ≡ seen)

abbrev pub New : ℕ → Dict String ℕ → String → FieldMapping × Dict String ℕ → Type 0
New column seen f r = (accepted_id r.0 ≡ some f) × (get f seen ≡ none) × (r.1 ≡ put f column seen)

module _ (py : Python) (fz : Fuzzy) (opts : Options) (t : Targets) (column : ℕ) (raw : String)
    (seen : Dict String ℕ) where
  pub single_outcome :
      (normalized : String) (kind : MatchType) (f : String)
      → let r = single py fz opts t column raw normalized kind f seen in
        Nothing seen r ⊎ New column seen f r
  unfolding single
  single_outcome normalized kind f = elim (Option-cases (get f seen)) [
    | inl e ↦ inr (ground (arith, e), e, ground (arith, e))
    | inr (c, e) ↦ inl (ground (arith, e), ground (arith, e))
  ]

  pub suggest-not_accepted :
      (normalized : String) (cs : List MappingCandidate)
      → accepted_id (suggest py fz opts t column raw normalized cs) ≡ none
  unfolding unmapped_mapping
  suggest-not_accepted normalized [] = refl
  suggest-not_accepted normalized (c ∷ cs) = refl

  pub by_owners_outcome :
      (normalized : String) (kind : MatchType) (owners : List String)
      → let r = by_owners py fz opts t column raw normalized kind owners seen in
        Nothing seen r ⊎ ((f : String) × (owners ≡ f ∷ []) × New column seen f r)
  unfolding by_owners
  by_owners_outcome normalized kind [] = inl (suggest-not_accepted normalized _, refl)
  by_owners_outcome normalized kind (o ∷ []) = elim (single_outcome normalized kind o) [
    | inl n ↦ inl n
    | inr n ↦ inr (o, refl, n)
  ]
  by_owners_outcome normalized kind (o ∷ p ∷ os) = inl (refl, refl)

  abbrev pub Accepts : FieldMapping × Dict String ℕ → Type 0
  Accepts r =
      (f : String) × Names t (header_key py (text raw)) f
      × (contains opts.forced_extra_columns column ≡ false)
      × New column seen f r

  abbrev pub normalized : String
  normalized = normalize_header py (text raw)

  abbrev pub ByOwners : MatchType → List String → Type 0
  ByOwners kind owners =
      step py fz opts t column raw seen
      ≡ by_owners py fz opts t column raw normalized kind owners seen

  pub step_forced :
      contains opts.forced_extra_columns column ≡ true
      → Nothing seen (step py fz opts t column raw seen)
  unfolding step unmapped_mapping
  step_forced e = (ground (arith, e), ground (arith, e))

  pub step_confirmed :
      (f : String)
      → contains opts.forced_extra_columns column ≡ false
      → get (header_key py (text raw)) t.confirmed ≡ some f
      → ByOwners confirmed_alias (f ∷ [])
  unfolding step header_key
  step_confirmed f e c = ground (arith, e, c)

  pub step_exact :
      contains opts.forced_extra_columns column ≡ false
      → get (header_key py (text raw)) t.confirmed ≡ none
      → ByOwners exact (get_or (header_key py (text raw)) [] t.token_owners)
  unfolding step header_key
  step_exact e c = ground (arith, e, c)

  pub step_outcome : let r = step py fz opts t column raw seen in Nothing seen r ⊎ Accepts r
  step_outcome = elim (Bool-cases (contains opts.forced_extra_columns column)) [
    | inl e ↦ inl (step_forced e)
    | inr e ↦ elim (Option-cases (get (header_key py (text raw)) t.confirmed)) [
      | inr (f, c) ↦
          rw (step_confirmed f e c) (elim (by_owners_outcome normalized confirmed_alias (f ∷ [])) [
            | inl n ↦ inl n
            | inr (g, same, n) ↦ inr (g, inl (cc), e, n)
          ])
      | inl c ↦
          rw (step_exact e c)
            (elim (by_owners_outcome normalized exact
              (get_or (header_key py (text raw)) [] t.token_owners)) [
                | inl n ↦ inl n
                | inr (g, same, n) ↦ inr (g, inr (c, same), e, n)
              ])
    ]
  ]

-- Where a mapping stands: its column and its header.
abbrev pub place : FieldMapping → ℕ × String
place m = (m.physical_column, m.raw_header)

-- `enumerate(headers, start=column)`
abbrev pub enumerate : ℕ → List String → List (ℕ × String)
enumerate column [] = []
enumerate column (h ∷ hs) = (column, h) ∷ enumerate (column + 1) hs

pub next : (c i : ℕ) → c + suc i ≡ c + 1 + i
next c i = omega arith

module _ (py : Python) (fz : Fuzzy) (opts : Options) (t : Targets) (column : ℕ) (raw : String)
    (seen : Dict String ℕ) where
  pub place-suggest :
      (normalized : String) (cs : List MappingCandidate)
      → place (suggest py fz opts t column raw normalized cs) ≡ (column, raw)
  unfolding unmapped_mapping
  place-suggest norm [] = refl
  place-suggest norm (c ∷ cs) = refl

  pub place-by_owners :
      (normalized : String) (kind : MatchType) (owners : List String)
      → place (by_owners py fz opts t column raw normalized kind owners seen).0 ≡ (column, raw)
  unfolding by_owners single several
  place-by_owners normalized kind [] =
      place-suggest normalized (suggestions py fz opts t (py.casefold normalized))
  place-by_owners normalized kind (o ∷ []) = ground arith
  place-by_owners normalized kind (o ∷ p ∷ os) = refl

  pub place-step : place (step py fz opts t column raw seen).0 ≡ (column, raw)
  unfolding step unmapped_mapping
  place-step = elim (Bool-cases (contains opts.forced_extra_columns column)) [
    | inl e ↦ ground (arith, e)
    | inr e ↦ elim (Option-cases (get (header_key py (text raw)) t.confirmed)) [
      | inr (f, c) ↦
          rw (step_confirmed py fz opts t column raw seen f e c)
            (place-by_owners (normalize_header py (text raw)) confirmed_alias (f ∷ []))
      | inl c ↦ rw (step_exact py fz opts t column raw seen e c) (
          place-by_owners (normalize_header py (text raw)) exact
            (get_or (header_key py (text raw)) [] t.token_owners))
    ]
  ]
