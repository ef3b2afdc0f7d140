-- ===== src/Engine/Locate/Best.antt =====
-- Which row `locate_header_row` (workbook.py) settles on.
use excel_youhua.Prelude.{
  ℕ, ◌≤◌, ◌<◌, true, ◌&&◌, List, [], ◌∷◌, none, ◌≡◌, ◌⊎◌, inl, inr, refl, ap, subst, take, any,
  keep, All, nat_beq, arith, Bool-cases,
}
use excel_youhua.Python.{Python}
use excel_youhua.Engine.Models.{SheetRule, SheetSnapshot}
use excel_youhua.Engine.Locate.{
  scan_rows, header_names, header_candidates, best_score, choose_best, locate_header_row,
}

module _ (py : Python) where
  bound : (cs : List (ℕ × ℕ)) (n : ℕ) → best_score py cs ≤ n → All (λ c. c.0 ≤ n) cs
  bound [] n h = tt
  bound (c ∷ cs) n h = (omega (arith, h), bound cs n (omega (arith, h)))

  none_best :
      (cs : List (ℕ × ℕ)) (n : ℕ)
      → All (λ c. c.0 ≤ n) cs
      → keep (λ c. nat_beq c.0 n) cs ≡ []
      → All (λ c. c.0 < n) cs
  none_best [] n h e = tt
  none_best (c ∷ cs) n h e = ground (arith, h, e, none_best cs n h.1, Bool-cases (nat_beq c.0 n))

  -- A candidate is this row with the score, or scores less.
  abbrev pub IsBelow : ℕ → ℕ → ℕ × ℕ → Type 0
  IsBelow score row c = ((c.0 ≡ score) × (c.1 ≡ row)) ⊎ (c.0 < score)

  below : (cs : List (ℕ × ℕ)) (n : ℕ) (row : ℕ) → All (λ c. c.0 < n) cs → All (IsBelow n row) cs
  below [] n row h = tt
  below (c ∷ cs) n row h = (inr h.0, below cs n row h.1)

  only_best :
      (cs : List (ℕ × ℕ)) (n : ℕ) (b : ℕ × ℕ)
      → All (λ c. c.0 ≤ n) cs
      → keep (λ c. nat_beq c.0 n) cs ≡ b ∷ []
      → All (IsBelow n b.1) cs × (any (λ c. nat_beq c.0 n && nat_beq c.1 b.1) cs ≡ true)
  only_best [] n b h e = absurd (ground (arith, e))
  only_best (c ∷ cs) n b h e = elim (Bool-cases (nat_beq c.0 n)) [
    | inl best ↦
        let same : c ≡ b = ground (arith, e, best) in
        let none_left : keep (λ c. nat_beq c.0 n) cs ≡ [] = ground (arith, e, best) in
        (
          (
            inl (ground (arith, best), ap (λ x. x.1) same),
            below cs n b.1 (none_best cs n h.1 none_left),
          ),
          ground (arith, best, ap (λ x. x.1) same),
        )
    | inr less ↦
        let rest = only_best cs n b h.1 (ground (arith, e, less)) in
        ((inr (ground (arith, less, h.0)), rest.0), ground (arith, rest.1))
  ]

  chosen :
      (default row : ℕ) (best : List (ℕ × ℕ))
      → choose_best py default best ≡ (row, none)
      → (b : ℕ × ℕ) × (best ≡ b ∷ []) × (b.1 ≡ row)
  chosen default row [] h = absurd (ground (arith, h))
  chosen default row (c ∷ []) h = (c, refl, ap (λ r. r.0) h)
  chosen default row (c ∷ d ∷ ds) h = absurd (ground (arith, h))

  -- If `locate_header_row` detects a row without a warning, that row is a candidate, and every other
  -- candidate among the rows that it scans has a lower score.
  pub locate_header_row_best :
      (sheet : SheetRule py.Obj) (snapshot : SheetSnapshot py.Obj) (row : ℕ)
      → sheet.auto_detect ≡ true
      → locate_header_row py sheet snapshot ≡ (row, none)
      → let cs =
          header_candidates py sheet
            (header_names py sheet.columns [])
            (take scan_rows snapshot.rows) in
        All (IsBelow (best_score py cs) row) cs
        × (any (λ c. nat_beq c.0 (best_score py cs) && nat_beq c.1 row) cs ≡ true)
  unfolding locate_header_row
  locate_header_row_best sheet snapshot row auto h =
      let cs =
        header_candidates py sheet (header_names py sheet.columns [])
          (take scan_rows snapshot.rows) in
      let best = keep (λ c. nat_beq c.0 (best_score py cs)) cs in
      let picked : choose_best py sheet.header_row best ≡ (row, none) = ground (arith, auto, h) in
      let (b, only, at) = chosen sheet.header_row row best picked in
      subst
        (λ r.
          All (IsBelow (best_score py cs) r) cs
          × (any (λ c. nat_beq c.0 (best_score py cs) && nat_beq c.1 r) cs ≡ true))
        at (only_best cs (best_score py cs) b (bound cs (best_score py cs) (omega arith)) only)
