-- ===== src/Persistence/References/Tables.antt =====
-- The tables of jobs and snapshots under additions, changes and removals.
use excel_youhua.Prelude.Equality.{option_beq}
use excel_youhua.Persistence.Rows.{ComparisonJobRow, StandardSnapshotRow}
use excel_youhua.Persistence.Jobs.{has_snapshot}
use excel_youhua.Persistence.Session.{update_where, Platform}
use excel_youhua.Prelude.{
  none, eq_iff, string_eq, any-append_left, not, inr, [], inl, keep, ◌∷◌, Bool-cases, any, false,
  Bool, ◌++◌, All, true, some, ◌==◌, Option, String, List, ◌≡◌, refl, arith,
}

module _ (p : Platform) where
  -- the snapshots are there that these jobs refer to
  abbrev pub AllKnown :
      List (StandardSnapshotRow p.Json p.Time) → List (ComparisonJobRow p.Json p.Time) → Type 0
  AllKnown snapshots jobs = All (λ j. has_snapshot p j.standard_snapshot_id snapshots ≡ true) jobs

  pub known_after_add :
      (snapshots : List (StandardSnapshotRow p.Json p.Time)) (s : StandardSnapshotRow p.Json p.Time)
      (jobs : List (ComparisonJobRow p.Json p.Time))
      → AllKnown snapshots jobs
      → AllKnown (snapshots ++ s ∷ []) jobs
  known_after_add snapshots s [] known = tt
  known_after_add snapshots s (j ∷ jobs) known =
      (still j.standard_snapshot_id known.0, known_after_add snapshots s jobs known.1)
    where
      still :
          (o : Option String)
          → has_snapshot p o snapshots ≡ true
          → has_snapshot p o (snapshots ++ s ∷ []) ≡ true
      still none h = refl
      still (some key) h =
          any-append_left (λ (t : StandardSnapshotRow p.Json p.Time). t.id == key) snapshots
            (s ∷ []) h

  pub known_after_update :
      (snapshots : List (StandardSnapshotRow p.Json p.Time)) (key : String)
      (new : ComparisonJobRow p.Json p.Time) (jobs : List (ComparisonJobRow p.Json p.Time))
      → has_snapshot p new.standard_snapshot_id snapshots ≡ true
      → AllKnown snapshots jobs
      → AllKnown snapshots (update_where (λ j. j.id == key) (λ _. new) jobs)
  known_after_update snapshots key new [] h known = tt
  known_after_update snapshots key new (j ∷ jobs) h known = elim (Bool-cases (j.id == key)) [
    | inl it ↦ rw it (h, known_after_update snapshots key new jobs h known.1)
    | inr other ↦ rw other (known.0, known_after_update snapshots key new jobs h known.1)
  ]

  pub known_after_keep :
      (snapshots : List (StandardSnapshotRow p.Json p.Time))
      (test : ComparisonJobRow p.Json p.Time → Bool) (jobs : List (ComparisonJobRow p.Json p.Time))
      → AllKnown snapshots jobs
      → AllKnown snapshots (keep test jobs)
  known_after_keep snapshots test [] known = tt
  known_after_keep snapshots test (j ∷ jobs) known = elim (Bool-cases (test j)) [
    | inl it ↦ rw it (known.0, known_after_keep snapshots test jobs known.1)
    | inr other ↦ rw other (known_after_keep snapshots test jobs known.1)
  ]

  -- another snapshot is still there
  any-drop :
      (key gone : String) (snapshots : List (StandardSnapshotRow p.Json p.Time))
      → (key == gone) ≡ false
      → any (λ s. s.id == key) snapshots ≡ true
      → any (λ s. s.id == key) (keep (λ s. not (s.id == gone)) snapshots) ≡ true
  any-drop key gone [] other h = ground arith
  any-drop key gone (s ∷ ss) other h =
      ground (arith, eq_iff s.id key, eq_iff s.id gone, eq_iff key gone, any-drop key gone ss)

  pub known_after_drop :
      (gone : String) (snapshots : List (StandardSnapshotRow p.Json p.Time))
      (jobs : List (ComparisonJobRow p.Json p.Time))
      → any (λ j. option_beq j.standard_snapshot_id (some gone)) jobs ≡ false
      → AllKnown snapshots jobs
      → AllKnown (keep (λ s. not (s.id == gone)) snapshots) jobs
  known_after_drop gone snapshots [] unused known = tt
  known_after_drop gone snapshots (j ∷ jobs) unused known = (
    still j.standard_snapshot_id (ground arith) known.0,
    known_after_drop gone snapshots jobs (ground arith) known.1,
  )
    where
      still :
          (o : Option String)
          → option_beq o (some gone) ≡ false
          → has_snapshot p o snapshots ≡ true
          → has_snapshot p o (keep (λ s. not (s.id == gone)) snapshots) ≡ true
      still none u h = refl
      still (some key) u h = any-drop key gone snapshots u h
