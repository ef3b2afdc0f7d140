-- ===== src/Rules/Drafts/Published.antt =====
-- A draft that has been published keeps its configuration.
use excel_youhua.Rules.Drafts.Calls.{
  mark, write_again-ok, get_draft-ok, run-Change, edited, Call, created, run, perform, Change,
}
use excel_youhua.Prelude.Equality.{beq_refl}
use excel_youhua.Prelude.{subst, if◌then◌else◌}
use excel_youhua.Dict.{get-put, get}
use excel_youhua.Prelude.Results.{Result-cases, >>=-eq-ok, ok}
use excel_youhua.Rules.Drafts.{
  mark_published, safe_segment, path_of, Draft, get_draft, Registry, Environment,
}
use excel_youhua.Rules.Segments.{safe_segment, path_eq}
use excel_youhua.Prelude.{
  ap, ◌∙◌, Bool-cases, sym, string_eq, inr, eq_iff, inl, ◌<◌, ℕ, ◌⊎◌, some, [], ◌∷◌, List, String,
  ◌≡◌, refl, arith,
}

module _ {Json : Type 0} (env : Environment Json) where
  -- Every file is where its draft belongs, and its identifier has been drawn.
  abbrev IsPlaced : Registry Json → Type 0
  IsPlaced r =
      (path : String × String) (draft : Draft Json)
      → get path r.files ≡ some draft
      → (path ≡ (draft.schema_id, draft.draft_id))
        × (n : ℕ) × (n < r.calls)
        × (draft.draft_id ≡ env.ulid n)

  Change-IsPlaced : {old new : Registry Json} → Change env old new → IsPlaced old → IsPlaced new
  Change-IsPlaced {old} {new} (created draft drawn files calls) placed path d found =
      let key : String × String = (draft.schema_id, draft.draft_id) in
      let seen : (if path_eq.beq key path then some draft else get path old.files) ≡ some d =
        sym (get-put key path draft old.files) ∙ subst (λ f. get path f ≡ some d) files found in
      elim (Bool-cases (path_eq.beq key path)) [
        | inl hit ↦
            let same : draft ≡ d = ground (arith, seen, hit) in
            (
              ground (arith, (path_eq.beq_iff key path).0 hit, same),
              old.calls,
              rw calls (omega arith),
              rw (← same) drawn,
            )
        | inr miss ↦
            let (there, n, before, drawn_before) = placed path d (ground (arith, seen, miss)) in
            (there, n, rw calls (omega (arith, before)), drawn_before)
      ]
  Change-IsPlaced {old} {new} (edited spot before after there why s i files calls) placed path d
        found =
      let key : String × String = (after.schema_id, after.draft_id) in
      let seen : (if path_eq.beq key path then some after else get path old.files) ≡ some d =
        sym (get-put key path after old.files) ∙ subst (λ f. get path f ≡ some d) files found in
      elim (Bool-cases (path_eq.beq key path)) [
        | inl hit ↦
            let same : after ≡ d = ground (arith, seen, hit) in
            let (_, n, earlier, drawn) = placed spot before there in
            (
              ground (arith, (path_eq.beq_iff key path).0 hit, same),
              n,
              rw calls (omega (arith, earlier)),
              rw (← same) (i ∙ drawn),
            )
        | inr miss ↦
            let (at, n, earlier, drawn) = placed path d (ground (arith, seen, miss)) in
            (at, n, rw calls (omega (arith, earlier)), drawn)
      ]

  -- only a draft is given another configuration
  published_again :
      (before after : Draft Json) {draft : Draft Json}
      → (before.status ≡ "draft") ⊎ ((after.config ≡ before.config) × (after.status ≡ "published"))
      → before ≡ draft
      → draft.status ≡ "published"
      → (after.config ≡ draft.config) × (after.status ≡ "published")
  published_again before after (inl free) same final =
      absurd (ground (arith, same, eq_iff "draft" "published"))
  published_again before after (inr (config, status)) same final =
      (config ∙ ap (λ (d : Draft Json). d.config) same, status)

  -- A call leaves a published draft published, with its configuration.
  Change-published :
      ((m n : ℕ) → env.ulid m ≡ env.ulid n → m ≡ n)
      → {old new : Registry Json} (path : String × String) {draft : Draft Json} → Change env old new
      → IsPlaced old
      → get path old.files ≡ some draft
      → draft.status ≡ "published"
      → (later : Draft Json) × (get path new.files ≡ some later)
        × (later.config ≡ draft.config)
        × (later.status ≡ "published")
  Change-published one {old} {new} path {draft} (created fresh drawn files calls) placed found
        final =
      let key : String × String = (fresh.schema_id, fresh.draft_id) in
      elim (Bool-cases (path_eq.beq key path)) [
        | inl hit ↦
            let (there, n, earlier, drawn_before) = placed path draft found in
            let here = (path_eq.beq_iff key path).0 hit in
            let same_id : env.ulid n ≡ env.ulid old.calls =
              ground (arith, here, there, drawn, drawn_before) in
            absurd (omega (arith, one n old.calls same_id, earlier))
        | inr miss ↦ (
          draft,
          ground (arith, files, get-put key path fresh old.files, miss, found),
          refl,
          final,
        )
      ]
  Change-published one {old} {new} path {draft} (edited spot before after there why s i files calls)
        placed found final =
      let key : String × String = (after.schema_id, after.draft_id) in
      elim (Bool-cases (path_eq.beq key path)) [
        | inl hit ↦
            let here = (path_eq.beq_iff key path).0 hit in
            let (at, _, _, _) = placed spot before there in
            let same : spot ≡ path = at ∙ (rw (← s, ← i) refl) ∙ here in
            let known : before ≡ draft = ground (arith, there, found, same) in
            (
              after,
              ground (arith, files, get-put key path after old.files, hit),
              (published_again before after why known final).0,
              (published_again before after why known final).1,
            )
        | inr miss ↦ (
          draft,
          ground (arith, files, get-put key path after old.files, miss, found),
          refl,
          final,
        )
      ]

  perform-published :
      ((m n : ℕ) → env.ulid m ≡ env.ulid n → m ≡ n)
      → (calls : List (Call Json)) (registry : Registry Json) (path : String × String)
        {draft : Draft Json}
      → IsPlaced registry
      → get path registry.files ≡ some draft
      → draft.status ≡ "published"
      → (later : Draft Json) × (get path (perform env calls registry).files ≡ some later)
        × (later.config ≡ draft.config)
        × (later.status ≡ "published")
  unfolding perform
  perform-published one [] registry path {draft} placed found final = (draft, found, refl, final)
  perform-published one (call ∷ calls) registry path {draft} placed found final =
      elim (Result-cases (run env call registry)) [
        | inl (error, failed) ↦
            rw (perform, failed) (perform-published one calls registry path placed found final)
        | inr (new, done) ↦
            let c = run-Change env call registry done in
            let (later, there, config, status) = Change-published one path c placed found final in
            let (last, there2, config2, status2) =
              perform-published one calls new.0 path (Change-IsPlaced c placed) there status in
            rw (perform, done) (last, there2, config2 ∙ config, status2)
      ]

  perform-IsPlaced :
      (calls : List (Call Json)) (registry : Registry Json)
      → IsPlaced registry
      → IsPlaced (perform env calls registry)
  unfolding perform
  perform-IsPlaced [] registry placed = placed
  perform-IsPlaced (call ∷ calls) registry placed = elim (Result-cases (run env call registry)) [
    | inl (error, failed) ↦ rw (perform, failed) (perform-IsPlaced calls registry placed)
    | inr (new, done) ↦
        rw (perform, done)
          (perform-IsPlaced calls new.0
            (Change-IsPlaced (run-Change env call registry done) placed))
  ]

  abbrev pub empty_registry : Registry Json
  empty_registry = record { files = []; calls = 0 }

  -- If no identifier is given twice, a draft that a registry has marked as published stays published,
  -- with the configuration that it had, whatever is called afterwards.
  pub mark_published_lem :
      ((m n : ℕ) → env.ulid m ≡ env.ulid n → m ≡ n)
      → (before : List (Call Json)) (schema id : String) (after : List (Call Json))
        {draft : Draft Json} {new : Registry Json × Draft Json}
      → get_draft env schema id (perform env before empty_registry) ≡ ok draft
      → mark_published env schema id (perform env before empty_registry) ≡ ok new
      → (later : Draft Json) × (get_draft env schema id (perform env after new.0) ≡ ok later)
        × (later.config ≡ draft.config)
        × (later.status ≡ "published")
  unfolding mark_published get_draft path_of safe_segment run
  mark_published_lem one before schema id after {draft} {new} found marked =
      let start = perform env before empty_registry in
      let placed = perform-IsPlaced before empty_registry (λ path d h. absurd (ground arith)) in
      let there = get_draft-ok env schema id start found in
      let (at, _, _, _) = placed (schema, id) draft there in
      let (again, found2, rest) = >>=-eq-ok (get_draft env schema id start) _ marked in
      let same : again ≡ draft = ground (arith, found, found2) in
      let (dated, files, _) =
        write_again-ok env (record again { status = "published" }) start rest in
      let key : String × String = (schema, id) in
      let there2 : get key new.0.files ≡ some new.1 =
        ground (arith, files, at, same, dated, get-put key key new.1 start.files, beq_refl key) in
      let (later, there3, config, status) =
        perform-published one after new.0 (schema, id)
          (Change-IsPlaced (run-Change env (mark schema id) start marked) placed) there2
          (ground (arith, dated)) in
      (later, ground (arith, found, there3), config ∙ ground (arith, dated, same), status)
