-- ===== src/Rules/Drafts/Calls.antt =====
-- The calls of a registry of drafts, and what they write.
use excel_youhua.Prelude.Equality.{option_beq}
use excel_youhua.Rules.Drafts
use excel_youhua.Dict.{get, put}
use excel_youhua.Prelude.Results.{require, >>=-eq-ok, err, ok, Result}
use excel_youhua.Rules.Drafts.{
  new_draft, with_alias, invalid, unresolved, matches, mismatch, immutable, confirm_mapping,
  mark_published, safe_segment, Error, path_of, Draft, Result, get_draft, write_again, write,
  Registry, Config, Environment,
}
use excel_youhua.Rules.Segments.{safe_segment, Error, path_eq}
use excel_youhua.Prelude.{
  string_eq, length, nat_beq, inr, eq_iff, inl, ◌==◌, ◌⊎◌, some, ◌+◌, [], ◌∷◌, Option, List, String,
  ◌≡◌, refl, arith,
}

-- A call of a method that writes.
pub data Call (Json : Type 0) : Type 0 where
  create : String → Config Json → Option String → Call Json
  update : String → String → Config Json → Call Json
  mark : String → String → Call Json
  confirm : String → String → String → String → Option String → Call Json

module _ {Json : Type 0} (env : Environment Json) where
  unfoldable pub run : Call Json → Registry Json → Result Error (Registry Json × Draft Json)
  run (create schema config base) registry = Drafts.create env schema config base registry
  run (update schema draft config) registry = Drafts.update env schema draft config registry
  run (mark schema draft) registry = mark_published env schema draft registry
  run (confirm schema draft header field sheet) registry =
      confirm_mapping env schema draft header field sheet registry

  abbrev pub written : Registry Json → Result Error (Registry Json × Draft Json) → Registry Json
  written old (ok pair) = pair.0
  written old (err error) = old

  -- The calls one after the other; a call that raises has written nothing.
  unfoldable pub perform : List (Call Json) → Registry Json → Registry Json
  unfolding run
  perform [] registry = registry
  perform (call ∷ calls) registry = perform calls (written registry (run call registry))

  -- What a call has written.
  pub data Change (old new : Registry Json) : Type 0 where
    created :
        (draft : Draft Json)
        → draft.draft_id ≡ env.ulid old.calls
        → new.files ≡ put (draft.schema_id, draft.draft_id) draft old.files
        → new.calls ≡ old.calls + 2
        → Change old new
    edited :
        (path : String × String) (before after : Draft Json)
        → get path old.files ≡ some before
        → (before.status ≡ "draft")
          ⊎ ((after.config ≡ before.config) × (after.status ≡ "published"))
        → after.schema_id ≡ before.schema_id
        → after.draft_id ≡ before.draft_id
        → new.files ≡ put (after.schema_id, after.draft_id) after old.files
        → new.calls ≡ old.calls + 1
        → Change old new

  write-ok :
      (draft : Draft Json) (registry : Registry Json) {new : Registry Json}
      → write env draft registry ≡ ok new
      → new ≡ record registry { files = put (draft.schema_id, draft.draft_id) draft registry.files }
  unfolding write path_of safe_segment
  write-ok draft registry h = ground arith

  pub write_again-ok :
      (draft : Draft Json) (registry : Registry Json) {new : Registry Json × Draft Json}
      → write_again env draft registry ≡ ok new
      → (new.1 ≡ record draft { updated_at = env.now registry.calls })
        × (new.0.files ≡ put (draft.schema_id, draft.draft_id) new.1 registry.files)
        × (new.0.calls ≡ registry.calls + 1)
  unfolding write_again write path_of safe_segment
  write_again-ok draft registry h = (ground arith, ground arith, ground arith)

  pub get_draft-ok :
      (schema id : String) (registry : Registry Json) {draft : Draft Json}
      → get_draft env schema id registry ≡ ok draft
      → get (schema, id) registry.files ≡ some draft
  unfolding get_draft path_of safe_segment
  get_draft-ok schema id registry h = ground arith

  -- the files and the counter that a draft is written to again
  rewritten :
      (schema id : String) (registry : Registry Json) (before after : Draft Json)
      {new : Registry Json × Draft Json}
      → get_draft env schema id registry ≡ ok before
      → (before.status ≡ "draft") ⊎ ((after.config ≡ before.config) × (after.status ≡ "published"))
      → after.schema_id ≡ before.schema_id
      → after.draft_id ≡ before.draft_id
      → write_again env after registry ≡ ok new
      → Change registry new.0
  rewritten schema id registry before after {new} found why s d h =
      let (dated, files, calls) = write_again-ok after registry h in
      edited (schema, id) before new.1 (get_draft-ok schema id registry found)
        (ground (arith, why, dated)) (ground (arith, dated, s)) (ground (arith, dated, d))
        (ground (arith, dated, files)) calls

  pub run-Change :
      (call : Call Json) (registry : Registry Json) {new : Registry Json × Draft Json}
      → run call registry ≡ ok new
      → Change registry new.0
  unfolding run Drafts.create Drafts.update mark_published confirm_mapping
  run-Change (create schema config base) registry {new} h =
      let (_, _, rest) = >>=-eq-ok (safe_segment schema) _ h in
      let (next, h2, h3) =
        >>=-eq-ok
          (write env (new_draft env schema config base registry.calls)
            (record registry { calls = registry.calls + 2 }))
          _ rest in
      let same =
        write-ok (new_draft env schema config base registry.calls)
          (record registry { calls = registry.calls + 2 }) h2 in
      created (new_draft env schema config base registry.calls) refl (ground (arith, h3, same))
        (ground (arith, h3, same))
  run-Change (update schema id config) registry h =
      let (draft, found, rest) = >>=-eq-ok (get_draft env schema id registry) _ h in
      let (_, free, rest2) = >>=-eq-ok (require (draft.status == "draft") immutable) _ rest in
      let (_, _, rest3) =
        >>=-eq-ok (require (option_beq config.schema_id (some schema)) mismatch) _ rest2 in
      rewritten schema id registry draft (record draft { config = config }) found
        (inl (ground (arith, free, eq_iff draft.status "draft"))) refl refl rest3
  run-Change (mark schema id) registry h =
      let (draft, found, rest) = >>=-eq-ok (get_draft env schema id registry) _ h in
      rewritten schema id registry draft (record draft { status = "published" }) found
        (inr (refl, refl)) refl refl rest
  run-Change (confirm schema id header field sheet) registry h =
      let (draft, found, rest) = >>=-eq-ok (get_draft env schema id registry) _ h in
      let (_, free, rest2) = >>=-eq-ok (require (draft.status == "draft") immutable) _ rest in
      let (_, _, rest3) =
        >>=-eq-ok
          (require (nat_beq (length (matches env sheet field draft.config.sheets)) 1) unresolved) _
          rest2 in
      let (_, _, rest4) =
        >>=-eq-ok (require (env.validates (with_alias env sheet field header draft.config)) invalid)
          _ rest3 in
      rewritten schema id registry draft
        (record draft { config = with_alias env sheet field header draft.config }) found
        (inl (ground (arith, free, eq_iff draft.status "draft"))) refl refl rest4
