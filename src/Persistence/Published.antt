-- ===== src/Persistence/Published.antt =====
-- Published rule versions: what `get_rule` gives stays the same, whatever is called afterwards.
use excel_youhua.Persistence.First.{All-first, first-append_new, first-append}
use excel_youhua.Prelude.{refl}
use excel_youhua.Persistence.Inversion.{add_event-ok}
use excel_youhua.Prelude.{All-append, string_eq}
use excel_youhua.Prelude.Equality.{beq_refl}
use excel_youhua.Persistence.Rows.{SchemaVersionRow}
use excel_youhua.Persistence.Growth.{publish_rule-IsLater, perform-IsLater}
use excel_youhua.Persistence.Later.{IsFaithful}
use excel_youhua.Prelude.Results.{>>=-eq-ok, ok}
use excel_youhua.Persistence.History.{empty_db, perform, Call}
use excel_youhua.Persistence.Schemas.{
  version_row, add_version, save_schema, publish_rule, publish_new, of_version, get_rule,
}
use excel_youhua.Persistence.Session.{content_sha256, Db, first, Platform}
use excel_youhua.Prelude.{
  eq_iff, ◌+◌, Option, inr, Option-cases, inl, [], ◌∷◌, arith, ◌++◌, some, String, List, ◌≡◌,
}

module _ (p : Platform) where
  -- A rule set that `get_rule` gives is given again after any calls of the repository.
  pub get_rule-stable :
      (schema_id version tenant : String) (calls : List (Call p)) (db : Db p) {rules : p.RuleSet}
      → get_rule p schema_id version tenant db ≡ ok rules
      → get_rule p schema_id version tenant (perform p calls db) ≡ ok rules
  unfolding get_rule
  get_rule-stable schema_id version tenant calls db h =
      let later = perform-IsLater p calls db in
      elim (Option-cases (first (of_version p tenant schema_id version) db.schema_versions)) [
        | inl missing ↦ ground (arith, missing)
        | inr (row, found) ↦
            let still =
              first-append (of_version p tenant schema_id version) db.schema_versions
                later.versions.added found in
            ground (arith, found, still, later.versions.grown)
      ]

  publish_new-versions :
      (rules : p.RuleSet) (actor : Option String) (tenant : String) (db : Db p) {new : Db p}
      → publish_new p rules actor tenant db ≡ ok new
      → (row_id : String) × (new.schema_versions
          ≡ db.schema_versions ++ version_row p rules actor tenant (p.now db.calls) row_id ∷ [])
  unfolding publish_new save_schema add_version
  publish_new-versions rules actor tenant db h =
      let start = record db { calls = db.calls + 1 } in
      let (saved, h1, rest) = >>=-eq-ok (save_schema p rules tenant (p.now db.calls) start) _ h in
      let (added, h2, h3) =
        >>=-eq-ok (add_version p rules actor tenant (p.now db.calls) saved) _ rest in
      let (e, same) = add_event-ok p _ _ _ _ _ _ added h3 in
      (p.ulid "sv_" saved.calls, ground (arith, h1, h2, same))

  publish_rule-first :
      (rules : p.RuleSet) (actor : Option String) (tenant : String) (db : Db p) {new : Db p}
      → publish_rule p rules actor tenant db ≡ ok new
      → (row : SchemaVersionRow p.Json p.Time) × (first
            (of_version p tenant (p.schema_id rules) (p.schema_version rules))
            new.schema_versions
          ≡ some row)
        × (row.config_sha256 ≡ content_sha256 p rules)
  unfolding publish_rule
  publish_rule-first rules actor tenant db h =
      let test = of_version p tenant (p.schema_id rules) (p.schema_version rules) in
      elim (Option-cases (first test db.schema_versions)) [
        | inl none_yet ↦
            let (row_id, grown) =
              publish_new-versions rules actor tenant db (rw (none_yet, publish_rule) at h) in
            let row = version_row p rules actor tenant (p.now db.calls) row_id in
            let same : row.config_sha256 ≡ content_sha256 p rules = refl in
            (
              row,
              rw grown (
                  first-append_new test db.schema_versions row none_yet (
                    ground (
                      arith,
                      beq_refl tenant,
                      beq_refl (p.schema_id rules),
                      beq_refl (p.schema_version rules),
                    ))),
              same,
            )
        | inr (row, found) ↦ (
          row,
          ground (arith, found),
          ground (arith, found, eq_iff row.config_sha256 (content_sha256 p rules)),
        )
      ]

  -- If pydantic reads back every rule set that it has written, then a version that is published,
  -- now or before, is what `get_rule` gives from then on, after any calls: a rule set with the hash
  -- of the published one.
  pub publish_rule-get_rule :
      ((r : p.RuleSet) → p.model_validate (p.model_dump r) ≡ some r)
      → (before : List (Call p)) (rules : p.RuleSet) (actor : Option String) (tenant : String)
        (after : List (Call p)) {new : Db p}
      → publish_rule p rules actor tenant (perform p before (empty_db p)) ≡ ok new
      → (stored : p.RuleSet) × (get_rule p
            (p.schema_id rules)
            (p.schema_version rules)
            tenant
            (perform p after new)
          ≡ ok stored)
        × (content_sha256 p stored ≡ content_sha256 p rules)
  unfolding get_rule
  publish_rule-get_rule valid before rules actor tenant after {new} h =
      let (row, found, hash) =
        publish_rule-first rules actor tenant (perform p before (empty_db p)) h in
      let old = perform-IsLater p before (empty_db p) in
      let now = publish_rule-IsLater p rules actor tenant (perform p before (empty_db p)) h in
      let (stored, config, stored_hash) =
        All-first (of_version p tenant (p.schema_id rules) (p.schema_version rules)) (IsFaithful p)
          new.schema_versions found
          (rw (now.versions.grown, old.versions.grown)
            (All-append (IsFaithful p) old.versions.added now.versions.added old.faithful
              now.faithful)) in
      (
        stored,
        get_rule-stable (p.schema_id rules) (p.schema_version rules) tenant after new
            (ground (arith, found, config, valid stored)),
        cc (hash, stored_hash),
      )
