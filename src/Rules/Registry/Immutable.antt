-- ===== src/Rules/Registry/Immutable.antt =====
-- A version that `RuleRegistry` has published stays.
use excel_youhua.Prelude.Equality.{beq_refl}
use excel_youhua.Rules.Segments.{safe_segment, path_eq}
use excel_youhua.Dict.{get-put, get}
use excel_youhua.Prelude.Results.{Result-cases, >>=-eq-ok, ok-injective, err, ok}
use excel_youhua.Rules.Registry.{read_rules, get_version, publish, Files, write_version}
use excel_youhua.Persistence.Session.{content_sha256, Platform}
use excel_youhua.Prelude.{
  eq_iff, string_eq, inr, inl, Option-cases, [], some, ◌∷◌, String, List, ◌≡◌, refl, arith,
}

module _ (p : Platform) where
  -- Rule sets are published one after the other; a publication that raises leaves the directory.
  unfoldable pub publish_all : List p.RuleSet → Files p → Files p
  publish_all [] files = files
  publish_all (rules ∷ more) files = elim (publish p rules files) [
    | err error ↦ publish_all more files
    | ok new ↦ publish_all more new
  ]

  write_version-keeps :
      (rules : p.RuleSet) (path other : String × String) (files : Files p) {new : Files p}
      {document : p.Json}
      → write_version p rules path files ≡ ok new
      → get other files ≡ some document
      → get other new ≡ some document
  unfolding write_version
  write_version-keeps rules path other files {new} {document} h found =
      elim (Option-cases (get path files)) [
        | inl missing ↦
            let written = ok-injective (rw (missing, write_version) at h) in
            ground (
              arith,
              written,
              get-put path other (p.model_dump rules) files,
              path_eq.beq_iff path other,
              missing,
              found,
            )
        | inr (old, there) ↦
            let (existing, _, rest) =
              >>=-eq-ok (read_rules p old) _ (rw (there, write_version) at h) in
            ground (arith, rest, found)
      ]

  publish-keeps :
      (rules : p.RuleSet) (other : String × String) (files : Files p) {new : Files p}
      {document : p.Json}
      → publish p rules files ≡ ok new
      → get other files ≡ some document
      → get other new ≡ some document
  unfolding publish
  publish-keeps rules other files h found =
      let (directory, _, rest) = >>=-eq-ok (safe_segment (p.schema_id rules)) _ h in
      let (version, _, written) = >>=-eq-ok (safe_segment (p.schema_version rules)) _ rest in
      write_version-keeps rules (directory, version) other files written found

  publish_all-keeps :
      (more : List p.RuleSet) (other : String × String) (files : Files p) {document : p.Json}
      → get other files ≡ some document
      → get other (publish_all more files) ≡ some document
  unfolding publish_all
  publish_all-keeps [] other files found = found
  publish_all-keeps (rules ∷ more) other files found = elim (Result-cases (publish p rules files)) [
    | inl (error, failed) ↦ rw (publish_all, failed) (publish_all-keeps more other files found)
    | inr (new, done) ↦
        rw (publish_all, done)
          (publish_all-keeps more other new (publish-keeps rules other files done found))
  ]

  safe_segment-ok : (value : String) {kept : String} → safe_segment value ≡ ok kept → kept ≡ value
  unfolding safe_segment
  safe_segment-ok value h = ground arith

  -- what stands at the path of a version that has been written
  written_version :
      ((r : p.RuleSet) → p.model_validate (p.model_dump r) ≡ some r)
      → (rules : p.RuleSet) (path : String × String) (files : Files p) {new : Files p}
      → write_version p rules path files ≡ ok new
      → (document : p.Json) × (stored : p.RuleSet) × (get path new ≡ some document)
        × (p.model_validate document ≡ some stored)
        × (content_sha256 p stored ≡ content_sha256 p rules)
  unfolding write_version
  written_version valid rules path files {new} h = elim (Option-cases (get path files)) [
    | inl missing ↦
        let written = ok-injective (rw (missing, write_version) at h) in
        (
          p.model_dump rules,
          rules,
          ground (arith, written, get-put path path (p.model_dump rules) files, beq_refl path),
          valid rules,
          refl,
        )
    | inr (old, there) ↦
        let (existing, read, rest) =
          >>=-eq-ok (read_rules p old) _ (rw (there, write_version) at h) in
        (
          old,
          existing,
          ground (arith, rest, there),
          ground (arith, read),
          ground (arith, rest, eq_iff (content_sha256 p existing) (content_sha256 p rules)),
        )
  ]

  -- If pydantic reads back every rule set that it has written, then a version whose publication
  -- succeeds, be it new or there before, is what `get` gives from then on, whatever else is
  -- published: a rule set with the hash of the published one.
  pub publish-get_version :
      ((r : p.RuleSet) → p.model_validate (p.model_dump r) ≡ some r)
      → (rules : p.RuleSet) (files : Files p) (more : List p.RuleSet) {new : Files p}
      → publish p rules files ≡ ok new
      → (stored : p.RuleSet) × (get_version p
            (p.schema_id rules)
            (p.schema_version rules)
            (publish_all more new)
          ≡ ok stored)
        × (content_sha256 p stored ≡ content_sha256 p rules)
  unfolding publish get_version
  publish-get_version valid rules files more h =
      let (directory, d, rest) = >>=-eq-ok (safe_segment (p.schema_id rules)) _ h in
      let (version, v, written) = >>=-eq-ok (safe_segment (p.schema_version rules)) _ rest in
      let (document, stored, found, read, same) =
        written_version valid rules (directory, version) files written in
      let still = publish_all-keeps more (directory, version) _ found in
      (stored, ground (arith, d, v, still, read), same)
