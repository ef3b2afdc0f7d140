-- ===== src/Rules/Registry.antt =====
-- `RuleRegistry` of rules.py. Its directory is a dictionary from the name of a schema's directory and
-- the version, which names the file, to the document in the file.
pub mod Immutable
use excel_youhua.Persistence.Schemas.{RuleVersion}
use excel_youhua.Product.Models.{str_le}
use excel_youhua.Prelude.Sorting.{sorted}
use Prim.Native.String.{String}
use excel_youhua.Prelude.{string_eq, ◌==◌, some, if◌then◌else◌, [], ◌∷◌, none, Bool, List, String}
use excel_youhua.Prelude.Results.{err, ok, ◌>>=◌, Result}
use excel_youhua.Dict.{put, get, Dict}
use excel_youhua.Rules.Segments.{Error, safe_segment, path_eq, invalid, exists, not_found}
use excel_youhua.Persistence.Session.{exists, not_found, invalid, Platform, content_sha256}
use Prim.Native.String

-- the directory of the registry
abbrev pub Files : Platform → Type 0
Files p = Dict (String × String) p.Json

module _ (p : Platform) where
  open p use {Json, RuleSet}

  -- `RuleSet.model_validate(load_json_strict(…))`
  abbrev pub read_rules : Json → Result Error RuleSet
  read_rules document = elim (p.model_validate document) [
    | none ↦ err invalid
    | some rules ↦ ok rules
  ]

  unfoldable pub write_version : RuleSet → String × String → Files p → Result Error (Files p)
  write_version rules path files = elim (get path files) [
    | none ↦ ok (put path (p.model_dump rules) files)
    | some document ↦ do
      existing ← read_rules document
      if content_sha256 p existing == content_sha256 p rules then ok files else err exists
  ]

  unfoldable pub publish : RuleSet → Files p → Result Error (Files p)
  unfolding safe_segment write_version
  publish rules files = do
    directory ← safe_segment (p.schema_id rules)
    version ← safe_segment (p.schema_version rules)
    write_version rules (directory, version) files

  unfoldable pub get_version : String → String → Files p → Result Error RuleSet
  unfolding safe_segment
  get_version schema_id version files = do
    directory ← safe_segment schema_id
    name ← safe_segment version
    elim (get (directory, name) files) [
      | none ↦ err not_found
      | some document ↦ read_rules document
    ]

  -- the names of the files of a directory with their documents
  abbrev pub glob : String → Files p → List (String × Json)
  glob directory [] = []
  glob directory (((d, name), document) ∷ files) =
      let rest = glob directory files in if d == directory then (name, document) ∷ rest else rest

  -- `sorted(directory.glob("*.json"))`
  abbrev pub path_le : String × Json → String × Json → Bool
  path_le a b = str_le (String.◌++◌ a.0 ".json") (String.◌++◌ b.0 ".json")

  unfoldable pub list_versions : List (String × Json) → Result Error (List RuleVersion)
  list_versions [] = ok []
  list_versions ((name, document) ∷ files) = do
    rules ← read_rules document
    rest ← list_versions files
    ok (
        record {
          schema_id = p.schema_id rules;
          version = p.schema_version rules;
          config_sha256 = content_sha256 p rules;
          status = "published";
        }
        ∷ rest)

  unfoldable pub versions : String → Files p → Result Error (List RuleVersion)
  unfolding safe_segment list_versions sorted
  versions schema_id files = do
    directory ← safe_segment schema_id
    list_versions (sorted path_le (glob directory files))
