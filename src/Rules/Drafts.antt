-- ===== src/Rules/Drafts.antt =====
-- `DraftRegistry` of rules.py. A draft's configuration is JSON: what `confirm_mapping` reads of it is
-- typed here, the rest is kept as it is.
pub mod Calls
pub mod Published
pub mod Confirmed
use excel_youhua.Rules.Segments.{after_prefix, path_eq}
use excel_youhua.Prelude.Equality.{option_beq}
use excel_youhua.Prelude.Results.{err, ok, require, ◌>>=◌, ◌>>◌, Result}
use excel_youhua.Dict.{get, put, Dict}
use excel_youhua.Prelude.{
  false, length, nat_beq, ◌++◌, [], keep, none, ◌==◌, string_eq, add, if◌then◌else◌, true, ◌+◌,
  some, ◌∷◌, Bool, List, ℕ, String, Option,
}
use excel_youhua.Rules.Segments.{
  unresolved, mismatch, not_found, immutable, invalid, unsafe, safe_segment, Error,
}

pub record ColumnConfig (Json : Type 0) : Type 0 where
  pub name : Option String
  pub aliases : Option (List String)
  pub others : Json

pub record SheetConfig (Json : Type 0) : Type 0 where
  pub id : Option String
  pub columns : List (ColumnConfig Json)
  pub others : Json

pub record Config (Json : Type 0) : Type 0 where
  pub schema_id : Option String
  pub sheets : List (SheetConfig Json)
  pub others : Json

pub record Draft (Json : Type 0) : Type 0 where
  pub draft_id : String
  pub schema_id : String
  pub base_version : Option String
  pub status : String
  pub config : Config Json
  pub created_at : String
  pub updated_at : String

-- The directory of the registry: its files, by directory and draft, and how often `new_ulid` and the
-- clock have been called.
pub record Registry (Json : Type 0) : Type 0 where
  pub files : Dict (String × String) (Draft Json)
  pub calls : ℕ

-- What the registry calls: the n-th new identifier, which starts with `draft_`, the test of
-- `str.isalnum`, the clock, and whether pydantic accepts a configuration.
pub record Environment (Json : Type 0) : Type 0 where
  pub ulid : ℕ → String
  pub now : ℕ → String
  pub isalnum : String → Bool
  pub validates : Config Json → Bool

module _ {Json : Type 0} (env : Environment Json) where
  -- `draft_id.startswith("draft_") and draft_id[6:].isalnum()`
  abbrev pub is_draft_id : String → Bool
  is_draft_id draft_id = elim (after_prefix "draft_" draft_id) [
    | none ↦ false
    | some rest ↦ env.isalnum rest
  ]

  -- `_path`, as directory and draft
  unfoldable pub path_of : String → String → Result Error (String × String)
  unfolding safe_segment
  path_of schema_id draft_id = do
    require (is_draft_id draft_id) unsafe
    directory ← safe_segment schema_id
    ok (directory, draft_id)

  unfoldable pub write : Draft Json → Registry Json → Result Error (Registry Json)
  unfolding path_of put
  write draft registry = do
    path ← path_of draft.schema_id draft.draft_id
    ok (record registry { files = put path draft registry.files })

  -- the draft that `create` writes, at the given number of calls
  abbrev pub new_draft : String → Config Json → Option String → ℕ → Draft Json
  new_draft schema_id config base_version calls = record {
    draft_id = env.ulid calls;
    schema_id = schema_id;
    base_version = base_version;
    status = "draft";
    config = config;
    created_at = env.now (calls + 1);
    updated_at = env.now (calls + 1);
  }

  unfoldable pub create :
      String
      → Config Json
      → Option String
      → Registry Json
      → Result Error (Registry Json × Draft Json)
  unfolding write
  create schema_id config base_version registry = do
    _ ← safe_segment schema_id
    let draft = new_draft schema_id config base_version registry.calls
    written ← write draft (record registry { calls = registry.calls + 2 })
    ok (written, draft)

  unfoldable pub get_draft : String → String → Registry Json → Result Error (Draft Json)
  unfolding path_of get
  get_draft schema_id draft_id registry = do
    path ← path_of schema_id draft_id
    elim (get path registry.files) [ none ↦ err not_found | some draft ↦ ok draft ]

  -- `record["updated_at"] = now`, and the file is written again
  unfoldable pub write_again :
      Draft Json → Registry Json → Result Error (Registry Json × Draft Json)
  unfolding write
  write_again draft registry = do
    let dated = record draft { updated_at = env.now registry.calls }
    written ← write dated (record registry { calls = registry.calls + 1 })
    ok (written, dated)

  unfoldable pub update :
      String → String → Config Json → Registry Json → Result Error (Registry Json × Draft Json)
  unfolding get_draft write_again
  update schema_id draft_id config registry = do
    draft ← get_draft schema_id draft_id registry
    require (draft.status == "draft") immutable
    require (option_beq config.schema_id (some schema_id)) mismatch
    write_again (record draft { config = config }) registry

  unfoldable pub validate : String → String → Registry Json → Result Error (Config Json)
  unfolding get_draft
  validate schema_id draft_id registry = do
    draft ← get_draft schema_id draft_id registry
    require (env.validates draft.config) invalid
    ok draft.config

  unfoldable pub mark_published :
      String → String → Registry Json → Result Error (Registry Json × Draft Json)
  unfolding get_draft write_again
  mark_published schema_id draft_id registry = do
    draft ← get_draft schema_id draft_id registry
    write_again (record draft { status = "published" }) registry

  -- `sheet_id is None or sheet.get("id") == sheet_id`
  abbrev pub is_candidate : Option String → SheetConfig Json → Bool
  is_candidate none sheet = true
  is_candidate (some sheet_id) sheet = option_beq sheet.id (some sheet_id)

  abbrev pub is_field : String → ColumnConfig Json → Bool
  is_field field column = option_beq column.name (some field)

  -- the columns of the candidate sheets that have the name
  abbrev pub matches : Option String → String → List (SheetConfig Json) → List (ColumnConfig Json)
  matches sheet_id field [] = []
  matches sheet_id field (sheet ∷ sheets) =
      let rest = matches sheet_id field sheets in
      if is_candidate sheet_id sheet then keep (is_field field) sheet.columns ++ rest else rest

  abbrev pub aliases_of : ColumnConfig Json → List String
  aliases_of column = elim column.aliases [ none ↦ [] | some aliases ↦ aliases ]

  -- `aliases = column.setdefault("aliases", [])`, and the header is appended if it is not among them
  abbrev pub add_alias : String → ColumnConfig Json → ColumnConfig Json
  add_alias header column = record column { aliases = some (add header (aliases_of column)) }

  abbrev pub add_to_columns : String → String → List (ColumnConfig Json) → List (ColumnConfig Json)
  add_to_columns field header [] = []
  add_to_columns field header (column ∷ columns) =
      (if is_field field column then add_alias header column else column)
      ∷ add_to_columns field header columns

  abbrev pub add_to_sheets :
      Option String → String → String → List (SheetConfig Json) → List (SheetConfig Json)
  add_to_sheets sheet_id field header [] = []
  add_to_sheets sheet_id field header (sheet ∷ sheets) =
      (if is_candidate sheet_id sheet
        then record sheet { columns = add_to_columns field header sheet.columns }
        else sheet)
      ∷ add_to_sheets sheet_id field header sheets

  -- the configuration with the header among the aliases
  abbrev pub with_alias : Option String → String → String → Config Json → Config Json
  with_alias sheet_id field header config = record config {
    sheets = add_to_sheets sheet_id field header config.sheets;
  }

  unfoldable pub confirm_mapping :
      String
      → String
      → String
      → String
      → Option String
      → Registry Json
      → Result Error (Registry Json × Draft Json)
  unfolding get_draft write_again
  confirm_mapping schema_id draft_id header field sheet_id registry = do
    draft ← get_draft schema_id draft_id registry
    require (draft.status == "draft") immutable
    require (nat_beq (length (matches sheet_id field draft.config.sheets)) 1) unresolved
    let config = with_alias sheet_id field header draft.config
    require (env.validates config) invalid
    write_again (record draft { config = config }) registry
