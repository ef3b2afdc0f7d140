-- ===== src/Product/Mapping/Prepare.antt =====
-- What `map_product_headers` prepares from the catalog fields: the fields by id, the owners of
-- each header key, and the confirmed aliases (product_workflow/mapping.py).
use excel_youhua.Prelude.{
  String, Bool, true, List, [], ◌∷◌, ◌++◌, Option, none, some, length, add, ◌==◌, nat_eq, string_eq,
}
use excel_youhua.Prelude.Results.{Result, ok, ◌>>=◌, ◌>>◌, require}
use excel_youhua.Dict.{Dict, get, put, get_or, setdefault, has}
use excel_youhua.Python.{Python, text}
use excel_youhua.Text.{header_key}
use excel_youhua.Product.Models.{CatalogFieldDefinition}

-- The `ValueError`s.
pub data Error : Type 0 where
  duplicate_target unknown_alias_target ambiguous_alias : Error

pub record Targets : Type 0 where
  pub by_id : Dict String CatalogFieldDefinition
  pub token_owners : Dict String (List String)
  pub token_display : Dict String String
  pub confirmed : Dict String String

-- `[field.field_id, field.title, *field.aliases]`, and the attribute id if there is one
unfoldable pub field_values : CatalogFieldDefinition → List String
field_values f =
    f.field_id ∷ f.title ∷ (f.aliases ++ elim f.attribute_id [ none ↦ [] | some a ↦ a ∷ [] ])

-- `by_id = {field.field_id: field for field in fields}`
unfoldable pub index_fields :
    Dict String CatalogFieldDefinition
    → List CatalogFieldDefinition
    → Dict String CatalogFieldDefinition
index_fields d [] = d
index_fields d (f ∷ fs) = index_fields (put f.field_id f d) fs

module _ (py : Python) where
  abbrev pub key : String → String
  key s = header_key py (text s)

  -- `token_owners[_key(value)].add(field_id)` for the values of one field
  unfoldable pub add_owner :
      String → List String → Dict String (List String) → Dict String (List String)
  add_owner fid [] d = d
  add_owner fid (v ∷ vs) d = add_owner fid vs (put (key v) (add fid (get_or (key v) [] d)) d)

  unfoldable pub collect_owners :
      List CatalogFieldDefinition → Dict String (List String) → Dict String (List String)
  unfolding add_owner field_values
  collect_owners [] d = d
  collect_owners (f ∷ fs) d = collect_owners fs (add_owner f.field_id (field_values f) d)

  -- `token_display.setdefault(token, value)`
  unfoldable pub add_display : List String → Dict String String → Dict String String
  add_display [] d = d
  add_display (v ∷ vs) d = add_display vs (setdefault (key v) v d)

  unfoldable pub collect_display :
      List CatalogFieldDefinition → Dict String String → Dict String String
  unfolding add_display field_values
  collect_display [] d = d
  collect_display (f ∷ fs) d = collect_display fs (add_display (field_values f) d)

  -- the owner of a token that is confirmed twice must be one field
  abbrev pub same_owner : Option String → String → Bool
  same_owner none f = true
  same_owner (some o) f = o == f

  unfoldable pub confirm_aliases :
      Dict String CatalogFieldDefinition
      → Dict String String
      → Dict String String
      → Result Error (Dict String String)
  confirm_aliases by_id [] confirmed = ok confirmed
  confirm_aliases by_id ((alias, fid) ∷ rest) confirmed = do
    require (has fid by_id) unknown_alias_target
    require (same_owner (get (key alias) confirmed) fid) ambiguous_alias
    confirm_aliases by_id rest (put (key alias) fid confirmed)

  -- Everything before the loop over the headers.
  unfoldable pub targets : List CatalogFieldDefinition → Dict String String → Result Error Targets
  unfolding index_fields collect_owners collect_display confirm_aliases
  targets fields aliases = do
    let by_id = index_fields [] fields
    require (nat_eq.beq (length by_id) (length fields)) duplicate_target
    confirmed ← confirm_aliases by_id aliases []
    ok (record {
      by_id = by_id;
      token_owners = collect_owners fields [];
      token_display = collect_display fields [];
      confirmed = confirmed;
    })
