-- ===== src/Rules/Drafts/Confirmed.antt =====
-- What `confirm_mapping` changes in a draft.
use excel_youhua.Rules.Drafts.{is_candidate, is_field, SheetConfig, ColumnConfig, Environment}
use excel_youhua.Rules.Segments.{path_eq}
use excel_youhua.Prelude.{string_eq, none, map, List, String, Option, if◌then◌else◌}

module _ {Json : Type 0} (env : Environment Json) (sheet_id : Option String) (field : String) where
  -- a column, and the sheets, without the aliases of the columns that have the name
  abbrev pub forget_column : ColumnConfig Json → ColumnConfig Json
  forget_column column =
      if is_field env field column then record column { aliases = none } else column

  abbrev pub forget_sheet : SheetConfig Json → SheetConfig Json
  forget_sheet sheet =
      if is_candidate env sheet_id sheet
      then record sheet { columns = map forget_column sheet.columns }
      else sheet
