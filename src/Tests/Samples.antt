-- ===== src/Tests/Samples.antt =====
-- A small stand-in for Python's objects and for the fuzzy matcher.
use excel_youhua.Prelude.{ℕ, ◌+◌, String, true, false, none, List, [], ◌∷◌, length}
use excel_youhua.Python.{Python, Value, null}
use excel_youhua.Product.Models.{Fuzzy, FieldType}
use excel_youhua.Engine.Models.{
  ColumnRule, SheetRule, SheetSnapshot, SheetActions, CompareMode, FormulaMode, RenderAction,
  MissingRecord, PrimaryKeyMode, EmptyKeyAction,
}
use excel_youhua.Engine.Normalization.{Normalization}
use excel_youhua.Engine.Rows.{Platform}
use excel_youhua.Engine.Headers.{FuzzyOne}

-- The other objects are numbers, all text is ASCII and in lower case.
abbrev pub plain : Python
plain = record { Obj = ℕ; str = λ n. "number"; int = λ n. n; nfkc = λ s. s; casefold = λ s. s }

-- Scores 95 for the first choice.
abbrev pub suggest_first : List String → List (String × ℕ)
suggest_first [] = []
suggest_first (c ∷ cs) = (c, 95) ∷ []

abbrev pub matcher : Fuzzy
matcher = record { full = 100; extract = λ query choices cutoff limit. suggest_first choices }

-- A column with no rules beyond its names.
abbrev pub column : String → String → List String → ColumnRule ℕ
column name title aliases = record {
  name = name;
  title = title;
  aliases = aliases;
  required = true;
  type = FieldType.string;
  compare_mode = CompareMode.exact;
  timezone = none;
  formula_mode = FormulaMode.reject;
  nullable = true;
  unique = false;
  min_length = none;
  max_length = none;
  regex = none;
  min = none;
  max = none;
  format = none;
  normalize_display_format = false;
  formula_template = none;
  separator = ",";
  missing_column_action = none;
  fill_static_default = false;
  static_default = null;
  sensitive = false;
}

abbrev pub actions : SheetActions
actions = record {
  extra_header = RenderAction.mark_yellow;
  missing_required_header = RenderAction.report_only;
  missing_optional_header = RenderAction.report_only;
  extra_record = RenderAction.mark_yellow;
  mismatched_value = RenderAction.mark_red;
  invalid_value = RenderAction.mark_orange;
  duplicate_key = RenderAction.mark_purple;
  rename_confirmed_alias = false;
  fill_empty_from_standard = true;
  overwrite_mismatch = false;
  missing_record = MissingRecord.report_only;
}

-- A sheet with its header in the first row and the key field `id`.
abbrev pub sheet : SheetRule ℕ
sheet = record {
  id = "s";
  name = "Sheet";
  header_row = 1;
  auto_detect = true;
  fuzzy_suggestion_threshold = 80;
  start_row = none;
  include_hidden_rows = false;
  primary_key = "id" ∷ [];
  primary_key_mode = PrimaryKeyMode.fields;
  row_number_field = "row";
  empty_primary_key_action = EmptyKeyAction.report_invalid;
  columns = column "id" "Identifier" [] ∷ column "size" "Size" ("width" ∷ []) ∷ [];
  cross_field_rules = [];
  actions = actions;
}

-- Texts are parsed to themselves.
abbrev pub as_is : Normalization ℕ
as_is = record {
  parse_value = λ v c. record { raw = v; normalized = v; valid = true };
  parse_excel_value = λ v c. record { raw = v; normalized = v; valid = true };
  parse_row_number = λ v. none;
  values_equal = λ a b c. true;
  excel_datetime_write_safe = λ v z. true;
  excel_numeric_write_safe = λ v. true;
  isoformat = λ v. "";
  elements = λ v. [];
  fullmatch = λ p t. true;
  decimal_below = λ t b. false;
  decimal_above = λ t b. false;
  before = λ a b. false;
  uniqueness_key = λ p c. p.normalized;
}

abbrev pub platform : Platform ℕ
platform = record { ulid = λ n. "diff"; key_str = λ k. "key"; stable_key = λ k. "key" }

abbrev numbered : ℕ → List (List (Value ℕ)) → List (ℕ × List (Value ℕ))
numbered n [] = []
numbered n (r ∷ rs) = (n, r) ∷ numbered (n + 1) rs

-- The rows, numbered from the second, below a header row.
abbrev pub snapshot : List (Value ℕ) → List (List (Value ℕ)) → SheetSnapshot ℕ
snapshot header rows = record {
  max_row = 1 + length rows;
  rows = (1, header) ∷ numbered 2 rows;
  hidden_rows = [];
  cached_value = λ c. null;
  format_mismatch = λ c. none;
}

abbrev pub no_fuzzy : FuzzyOne
no_fuzzy = record { full = 100; extract_one = λ query choices cutoff. none }
