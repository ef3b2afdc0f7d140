-- ===== src/Lib.antt =====
-- The core of excel-auditor: a workbook's sheets are compared with standard data, and a merchant's
-- product sheet is mapped to a catalog.
--
-- The comparison (src/excel_auditor/engine.py) first maps the header cells of a sheet to the fields
-- of its rules (map_headers), then compares the records (_compare_records): the rows become records
-- with keys, duplicate keys leave the comparison, the keys of both sides are joined, and the loops
-- over the extra, the missing and the matched records append differences to one list and the repairs
-- that they plan to another. The product workflow (src/excel_auditor/product_workflow) maps the
-- headers of a product sheet to catalog fields and its rows to categories, plans the columns of the
-- sheet that it writes, and asks for reviews that are decided once. Rule sets are drafted and published
-- in versions (rules.py), and jobs, their findings, rule versions and reviews are kept in a database
-- (persistence.py). Long lists of differences are kept in sequences that move their items to a file.
--
-- Prelude, with a module each for tests on numbers, lists, equality, sorting and results; Dict:
--   Python's dict, in order of insertion, and its laws; Python: the values of cells. What the program
--   uses of Unicode tables and of `str` of other objects is a parameter (record Python).
-- Text: normalize_header of models.py and _key of the product workflow, over split and join of
--   words. Text/Space has the string functions, Text/Words their laws, Text/Decimal str(n).
-- Ids: new_ulid of ids.py, with the time and the random bits as arguments; Order and Length are proofs.
-- Product/Models: the data of product_workflow/models.py. Product/Mapping: map_product_headers of
--   product_workflow/mapping.py; Prepare is what precedes its loop and Step the loop, in Targets and
--   Options; Accepted, Owners and Exactness are proofs. Product/Category: resolve_categories of
--   product_workflow/category.py; Active and Justified are proofs. A score of rapidfuzz is a number of
--   units, and `full` the number for 100; the matcher itself is a parameter.
-- Engine/Models: the parts of the rules (models.py), of a sheet's snapshot (workbook.py) and of the
--   results that the functions below read and write. Cells are pairs of a column and a row where the
--   source writes a column letter. Message texts are left out. Engine/Log: the two lists, and
--   _difference, whose identifiers are those of an arbitrary new_ulid. Engine/Normalization: what the
--   engine calls of normalization.py, as an interface of arbitrary functions.
-- Engine/Locate: locate_header_row of workbook.py. Engine/Headers: map_headers.
-- Engine/Keys: _key, _business_key, _safe_value, _safe_record, _should_insert_missing; a key is a list
--   of parts. Engine/Writes: _excel_write_safe, _excel_write_value.
--   Engine/Blocked: the differences for repairs that must not be written, and formula templates.
-- Engine/Index, Rows, Standard: the loops over the rows and over the standard records, and the
--   removal of duplicates. Engine/Join: the in-memory join. Engine/Cells, Fields: the comparison of
--   one field of a matched record. Engine/Missing: the loop over the missing records. Engine/Records:
--   the loops over extra and matched records, and the composition from the join on (compare_sides).
-- Engine/Validation: _validate_excel_records with _validate, _append_display_format_repair and
--   _validate_cross_fields, and the two validators of validators.py. Engine/Compare: _compare_records.
-- Product/SchemaBuilder: build_dynamic_schema of product_workflow/schema_builder.py; its data and the
--   check that DynamicSchemaPlan makes of itself are in Product/SchemaPlan, and the validators of
--   CatalogFieldDefinition, ReviewItem and PlannedField in Product/FieldContract; the fixed fields, the
--   reviews and the core fields are in Product/SchemaCore. Free has the loop for a free identifier,
--   Apart lists of identifiers, Columns ordinals and columns, Core and Loops how the other loops end,
--   and Contract the plan and the errors.
-- Product/Reviews: the reviews of product_workflow/service.py without a database. Decide is
--   decide_review, Rerun what rerun_after_reviews takes over from the decisions, and Revise the
--   revisions and reviews that a run writes; Frozen and Numbered are proofs.
-- Rules: rules.py, with a file system that maps paths to texts. Segments checks the parts of a path,
--   Registry is RuleRegistry (publish, get), and Drafts the drafts and confirm_mapping; Drafts/Calls
--   has sequences of their calls.
-- SourcePaths: validate_managed_http_path of source_paths.py, which decodes a path up to four times;
--   unquote and urlsplit are arguments. Safe has the proofs.
-- Persistence: DatabaseRepository of persistence.py. Rows has the rows of the tables, Session the
--   database: a record of lists of rows, calls that return a result and roll back on an error, the
--   keys and constraints that an insertion checks, and, if the platform enforces them, foreign keys.
--   Schemas, Jobs, Differences, Snapshots, Catalogs, Products and Reviews have the methods, and
--   History sequences of calls from the empty database. What is written as JSON is read back by
--   functions of the record Platform. Inversion, Later, Growth, First and Items are
--   lemmas; Published, Decided, Revisions, Batches and References are proofs.
-- Spill: the classes of spill.py, with the bytes and the position of the temporary file. Of pickle it
--   is assumed that load reads back what dump wrote at the start of the bytes, and takes no more.
-- Tests: runs on small inputs.
--
-- The loops are structural recursions over the lists that the source iterates over and need no fuel,
-- but for the loop for a free identifier in schema_builder.py: it has two more than the names that are
-- taken, which is proved to be enough; the levels of decoding in source_paths.py are the four of the
-- source. Sets are lists without repetition, and where the source iterates over a set the order is that
-- of insertion. Numbers are natural numbers; rows and columns count from 1.
--
-- Not modelled: the parsing and comparison of values, the pydantic validators but for those named above,
-- _header_differences and compare_workbook, other registered validators, the Polars join and the SQLite
-- record map, the snapshots of a workbook's rows, HTTP, the SQL that the repository's methods send, the
-- job service and the statuses that jobs go through there, the normalizer of product cells, the clients
-- of catalogs and standard sources, reports, and the renderer in C#.
pub mod Prelude
pub mod Dict
pub mod Python
pub mod Text
pub mod Ids
pub mod Persistence
pub mod Product
pub mod SourcePaths
pub mod Rules
pub mod Engine
pub mod Spill
mod Tests
