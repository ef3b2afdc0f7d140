-- ===== src/Persistence/Differences.antt =====
-- The index of differences in persistence.py: `save_differences` and `mark_repair_results`.
use excel_youhua.Prelude.Results.{◌>>◌, ◌>>=◌, ok, Result}
use excel_youhua.Dict.{get, Dict}
use excel_youhua.Persistence.Rows.{DifferenceIndexRow}
use excel_youhua.Persistence.Session.{refers, Error, update_where, Db, add_row, Platform}
use excel_youhua.Prelude.{
  ◌+◌, any, ◌||◌, length, leb, [], ◌++◌, false, ◌&&◌, string_eq, ◌∷◌, ◌==◌, none, some, true, Bool,
  Option, ℕ, List, String,
}

-- What `save_differences` reads of a difference; the key is the JSON text of the business key.
pub record DifferenceEntry : Type 0 where
  pub difference_id : String
  pub type : String
  pub severity : String
  pub sheet_id : String
  pub cell : Option String
  pub canonical_field : Option String
  pub business_key : Option String
  pub message : String
  pub render_action : String
  pub repair_status : String

abbrev pub is_empty : List DifferenceEntry → Bool
is_empty [] = true
is_empty (_ ∷ _) = false

-- how many differences are inserted at once
abbrev pub batch_size : ℕ
batch_size = 1000

module _ (p : Platform) where
  open p use {Json, Time}

  abbrev pub hashed : Option String → Option String
  hashed none = none
  hashed (some key) = some (p.sha256 (p.text key))

  abbrev pub difference_row : String → Time → DifferenceEntry → DifferenceIndexRow Time
  difference_row job_id now item = record {
    id = item.difference_id;
    job_id = job_id;
    type = item.type;
    severity = item.severity;
    sheet_id = item.sheet_id;
    cell_ref = item.cell;
    canonical_field = item.canonical_field;
    business_key_hash = hashed item.business_key;
    message_safe = item.message;
    render_action = item.render_action;
    repair_status = item.repair_status;
    created_at = now;
  }

  -- `session.execute(insert(DifferenceIndexRow), batch)`
  unfoldable pub insert_batch :
      List (DifferenceIndexRow Time)
      → List (DifferenceIndexRow Time)
      → Result Error (List (DifferenceIndexRow Time))
  unfolding add_row
  insert_batch [] rows = ok rows
  insert_batch (row ∷ batch) rows = do
    added ←
        add_row (λ (d : DifferenceIndexRow Time). d.id == row.id && d.job_id == row.job_id) row rows
    insert_batch batch added

  -- The loop: a batch that is full is inserted, and so is what is left at the end.
  unfoldable pub difference_loop :
      String
      → Time
      → List DifferenceEntry
      → List (DifferenceIndexRow Time)
      → List (DifferenceIndexRow Time)
      → Result Error (List (DifferenceIndexRow Time))
  unfolding insert_batch
  difference_loop job_id now [] batch rows = insert_batch batch rows
  difference_loop job_id now (item ∷ items) batch rows =
      let filled = batch ++ difference_row job_id now item ∷ [] in
      elim (leb batch_size (length filled)) [
        | true ↦ do added ← insert_batch filled rows; difference_loop job_id now items [] added
        | false ↦ difference_loop job_id now items filled rows
      ]

  unfoldable pub save_differences : String → List DifferenceEntry → Db p → Result Error (Db p)
  unfolding difference_loop
  save_differences job_id items db = do
    refers p.foreign_keys (is_empty items || any (λ j. j.id == job_id) db.comparison_jobs)
    rows ← difference_loop job_id (p.now db.calls) items [] db.comparison_differences
    ok (record db { comparison_differences = rows; calls = db.calls + 1 })

  -- `row.repair_status = results[row.id]` for the planned rows of the job
  abbrev pub with_result : Dict String String → DifferenceIndexRow Time → DifferenceIndexRow Time
  with_result results row = elim (get row.id results) [
    | none ↦ row
    | some status ↦ record row { repair_status = status }
  ]

  unfoldable pub mark_repair_results : String → Dict String String → Db p → Db p
  unfolding get
  mark_repair_results job_id results db = record db {
    comparison_differences =
        update_where
          (λ (d : DifferenceIndexRow Time). d.job_id == job_id && d.repair_status == "planned")
          (with_result results) db.comparison_differences;
  }
