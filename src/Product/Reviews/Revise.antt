-- ===== src/Product/Reviews/Revise.antt =====
-- The revisions that `run` of product_workflow/service.py writes when there is no database.
use excel_youhua.Prelude.{nat_eq}
use excel_youhua.Product.Reviews.Models.{ReviewItem}
use excel_youhua.Prelude.{
  add, string_eq, ◌∷◌, ◌+◌, ◌==◌, [], ◌++◌, if◌then◌else◌, none, Bool, some, ℕ, String, Option,
  List,
}
use excel_youhua.Product.Reviews.Decide.{Review, Revision, WorkflowState, Job}

-- what `run` reads of the result of the normalization
pub record Outcome : Type 0 where
  pub review_items : List ReviewItem
  pub requires_manual_review : Bool

-- the current revision of the file, if there is one
abbrev pub previous_number : Option WorkflowState → ℕ
previous_number none = 0
previous_number (some state) = state.current_revision.revision_number

abbrev pub previous_id : Option WorkflowState → Option String
previous_id none = none
previous_id (some state) = some state.current_revision.revision_id

abbrev pub history_of : Option WorkflowState → List Revision
history_of none = []
history_of (some state) = state.revision_history

-- `parent_revision_id or previous_revision.get("revision_id")`
abbrev pub parent_of : Option String → Option WorkflowState → Option String
parent_of none state = previous_id state
parent_of (some parent) state = if parent == "" then previous_id state else some parent

unfoldable pub new_revision : String → Outcome → Option String → Option WorkflowState → Revision
new_revision revision_id outcome parent state = record {
  revision_id = revision_id;
  revision_number = previous_number state + 1;
  parent_revision_id = parent_of parent state;
  status = if outcome.requires_manual_review then "manual_review" else "ready";
}

-- the n-th review gets the n-th new identifier
abbrev pub new_reviews : (ℕ → String) → ℕ → List ReviewItem → List Review
new_reviews ulid n [] = []
new_reviews ulid n (item ∷ items) =
    record {
      review_id = ulid n;
      review_key = item.key;
      status = "pending";
      payload = item;
      decision = none;
      decided_by = none;
      decided_at = none;
    }
    ∷ new_reviews ulid (n + 1) items

-- the file with the new revision, and the result file of the revision
unfoldable pub write_revision : String → (ℕ → String) → Outcome → Option String → Job → Job
unfolding new_revision
write_revision revision_id ulid outcome parent job =
    let revision = new_revision revision_id outcome parent job.state in
    record job {
      state = some (record {
        current_revision = revision;
        revision_history = history_of job.state ++ revision ∷ [];
        reviews = new_reviews ulid 0 outcome.review_items;
      });
      results = add revision.revision_number job.results;
    }
