-- ===== src/Product/Reviews/Decide.antt =====
-- `decide_review` and `_validate_review_decision` of product_workflow/service.py.
use excel_youhua.Prelude.Equality.{option_beq}
use excel_youhua.Product.Models.{MappingCandidate}
use excel_youhua.Prelude.Results.{require, ◌>>◌, ok, ◌>>=◌, err, Result}
use excel_youhua.Prelude.{
  string_eq, contains, ◌==◌, ◌&&◌, false, [], true, if◌then◌else◌, some, ◌∷◌, none, Bool, ℕ, Option,
  List, String,
}
use excel_youhua.Product.Reviews.Models.{
  ProductReviewDecision, ReviewItem, Action, category, field_mapping, duplicate_header,
  schema_conflict, confirm_category, confirm_mapping, keep_extra, reject, ReviewType,
}

-- `FileNotFoundError`, `ValueError`, and the `TypeError` of `int(None)`
pub data Error : Type 0 where
  not_found invalid not_a_number : Error

-- a review of the file; its payload is the review item
pub record Review : Type 0 where
  pub review_id : String
  pub review_key : String
  pub status : String
  pub payload : ReviewItem
  pub decision : Option ProductReviewDecision
  pub decided_by : Option String
  pub decided_at : Option String

pub record Revision : Type 0 where
  pub revision_id : String
  pub revision_number : ℕ
  pub parent_revision_id : Option String
  pub status : String

-- the contents of product-workflow.json
pub record WorkflowState : Type 0 where
  pub current_revision : Revision
  pub revision_history : List Revision
  pub reviews : List Review

-- A job's directory: the file if there is one, the status that was written last, how many files match
-- product-input.*, and the numbers of the result files.
pub record Job : Type 0 where
  pub state : Option WorkflowState
  pub status : String
  pub pending_review_count : Option ℕ
  pub inputs : ℕ
  pub results : List ℕ

-- the actions that a type of review allows
abbrev pub allows : ReviewType → Action → Bool
allows category confirm_category = true
allows category reject = true
allows category confirm_mapping = false
allows category keep_extra = false
allows field_mapping confirm_mapping = true
allows field_mapping keep_extra = true
allows field_mapping reject = true
allows field_mapping confirm_category = false
allows duplicate_header keep_extra = true
allows duplicate_header reject = true
allows duplicate_header confirm_category = false
allows duplicate_header confirm_mapping = false
allows schema_conflict action = true

abbrev pub candidate_ids : List MappingCandidate → List String
candidate_ids [] = []
candidate_ids (c ∷ cs) = c.field_id ∷ candidate_ids cs

abbrev pub is_among : Option String → List String → Bool
is_among none ids = false
is_among (some target) ids = contains ids target

-- the tests on the target of a confirmation
abbrev pub check_target : Action → ReviewItem → ProductReviewDecision → Bool
check_target confirm_category item d = is_among d.category_id (candidate_ids item.candidates)
check_target confirm_mapping item d =
    is_among d.field_id (candidate_ids item.candidates) && option_beq d.raw_header item.raw_header
check_target keep_extra item d = true
check_target reject item d = true

-- `_validate_review_decision`, which raises `ValueError` if this is false
unfoldable pub is_valid_decision : ReviewItem → ProductReviewDecision → Bool
is_valid_decision item d = allows item.review_type d.action && check_target d.action item d

abbrev pub find_review : String → List Review → Option Review
find_review review_id [] = none
find_review review_id (r ∷ reviews) =
    let rest = find_review review_id reviews in if r.review_id == review_id then some r else rest

-- the first review with the identifier is replaced
abbrev pub replace_review : String → Review → List Review → List Review
replace_review review_id new [] = []
replace_review review_id new (r ∷ reviews) =
    let rest = replace_review review_id new reviews in
    if r.review_id == review_id then new ∷ reviews else r ∷ rest

abbrev pub all_resolved : List Review → Bool
all_resolved [] = true
all_resolved (r ∷ reviews) = r.status == "resolved" && all_resolved reviews

-- `_state`
abbrev pub state_of : Job → Result Error WorkflowState
state_of job = elim job.state [ none ↦ err not_found | some state ↦ ok state ]

abbrev pub found_review : Option Review → Result Error Review
found_review none = err not_found
found_review (some review) = ok review

abbrev pub resolve : ProductReviewDecision → String → String → Review → Review
resolve d actor now review = record review {
  status = "resolved";
  decision = some d;
  decided_by = some actor;
  decided_at = some now;
}

-- the file and, if all reviews are resolved, the status are written
abbrev pub save_reviews : WorkflowState → Job → Job
save_reviews state job =
    if all_resolved state.reviews
    then record job {
      state = some state;
      status = "review_resolved";
      pending_review_count = some 0;
    }
    else record job { state = some state }

unfoldable pub decide_review :
    String → ProductReviewDecision → String → String → Job → Result Error (Job × Review)
unfolding is_valid_decision
decide_review review_id d actor now job = do
  state ← state_of job
  review ← found_review (find_review review_id state.reviews)
  require (is_valid_decision review.payload d) invalid
  require (review.status == "pending") invalid
  let updated = resolve d actor now review
  let reviews = replace_review review_id updated state.reviews
  ok (save_reviews (record state { reviews = reviews }) job, updated)
