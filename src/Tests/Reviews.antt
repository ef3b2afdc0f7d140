-- ===== src/Tests/Reviews.antt =====
-- The reviews of a job on a small input.
use excel_youhua.Product.Reviews.Revise.{Outcome}
use excel_youhua.Dict.{get}
use excel_youhua.Product.Reviews.Numbered.{perform-IsHistory, IsHistory, FitParents}
use excel_youhua.Product.Reviews.Rerun.{prepare_rerun}
use excel_youhua.Product.Reviews.Decide.{Job}
use excel_youhua.Product.Reviews.Models.{Action, ReviewType, ProductReviewDecision, ReviewItem}
use excel_youhua.Product.Reviews.Frozen.{
  prepare_rerun-IsFrozen, reviews_of, IsFrozen, Event, perform, decide, revise,
}
use excel_youhua.Prelude.{true, ◌∷◌, [], some, none, List, refl, nat_eq, string_eq}

abbrev open_review : ReviewItem
open_review = record {
  review_type = ReviewType.category;
  key = "row:2";
  raw_header = none;
  category_id = none;
  physical_column = none;
  excel_row = some 2;
  candidates =
      record { field_id = "c1"; title = "Shoes"; confidence = 90; match_value = "shoes" } ∷ [];
}

abbrev choose : ProductReviewDecision
choose = record {
  action = Action.confirm_category;
  category_id = some "c1";
  field_id = none;
  raw_header = none;
  note = none;
}

abbrev no_job : Job
no_job = record {
  state = none;
  status = "validating";
  pending_review_count = none;
  inputs = 1;
  results = [];
}

abbrev outcome : Outcome
outcome = record { review_items = open_review ∷ []; requires_manual_review = true }

abbrev events : List Event
events = revise "prev1" (λ n. "review1") outcome none ∷ decide "review1" choose "user" "now" ∷ []

abbrev reviewed : Job
unfolding perform
reviewed = perform events no_job

prepare_rerun-IsFrozen_example : IsFrozen 2 "c1" (reviews_of reviewed.state)
unfolding perform prepare_rerun get
prepare_rerun-IsFrozen_example = prepare_rerun-IsFrozen events no_job 2 "c1" refl refl refl

perform-IsHistory_example :
    IsHistory (perform (revise "prev2" (λ n. "review1") outcome (some "prev1") ∷ []) reviewed).state
unfolding perform FitParents
perform-IsHistory_example =
    perform-IsHistory (revise "prev2" (λ n. "review1") outcome (some "prev1") ∷ []) reviewed
      ((refl, refl, tt), refl, refl) (refl, tt)
