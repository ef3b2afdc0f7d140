-- ===== src/Tests/Persistence.antt =====
-- The repository of persistence.py on small inputs.
use excel_youhua.Tests.Platform.{Doc, Rules, sample, products, changed, read_back, hash, null}
use excel_youhua.Persistence.History.{snapshot, update}
use excel_youhua.Persistence.Decided.Once.{decide_product_review-once}
use excel_youhua.Persistence.Revisions.{create_product_revision_last}
use excel_youhua.Persistence.Items.{has_id}
use excel_youhua.Persistence.Batches.{save_differences_lem}
use excel_youhua.Persistence.References.{perform-IsReferential, IsReferential}
use excel_youhua.Persistence.Rows.{ProductWorkflowRevisionRow, ProductReviewItemRow}
use excel_youhua.Persistence.Jobs.{create_job}
use excel_youhua.Persistence.Snapshots.{purge_job}
use excel_youhua.Persistence.Differences.{difference_row, save_differences, DifferenceEntry}
use excel_youhua.Persistence.Products.{
  Revision, review_row, create_product_revision, ProductNormalizationResult,
}
use excel_youhua.Persistence.Reviews.{last_revision, decide_product_review}
use excel_youhua.Persistence.Catalogs.{save_product_category_snapshot}
use excel_youhua.Product.Reviews.Models.{Action, ReviewType, ProductReviewDecision, ReviewItem}
use excel_youhua.Persistence.Published.{get_rule-stable, publish_rule-get_rule}
use excel_youhua.Persistence.Session.{first, Error, Db, content_sha256}
use excel_youhua.Prelude.Results.{err, Result, ok}
use excel_youhua.Persistence.History.{
  update, decide, revision, categories, create, Call, purge, empty_db, committed, publish, perform,
}
use excel_youhua.Persistence.Schemas.{get_rule, publish_rule}
use Prim.Native.String.{String}
use excel_youhua.Prelude.{◌≢◌, ◌<◌, All, map, List, true, [], ◌∷◌, none, some, ℕ, String, ◌≡◌, refl}

abbrev with_products : Db sample
unfolding publish_rule
with_products =
    committed sample (empty_db sample) (publish_rule sample products none "local" (empty_db sample))

publish_rule-get_rule_example :
    (stored : Rules) × (get_rule sample "products" "1" "local"
        (perform sample (publish changed none "local" ∷ []) with_products)
      ≡ ok stored)
    × (content_sha256 sample stored ≡ "Products")
unfolding publish_rule perform
publish_rule-get_rule_example =
    publish_rule-get_rule sample read_back [] products none "local"
      (publish changed none "local" ∷ []) refl

get_rule-stable_example :
    get_rule sample "products" "1" "local"
      (perform sample (publish changed none "local" ∷ purge "job" "local" ∷ []) with_products)
    ≡ ok products
unfolding publish_rule get_rule perform
get_rule-stable_example =
    get_rule-stable sample "products" "1" "local"
      (publish changed none "local" ∷ purge "job" "local" ∷ []) with_products refl

abbrev category_review : ReviewItem
category_review = record {
  review_type = ReviewType.category;
  key = "row:2";
  raw_header = none;
  category_id = none;
  physical_column = none;
  excel_row = some 2;
  candidates = [];
}

abbrev normalized : ProductNormalizationResult Doc ℕ
normalized = record {
  category_catalog_snapshot = record {
    snapshot_id = "pcat";
    connection_id = "shop";
    captured_at = 0;
    categories = [];
    content_sha256 = "";
    source_metadata = [];
  };
  catalog_snapshots = [];
  review_items = category_review ∷ [];
  requires_manual_review = true;
  json = null;
}

abbrev confirm : ProductReviewDecision
confirm = record {
  action = Action.confirm_category;
  category_id = some "c1";
  field_id = none;
  raw_header = none;
  note = none;
}

abbrev reject_it : ProductReviewDecision
reject_it = record {
  action = Action.reject;
  category_id = none;
  field_id = none;
  raw_header = none;
  note = none;
}

abbrev setup : List (Call sample)
setup = create "job" "local" "user" ∷ categories normalized.category_catalog_snapshot "local" ∷ []

abbrev before_decision : List (Call sample)
before_decision =
    create "job" "local" "user"
    ∷ categories normalized.category_catalog_snapshot "local"
    ∷ revision "job" normalized none none "local"
    ∷ []

abbrev review_key : String
review_key = "review_iiiii"

abbrev reviewed : Db sample
unfolding perform create_job save_product_category_snapshot create_product_revision
reviewed = perform sample before_decision (empty_db sample)

abbrev when_missing : Db sample × ProductReviewItemRow ℕ
when_missing = (empty_db sample, review_row sample "job" "" review_key 0 category_review)

abbrev or_else :
    Db sample × ProductReviewItemRow ℕ
    → Result Error (Db sample × ProductReviewItemRow ℕ)
    → Db sample × ProductReviewItemRow ℕ
or_else other (ok pair) = pair
or_else other (err error) = other

abbrev decided : Db sample × ProductReviewItemRow ℕ
unfolding perform create_job save_product_category_snapshot create_product_revision
    decide_product_review
decided =
    or_else when_missing
      (decide_product_review sample "job" review_key confirm "user" "local" reviewed)

abbrev later_calls : List (Call sample)
later_calls = purge "other" "local" ∷ decide "job" review_key reject_it "user" "local" ∷ []

-- the reviews are found by the identifiers that they were given
review_listed :
    map
      (λ (r : ProductReviewItemRow ℕ). r.id)
      (perform sample before_decision (empty_db sample)).product_review_items
    ≡ "review_iiiii" ∷ []
unfolding perform create_job save_product_category_snapshot create_product_revision
review_listed = refl

decide_product_review-once_example :
    (first (has_id review_key) (perform sample later_calls decided.0).product_review_items
      ≡ some decided.1)
    × (decided.1.decision_json ≡ some confirm)
    × (decide_product_review sample "job" review_key reject_it "user" "local"
          (perform sample later_calls decided.0)
        ≢ ok when_missing)
unfolding perform create_job save_product_category_snapshot create_product_revision
    decide_product_review purge_job
decide_product_review-once_example =
    decide_product_review-once sample before_decision "job" review_key confirm "user" "local"
      later_calls reject_it "user" "local" refl refl

abbrev first_revision : Db sample × Revision
unfolding perform create_job save_product_category_snapshot create_product_revision
first_revision = elim (create_product_revision sample "job" normalized none none "local" reviewed) [
  | ok pair ↦ pair
  | err error ↦ (empty_db sample, record { revision_id = ""; revision_number = 0; status = "" })
]

create_product_revision_last_example :
    All
      (λ (r : ProductWorkflowRevisionRow Doc ℕ).
        r.job_id ≡ "job" → r.revision_number < first_revision.1.revision_number)
      reviewed.product_workflow_revisions
    × (last_revision sample "job" first_revision.0.product_workflow_revisions
        ≡ some first_revision.1.revision_id)
unfolding perform create_job save_product_category_snapshot create_product_revision
create_product_revision_last_example =
    create_product_revision_last sample "job" normalized none none "local" reviewed refl

abbrev missing_row : DifferenceEntry
missing_row = record {
  difference_id = "d1";
  type = "MISSING_RECORD";
  severity = "error";
  sheet_id = "s";
  cell = none;
  canonical_field = none;
  business_key = some "1";
  message = "";
  render_action = "report_only";
  repair_status = "planned";
}

abbrev with_differences : Db sample
unfolding perform create_job save_product_category_snapshot create_product_revision save_differences
with_differences =
    committed sample reviewed (save_differences sample "job" (missing_row ∷ []) reviewed)

save_differences_lem_example :
    with_differences.comparison_differences
    ≡ difference_row sample "job" (sample.now reviewed.calls) missing_row ∷ []
unfolding perform create_job save_product_category_snapshot create_product_revision save_differences
save_differences_lem_example = save_differences_lem sample "job" (missing_row ∷ []) reviewed refl

abbrev referring_calls : List (Call sample)
referring_calls =
    create "job" "local" "user"
    ∷ snapshot (λ (d : Doc). hash d)
        (record {
          snapshot_id = "std";
          path = "std.jsonl";
          sha256 = "";
          record_count = 1;
          fetched_at = 0;
          metadata = [];
        })
        "file" "local" none
    ∷ update (record {
      job_id = "job";
      status = some "completed";
      progress = none;
      schema_id = none;
      schema_version = none;
      standard_snapshot_id = some (some "std");
      input_sha256 = none;
      output_sha256 = none;
      error_code = none;
      error_message_safe = none;
      summary = none;
      completed_at = none;
      retention_until = none;
      deleted_at = none;
    })
    ∷ purge "other" "local"
    ∷ []

perform-IsReferential_example :
    IsReferential sample (perform sample referring_calls (empty_db sample))
perform-IsReferential_example =
    perform-IsReferential sample referring_calls (empty_db sample) refl tt
