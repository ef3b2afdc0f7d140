-- ===== src/Product/Reviews/Models.antt =====
-- The review items of product_workflow/models.py and the decisions on them.
use excel_youhua.Prelude.{ℕ, String, Bool, true, false, not, ◌&&◌, ◌||◌, Option, none, some, List}
use excel_youhua.Product.Models.{MappingCandidate}

pub data ReviewType : Type 0 where
  category field_mapping duplicate_header schema_conflict : ReviewType

pub record ReviewItem : Type 0 where
  pub review_type : ReviewType
  pub key : String
  pub raw_header : Option String
  pub category_id : Option String
  pub physical_column : Option ℕ
  pub excel_row : Option ℕ
  pub candidates : List MappingCandidate

pub data Action : Type 0 where
  confirm_category confirm_mapping keep_extra reject : Action

pub record ProductReviewDecision : Type 0 where
  pub action : Action
  pub category_id : Option String
  pub field_id : Option String
  pub raw_header : Option String
  pub note : Option String

abbrev pub is_none {ℓ} : {A : Type ℓ} → Option A → Bool
is_none none = true
is_none (some a) = false

-- the decisions that name no target
abbrev pub has_no_target : ProductReviewDecision → Bool
has_no_target d = is_none d.category_id && (is_none d.field_id && is_none d.raw_header)

-- the tests of `decision_contract` for each action; it raises where they fail
abbrev pub contract_of : Action → ProductReviewDecision → Bool
contract_of confirm_category d = not (is_none d.category_id)
contract_of confirm_mapping d = not (is_none d.field_id || is_none d.raw_header)
contract_of keep_extra d = has_no_target d
contract_of reject d = has_no_target d

unfoldable pub decision_contract : ProductReviewDecision → Bool
decision_contract d = contract_of d.action d
