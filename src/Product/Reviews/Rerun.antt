-- ===== src/Product/Reviews/Rerun.antt =====
-- What `rerun_after_reviews` of product_workflow/service.py collects from the decisions.
use excel_youhua.Prelude.{◌+◌, ltb, nat_eq}
use excel_youhua.Prelude.Results.{require, ◌>>◌, ok, ◌>>=◌, err, Result}
use excel_youhua.Prelude.{
  contains, ◌&&◌, leb, nat_beq, any, not, ◌==◌, true, if◌then◌else◌, false, ◌∷◌, add, string_eq,
  none, some, Bool, String, ℕ, List, Option, [],
}
use excel_youhua.Dict.{get_or, get, put, Dict}
use excel_youhua.Product.Reviews.Decide.{
  not_found, all_resolved, state_of, not_a_number, invalid, Revision, Job, Review, Error,
}
use excel_youhua.Product.Reviews.Models.{
  ProductReviewDecision, ReviewItem, Action, confirm_category, confirm_mapping, keep_extra, reject,
}

-- `category_overrides`, `confirmed_aliases_by_category` and `forced_extra_columns_by_category`
pub record Overrides : Type 0 where
  pub category_overrides : Dict ℕ String
  pub confirmed_aliases : Dict String (Dict String String)
  pub forced_extra_columns : Dict String (List ℕ)

abbrev pub no_overrides : Overrides
no_overrides = record { category_overrides = []; confirmed_aliases = []; forced_extra_columns = [] }

-- `str` of a text or of `None`
abbrev pub str_or_none : Option String → String
str_or_none none = "None"
str_or_none (some text) = text

-- `str(decision[key])` of a decision whose dump leaves out `None`
abbrev pub required : Option String → Result Error String
required none = err invalid
required (some text) = ok text

-- `int(payload[key])`
abbrev pub number : Option ℕ → Result Error ℕ
number none = err not_a_number
number (some n) = ok n

unfoldable pub add_category :
    ReviewItem → ProductReviewDecision → Overrides → Result Error Overrides
unfolding put
add_category item d o = do
  row ← number item.excel_row
  category_id ← required d.category_id
  ok (record o { category_overrides = put row category_id o.category_overrides })

unfoldable pub add_mapping : ReviewItem → ProductReviewDecision → Overrides → Result Error Overrides
unfolding put get
add_mapping item d o = do
  let category_id = str_or_none item.category_id
  header ← required d.raw_header
  field ← required d.field_id
  ok (record o {
    confirmed_aliases =
        put category_id (put header field (get_or category_id [] o.confirmed_aliases))
          o.confirmed_aliases;
  })

-- `not category_id`
abbrev pub scope_of : Option String → Result Error String
scope_of none = err invalid
scope_of (some category_id) = if category_id == "" then err invalid else ok category_id

unfoldable pub add_extra : ReviewItem → Overrides → Result Error Overrides
unfolding put get
add_extra item o = elim item.physical_column [
  | none ↦ ok o
  | some column ↦ do
    category_id ← scope_of item.category_id
    ok (record o {
      forced_extra_columns =
          put category_id (add column (get_or category_id [] o.forced_extra_columns))
            o.forced_extra_columns;
    })
]

-- one round of the loop over the reviews and their decisions
unfoldable pub collect_one :
    Action → Review → ProductReviewDecision → Overrides → Result Error Overrides
unfolding add_category add_mapping add_extra
collect_one confirm_category review d o = add_category review.payload d o
collect_one confirm_mapping review d o = add_mapping review.payload d o
collect_one keep_extra review d o = add_extra review.payload o
collect_one reject review d o = ok o

-- a review without a decision has the decision `{}`, which has no action
unfoldable pub collect : List Review → Overrides → Result Error Overrides
unfolding collect_one
collect [] o = ok o
collect (review ∷ reviews) o = do
  next ← elim review.decision [ none ↦ ok o | some d ↦ collect_one d.action review d o ]
  collect reviews next

abbrev pub is_rejected : Review → Bool
is_rejected review = elim review.decision [
  | none ↦ false
  | some d ↦ elim d.action [ reject ↦ true | _ ↦ false ]
]

-- The part of `rerun_after_reviews` before the lock: the overrides and the revision that the new one
-- has as its parent.
unfoldable pub prepare_rerun : Job → Result Error (Overrides × Revision)
unfolding collect
prepare_rerun job = do
  state ← state_of job
  require (all_resolved state.reviews) invalid
  require (not (any is_rejected state.reviews)) invalid
  overrides ← collect state.reviews no_overrides
  require (nat_beq job.inputs 1) not_found
  let revision = state.current_revision
  require (leb 1 revision.revision_number && contains job.results revision.revision_number)
      not_found
  ok (overrides, revision)

-- `.revision.lock`, a directory with the time at which it was made: it is made again if it is older than
-- the time limit of a run and a minute.
unfoldable pub acquire : ℕ → ℕ → Option ℕ → Result Error (Option ℕ)
acquire now timeout none = ok (some now)
acquire now timeout (some made) =
    if ltb (made + (timeout + 60)) now then ok (some now) else err invalid

-- `rerun_after_reviews`: `run` is the run with the overrides and the parent revision; the lock is
-- removed after it.
unfoldable pub rerun_after_reviews :
    (Overrides → String → Job → Job) → ℕ → ℕ → Job → Option ℕ → Result Error (Job × Option ℕ)
unfolding prepare_rerun acquire
rerun_after_reviews run now timeout job lock = do
  prepared ← prepare_rerun job
  _ ← acquire now timeout lock
  ok (run prepared.0 prepared.1.revision_id job, none)
