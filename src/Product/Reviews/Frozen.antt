-- ===== src/Product/Reviews/Frozen.antt =====
-- A rerun uses only what decisions have confirmed among the candidates that were recorded.
use excel_youhua.Dict.{get-put, get}
use excel_youhua.Product.Reviews.Rerun.{
  required, number, add_extra, add_mapping, add_category, no_overrides, is_rejected, Overrides,
  prepare_rerun, collect, collect_one,
}
use excel_youhua.Product.Reviews.Revise.{new_reviews, Outcome, write_revision}
use excel_youhua.Prelude.Results.{ok-injective, Result-cases, require, >>=-eq-ok, err, ok, Result}
use excel_youhua.Product.Reviews.Decide.{
  check_target, Revision, all_resolved, candidate_ids, resolve, invalid, find_review, found_review,
  state_of, replace_review, is_valid_decision, WorkflowState, Review, decide_review, Job, Error,
}
use excel_youhua.Product.Reviews.Models.{
  Action, ReviewItem, ProductReviewDecision, confirm_category, confirm_mapping, keep_extra, reject,
}
use excel_youhua.Prelude.{
  ◌∙◌, nat_beq, if◌then◌else◌, sym, any, not, ◌⊎◌, subst, contains, inr, inl, ◌+◌, ◌==◌, eq_iff,
  Bool-cases, true, none, All, [], some, ◌∷◌, List, ℕ, Option, String, ◌≡◌, refl, arith, nat_eq,
  string_eq,
}

-- What happens to a job's reviews: a decision, or a revision that a run writes.
pub data Event : Type 0 where
  decide : String → ProductReviewDecision → String → String → Event
  revise : String → (ℕ → String) → Outcome → Option String → Event

abbrev pub after_decision : Job → Result Error (Job × Review) → Job
after_decision job (ok pair) = pair.0
after_decision job (err error) = job

unfoldable pub happen : Event → Job → Job
unfolding decide_review write_revision
happen (decide id d actor now) job = after_decision job (decide_review id d actor now job)
happen (revise id ulid outcome parent) job = write_revision id ulid outcome parent job

unfoldable pub perform : List Event → Job → Job
unfolding happen
perform [] job = job
perform (event ∷ events) job = perform events (happen event job)

-- a resolved review has a decision that is valid for it
abbrev pub IsDecided : Review → Type 0
IsDecided r =
    r.status ≡ "resolved"
    → (d : ProductReviewDecision) × (r.decision ≡ some d) × (is_valid_decision r.payload d ≡ true)

abbrev pub reviews_of : Option WorkflowState → List Review
reviews_of none = []
reviews_of (some state) = state.reviews

replace-IsDecided :
    (id : String) (new : Review) (reviews : List Review)
    → IsDecided new
    → All IsDecided reviews
    → All IsDecided (replace_review id new reviews)
replace-IsDecided id new [] n all = tt
replace-IsDecided id new (r ∷ reviews) n all = elim (Bool-cases (r.review_id == id)) [
  | inl it ↦ rw it (n, all.1)
  | inr other ↦ rw other (all.0, replace-IsDecided id new reviews n all.1)
]

new_reviews-IsDecided :
    (ulid : ℕ → String) (n : ℕ) (items : List ReviewItem) → All IsDecided (new_reviews ulid n items)
new_reviews-IsDecided ulid n [] = tt
new_reviews-IsDecided ulid n (item ∷ items) = (
  λ resolved. absurd (ground (arith, eq_iff "pending" "resolved")),
  new_reviews-IsDecided ulid (n + 1) items,
)

decide-IsDecided :
    (id : String) (d : ProductReviewDecision) (actor now : String) (job : Job) {new : Job × Review}
    → decide_review id d actor now job ≡ ok new
    → All IsDecided (reviews_of job.state)
    → All IsDecided (reviews_of new.0.state)
unfolding decide_review
decide-IsDecided id d actor now job {new} h all =
    let (state, there, rest) = >>=-eq-ok (state_of job) _ h in
    let (review, found, rest2) = >>=-eq-ok (found_review (find_review id state.reviews)) _ rest in
    let (_, valid, rest3) =
      >>=-eq-ok (require (is_valid_decision review.payload d) invalid) _ rest2 in
    let (_, pending, done) = >>=-eq-ok (require (review.status == "pending") invalid) _ rest3 in
    let reviews = replace_review id (resolve d actor now review) state.reviews in
    let saved : new.0.state ≡ some (record state { reviews = reviews }) = ground (arith, done) in
    let known : All IsDecided state.reviews =
      let e : job.state ≡ some state = ground (arith, there) in
      subst (λ (s : Option WorkflowState). All IsDecided (reviews_of s)) e all in
    rw saved (
      replace-IsDecided id (resolve d actor now review) state.reviews
        (λ _. (d, refl, ground (arith, valid))) known)

pub perform-IsDecided :
    (events : List Event) (job : Job)
    → All IsDecided (reviews_of job.state)
    → All IsDecided (reviews_of (perform events job).state)
unfolding perform happen write_revision
perform-IsDecided [] job all = all
perform-IsDecided (decide id d actor now ∷ events) job all =
    elim (Result-cases (decide_review id d actor now job)) [
      | inl (error, failed) ↦ rw (perform, failed) (perform-IsDecided events job all)
      | inr (new, done) ↦
          rw (perform, done)
            (perform-IsDecided events new.0 (decide-IsDecided id d actor now job done all))
    ]
perform-IsDecided (revise id ulid outcome parent ∷ events) job all =
    perform-IsDecided events (write_revision id ulid outcome parent job)
      (new_reviews-IsDecided ulid 0 outcome.review_items)

-- one of the reviews is of the row and has the category among its candidates
abbrev pub IsFrozen : ℕ → String → List Review → Type 0
IsFrozen row category_id [] = ⊥
IsFrozen row category_id (r ∷ reviews) =
    ((r.payload.excel_row ≡ some row)
      × (contains (candidate_ids r.payload.candidates) category_id ≡ true))
    ⊎ IsFrozen row category_id reviews

collect_one-IsFrozen :
    (action : Action) (review : Review) (d : ProductReviewDecision) (o : Overrides) (row : ℕ)
    (category_id : String) {next : Overrides}
    → check_target action review.payload d ≡ true
    → collect_one action review d o ≡ ok next
    → get row next.category_overrides ≡ some category_id
    → ((review.payload.excel_row ≡ some row)
        × (contains (candidate_ids review.payload.candidates) category_id ≡ true))
      ⊎ (get row o.category_overrides ≡ some category_id)
unfolding collect_one add_category add_mapping add_extra
collect_one-IsFrozen confirm_category review d o row category_id valid h found =
    let (r, here, rest) = >>=-eq-ok (number review.payload.excel_row) _ h in
    let (c, chosen, done) = >>=-eq-ok (required d.category_id) _ rest in
    let seen : (if nat_beq r row then some c else get row o.category_overrides) ≡ some category_id =
      sym (get-put r row c o.category_overrides)
      ∙ subst (λ (n : Overrides). get row n.category_overrides ≡ some category_id)
          (sym (ok-injective done)) found in
    elim (Bool-cases (nat_beq r row)) [
      | inl it ↦ inl (ground (arith, here, it), ground (arith, chosen, valid, seen, it))
      | inr other ↦ inr (ground (arith, seen, other))
    ]
collect_one-IsFrozen confirm_mapping review d o row category_id valid h found = inr (ground arith)
collect_one-IsFrozen keep_extra review d o row category_id valid h found = inr (ground arith)
collect_one-IsFrozen reject review d o row category_id valid h found = inr (ground arith)

collect-IsFrozen :
    (reviews : List Review) (o : Overrides) (row : ℕ) (category_id : String) {final : Overrides}
    → All IsDecided reviews
    → all_resolved reviews ≡ true
    → collect reviews o ≡ ok final
    → get row final.category_overrides ≡ some category_id
    → IsFrozen row category_id reviews ⊎ (get row o.category_overrides ≡ some category_id)
unfolding collect is_valid_decision
collect-IsFrozen [] o row category_id all resolved h found = inr (ground (arith, found))
collect-IsFrozen (r ∷ reviews) o row category_id all resolved h found =
    let (d, decided, valid) = all.0 (ground (arith, eq_iff r.status "resolved")) in
    let (next, one, rest) = >>=-eq-ok (collect_one d.action r d o) _ (rw (collect, decided) at h) in
    elim (collect-IsFrozen reviews next row category_id all.1 (ground arith) rest found) [
      | inl later ↦ inl (inr later)
      | inr earlier ↦
          elim (collect_one-IsFrozen d.action r d o row category_id (ground (arith, valid)) one
            earlier) [ inl here ↦ inl (inl here) | inr before ↦ inr before ]
    ]

-- After any decisions and runs of a job that starts without reviews, a rerun that is prepared
-- overrides the category of a row only by one that is among the candidates recorded in a review of that
-- row.
pub prepare_rerun-IsFrozen :
    (events : List Event) (start : Job) (row : ℕ) (category_id : String)
    {prepared : Overrides × Revision}
    → start.state ≡ none
    → prepare_rerun (perform events start) ≡ ok prepared
    → get row prepared.0.category_overrides ≡ some category_id
    → IsFrozen row category_id (reviews_of (perform events start).state)
unfolding prepare_rerun
prepare_rerun-IsFrozen events start row category_id empty h found =
    let job = perform events start in
    let all = perform-IsDecided events start (rw empty tt) in
    let (state, there, rest) = >>=-eq-ok (state_of job) _ h in
    let (_, resolved, rest2) = >>=-eq-ok (require (all_resolved state.reviews) invalid) _ rest in
    let (_, _, rest3) = >>=-eq-ok (require (not (any is_rejected state.reviews)) invalid) _ rest2 in
    let (o, collected, rest4) = >>=-eq-ok (collect state.reviews no_overrides) _ rest3 in
    let stored : job.state ≡ some state = ground (arith, there) in
    elim (collect-IsFrozen state.reviews no_overrides row category_id
      (subst (λ (s : Option WorkflowState). All IsDecided (reviews_of s)) stored all)
      (ground (arith, resolved)) collected (ground (arith, found, rest4))) [
        | inl frozen ↦
            subst (λ (s : Option WorkflowState). IsFrozen row category_id (reviews_of s))
              (sym stored) frozen
        | inr none_before ↦ absurd (ground (arith, none_before))
      ]
