-- ===== src/Product/Reviews/Numbered.antt =====
-- The revisions of a job are numbered from 1, without a gap.
use excel_youhua.Prelude.Results.{require, Result-cases, >>=-eq-ok, ok, err}
use excel_youhua.Product.Reviews.Models.{ProductReviewDecision}
use excel_youhua.Product.Reviews.Revise.{
  new_reviews, history_of, previous_id, Outcome, parent_of, new_revision, write_revision,
}
use excel_youhua.Product.Reviews.Decide.{
  resolve, replace_review, invalid, is_valid_decision, find_review, found_review, state_of, Review,
  Job, Revision, WorkflowState, decide_review, Error,
}
use excel_youhua.Product.Reviews.Frozen.{Event, perform, happen, decide, revise}
use excel_youhua.Prelude.{
  subst, ◌==◌, length-append, inr, sym, inl, ◌∙◌, ◌⊎◌, length, [], ◌++◌, ◌+◌, none, ◌∷◌, some, List,
  String, Option, ℕ, ◌≡◌, refl, arith, nat_eq, string_eq,
}

-- numbers from n on, each revision the parent of the next
abbrev pub IsChain : ℕ → Option String → List Revision → Type 0
IsChain n parent [] = Unit
IsChain n parent (r ∷ rs) =
    (r.revision_number ≡ n)
    × (r.parent_revision_id ≡ parent)
    × IsChain (n + 1) (some r.revision_id) rs

abbrev pub last_id : Option String → List Revision → Option String
last_id parent [] = parent
last_id parent (r ∷ rs) = last_id (some r.revision_id) rs

-- the history of a file, which ends with the current revision
abbrev pub IsHistory : Option WorkflowState → Type 0
IsHistory none = Unit
IsHistory (some state) =
    IsChain 1 none state.revision_history
    × (state.current_revision.revision_number ≡ length state.revision_history)
    × (last_id none state.revision_history ≡ some state.current_revision.revision_id)

IsChain-append :
    (n : ℕ) (parent : Option String) (rs : List Revision) (r : Revision)
    → IsChain n parent rs
    → r.revision_number ≡ n + length rs
    → r.parent_revision_id ≡ last_id parent rs
    → IsChain n parent (rs ++ r ∷ [])
IsChain-append n parent [] r c number id = (omega (arith, number), id, tt)
IsChain-append n parent (s ∷ rs) r c number id =
    (c.0, c.1, IsChain-append (n + 1) (some s.revision_id) rs r c.2 (omega (arith, number)) id)

last_id-append :
    (parent : Option String) (rs : List Revision) (r : Revision)
    → last_id parent (rs ++ r ∷ []) ≡ some r.revision_id
last_id-append parent [] r = refl
last_id-append parent (s ∷ rs) r = last_id-append (some s.revision_id) rs r

-- a run that is given the parent of a rerun, which is the current revision, or none
abbrev pub FitsParent : Option String → Option WorkflowState → Type 0
FitsParent none state = Unit
FitsParent (some parent) state = some parent ≡ previous_id state

parent_lem :
    (parent : Option String) (state : Option WorkflowState)
    → FitsParent parent state
    → parent_of parent state ≡ previous_id state
parent_lem none state fits = refl
parent_lem (some parent) state fits = ground (arith, fits)

write_revision-IsHistory :
    (id : String) (ulid : ℕ → String) (outcome : Outcome) (parent : Option String) (job : Job)
    → IsHistory job.state
    → FitsParent parent job.state
    → IsHistory (write_revision id ulid outcome parent job).state
unfolding write_revision new_revision
write_revision-IsHistory id ulid outcome parent job h fits =
    history job.state h (parent_lem parent job.state fits)
  where
    history :
        (state : Option WorkflowState)
        → IsHistory state
        → parent_of parent state ≡ previous_id state
        → IsHistory (
            some (record {
              current_revision = new_revision id outcome parent state;
              revision_history = history_of state ++ new_revision id outcome parent state ∷ [];
              reviews = new_reviews ulid 0 outcome.review_items;
            }))
    history none h own = ((refl, own, tt), refl, refl)
    history (some state) h own = (
      IsChain-append 1 none state.revision_history _ h.0 (omega (arith, h.1)) (own ∙ sym h.2),
      rw (length-append state.revision_history) (omega (arith, h.1)),
      last_id-append none state.revision_history _,
    )

decide_review-IsHistory :
    (id : String) (d : ProductReviewDecision) (actor now : String) (job : Job) {new : Job × Review}
    → decide_review id d actor now job ≡ ok new
    → IsHistory job.state
    → IsHistory new.0.state
unfolding decide_review
decide_review-IsHistory id d actor now job {new} h history =
    let (state, there, rest) = >>=-eq-ok (state_of job) _ h in
    let (review, _, rest2) = >>=-eq-ok (found_review (find_review id state.reviews)) _ rest in
    let (_, _, rest3) = >>=-eq-ok (require (is_valid_decision review.payload d) invalid) _ rest2 in
    let (_, _, done) = >>=-eq-ok (require (review.status == "pending") invalid) _ rest3 in
    let reviews = replace_review id (resolve d actor now review) state.reviews in
    let saved : new.0.state ≡ some (record state { reviews = reviews }) = ground (arith, done) in
    let known : job.state ≡ some state = ground (arith, there) in
    let before = subst IsHistory known history in subst IsHistory (sym saved) before

-- Every run is given no parent, or the revision that is current then.
unfoldable pub FitParents : List Event → Job → Type 0
unfolding happen
FitParents [] job = Unit
FitParents (decide id d actor now ∷ events) job =
    FitParents events (happen (decide id d actor now) job)
FitParents (revise id ulid outcome parent ∷ events) job =
    FitsParent parent job.state × FitParents events (happen (revise id ulid outcome parent) job)

-- If the revisions in a job's history are numbered 1, 2 and so on, each has the one before it as its
-- parent, and the last is the current one, or if there is no file yet, then so they are after any
-- decisions and runs, where a run is given no parent or the revision that is current then.
pub perform-IsHistory :
    (events : List Event) (start : Job)
    → IsHistory start.state
    → FitParents events start
    → IsHistory (perform events start).state
unfolding perform happen FitParents
perform-IsHistory [] start h fit = h
perform-IsHistory (decide id d actor now ∷ events) start h fit =
    perform-IsHistory events (happen (decide id d actor now) start)
      (kept (Result-cases (decide_review id d actor now start))) fit
  where
    kept :
        ((error : Error) × (decide_review id d actor now start ≡ err error))
          ⊎ ((new : Job × Review) × (decide_review id d actor now start ≡ ok new))
        → IsHistory (happen (decide id d actor now) start).state
    kept (inl (error, failed)) = rw (happen, failed) h
    kept (inr (new, done)) = rw (happen, done) (decide_review-IsHistory id d actor now start done h)
perform-IsHistory (revise id ulid outcome parent ∷ events) start h fit =
    perform-IsHistory events (happen (revise id ulid outcome parent) start)
      (write_revision-IsHistory id ulid outcome parent start h fit.0) fit.1
