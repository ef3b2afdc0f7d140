-- ===== src/Product/Category.antt =====
-- `resolve_categories` of product_workflow/category.py: which platform category each row belongs to.
pub mod Active
pub mod Justified
use excel_youhua.Prelude.{
  ℕ, ◌+◌, ◌-◌, String, Bool, true, false, not, ◌&&◌, ◌||◌, List, [], ◌∷◌, ◌++◌, map, Option, none,
  some, add, keep, take, length, leb, get_elem?, ◌==◌, nat_eq, string_eq, if◌then◌else◌,
}
use excel_youhua.Prelude.Sorting.{sorted}
use excel_youhua.Prelude.Results.{Result, ok, err, ◌>>=◌, ◌>>◌, require}
use excel_youhua.Dict.{Dict, get, put, has, get_or, keys}
use excel_youhua.Python.{Python, Value, null, text}
use excel_youhua.Text.{normalize_header}
use excel_youhua.Product.Models.{
  fuzzy_suggestion, id_name_conflict, missing, id, exact, invalid_id, ambiguous, manual_review,
  resolved, unresolved, Basis, CategoryResolution, CategoryDefinition, MappingCandidate, Fuzzy,
  str_le, better,
}
use excel_youhua.Product.Mapping.Prepare.{key, add_owner}
use excel_youhua.Product.Mapping.Step.{keep_best, values}

-- The keyword arguments; a field that is the empty text counts as `none`.
pub record CategoryOptions : Type 0 where
  pub source_field : String
  pub id_field : Option String
  pub first_excel_row : ℕ
  pub excel_rows : Option (List ℕ)
  pub fuzzy_threshold : ℕ
  pub candidate_score_margin : ℕ

pub data CategoryError : Type 0 where
  rows_not_aligned duplicate_category : CategoryError

-- `{category.category_id: category for category in categories if category.active}`
unfoldable pub index_categories :
    Dict String CategoryDefinition → List CategoryDefinition → Dict String CategoryDefinition
index_categories d [] = d
index_categories d (c ∷ cs) = index_categories (if c.active then put c.category_id c d else d) cs

abbrev pub category_names : CategoryDefinition → List String
category_names c = c.name ∷ (c.aliases ++ c.path)

abbrev name_of : Dict String CategoryDefinition → String → String
name_of by_id cid = elim (get cid by_id) [ none ↦ "" | some c ↦ c.name ]

-- `raw or None`
abbrev pub or_none : String → Option String
or_none s = if s == "" then none else some s

abbrev add_all : List String → List String → List String
add_all seen [] = seen
add_all seen (o ∷ os) = add_all (add o seen) os

abbrev pub is_only : String → List String → Bool
is_only s (t ∷ []) = t == s
is_only s _ = false

abbrev pub has_any {ℓ} : {A : Type ℓ} → List A → Bool
has_any [] = false
has_any (x ∷ xs) = true

module _ (py : Python) where
  -- `names`
  unfoldable pub collect_names :
      List CategoryDefinition → Dict String (List String) → Dict String (List String)
  unfolding add_owner
  collect_names [] d = d
  collect_names (c ∷ cs) d = collect_names cs (add_owner py c.category_id (category_names c) d)

  module _ (fz : Fuzzy) (opts : CategoryOptions) (by_id : Dict String CategoryDefinition)
      (names : Dict String (List String)) where
    abbrev candidate : String → ℕ → String → MappingCandidate
    candidate cid score match_value = record {
      field_id = cid;
      title = name_of by_id cid;
      confidence = score;
      match_value = match_value;
    }

    -- a resolution with nothing resolved
    abbrev pub open_resolution : ℕ → String → String → CategoryResolution
    open_resolution row raw_id raw_name = record {
      excel_row = row;
      raw_category_id = or_none raw_id;
      raw_category = or_none raw_name;
      category_id = none;
      category_name = none;
      status = unresolved;
      match_type = missing;
      confidence = none;
      candidates = [];
    }

    abbrev pub resolve_to : ℕ → String → String → String → Basis → CategoryResolution
    resolve_to row raw_id raw_name cid basis = record (open_resolution row raw_id raw_name) {
      category_id = some cid;
      category_name = some (name_of by_id cid);
      status = resolved;
      match_type = basis;
      confidence = some fz.full;
    }

    -- candidates for a human to choose from, the first of which sets the confidence
    abbrev pub review :
        ℕ → String → String → Basis → Basis → List MappingCandidate → CategoryResolution
    review row raw_id raw_name basis otherwise [] = record (open_resolution row raw_id raw_name) {
      match_type = otherwise;
    }
    review row raw_id raw_name basis otherwise (c ∷ cs) =
        record (open_resolution row raw_id raw_name) {
          status = manual_review;
          match_type = basis;
          confidence = some c.confidence;
          candidates = c ∷ cs;
        }

    -- an id and a name that is another category's
    unfoldable pub conflict : ℕ → String → String → List String → CategoryResolution
    unfolding sorted
    conflict row raw_id raw_name owners = record (open_resolution row raw_id raw_name) {
      status = manual_review;
      match_type = id_name_conflict;
      confidence = some fz.full;
      candidates =
          map (λ c. candidate c fz.full (if c == raw_id then raw_id else raw_name))
            (sorted str_le (add_all (raw_id ∷ []) owners));
    }

    unfoldable pub best_of_owners :
        List String → String → ℕ → Dict String MappingCandidate → Dict String MappingCandidate
    unfolding keep_best
    best_of_owners [] match_value score best = best
    best_of_owners (o ∷ os) match_value score best =
        best_of_owners os match_value score (keep_best (candidate o score match_value) best)

    unfoldable pub best_of_matches :
        List (String × ℕ) → Dict String MappingCandidate → Dict String MappingCandidate
    unfolding best_of_owners
    best_of_matches [] best = best
    best_of_matches ((choice, score) ∷ rest) best =
        best_of_matches rest (best_of_owners (get_or choice [] names) choice score best)

    -- the candidates within the margin of the best one
    abbrev pub near_best : List MappingCandidate → List MappingCandidate
    near_best [] = []
    near_best (c ∷ cs) =
        keep (λ d. leb (c.confidence - d.confidence) opts.candidate_score_margin) (c ∷ cs)

    -- a name that several categories have, or none
    unfoldable pub suggest_categories : ℕ → String → List String → CategoryResolution
    unfolding best_of_owners best_of_matches sorted
    suggest_categories row raw_name (o ∷ os) =
        review row "" raw_name ambiguous missing
          (take 3 (sorted better (values (best_of_owners (o ∷ os) raw_name fz.full []))))
    suggest_categories row raw_name [] = review row "" raw_name fuzzy_suggestion missing (
        take 3 (
          near_best (
            sorted better (
              values (
                best_of_matches (fz.extract (key py raw_name) (keys names) opts.fuzzy_threshold 12)
                  [])))))

    -- an id that no active category has; the owners of the name are candidates
    unfoldable pub unknown_id : ℕ → String → String → List String → CategoryResolution
    unfolding sorted
    unknown_id row raw_id raw_name owners =
        review row raw_id raw_name invalid_id invalid_id
          (map (λ o. candidate o fz.full raw_name) (sorted str_le owners))

    -- a name, without an id
    unfoldable pub resolve_name : ℕ → String → List String → CategoryResolution
    unfolding suggest_categories
    resolve_name row raw_name (o ∷ []) = resolve_to row "" raw_name o exact
    resolve_name row raw_name [] = suggest_categories row raw_name []
    resolve_name row raw_name (o ∷ p ∷ os) = suggest_categories row raw_name (o ∷ p ∷ os)

    -- `name_owners`
    abbrev pub owners_of : String → List String
    owners_of raw_name = if raw_name == "" then [] else get_or (key py raw_name) [] names

    -- the body of the loop, from the normalized id and name
    unfoldable pub resolve_row : ℕ → String → String → CategoryResolution
    unfolding conflict unknown_id resolve_name
    resolve_row row raw_id raw_name =
        let owners = owners_of raw_name in
        if not (raw_id == "") && has raw_id by_id
        then (if has_any owners && not (is_only raw_id owners)
            then conflict row raw_id raw_name owners
            else resolve_to row raw_id raw_name raw_id id)
        else if raw_name == ""
        then record (open_resolution row raw_id raw_name) {
          match_type = if raw_id == "" then missing else invalid_id;
        }
        else if not (raw_id == "")
        then unknown_id row raw_id raw_name owners
        else resolve_name row raw_name owners

    -- `row.get(field)`
    abbrev pub cell : String → Dict String (Value py.Obj) → Value py.Obj
    cell field r = elim (get field r) [ none ↦ null | some v ↦ v ]

    abbrev pub id_of : Dict String (Value py.Obj) → String
    id_of r = elim opts.id_field [ none ↦ "" | some f ↦ normalize_header py (cell f r) ]

    -- `excel_rows[offset]`, or `first_excel_row + offset`
    abbrev pub row_at : ℕ → ℕ
    row_at offset = elim opts.excel_rows [
      | none ↦ opts.first_excel_row + offset
      | some rows ↦ elim (get_elem? rows offset) [ none ↦ 0 | some row ↦ row ]
    ]

    unfoldable pub resolve_rows : List (Dict String (Value py.Obj)) → ℕ → List CategoryResolution
    unfolding resolve_row
    resolve_rows [] offset = []
    resolve_rows (r ∷ rs) offset =
        resolve_row (row_at offset) (id_of r) (normalize_header py (cell opts.source_field r))
        ∷ resolve_rows rs (offset + 1)

abbrev pub is_aligned : {A : Type 0} → Option (List ℕ) → List A → Bool
is_aligned none rows = true
is_aligned (some ns) rows = nat_eq.beq (length ns) (length rows)

unfoldable pub resolve_categories :
    (py : Python)
    → Fuzzy
    → CategoryOptions
    → List (Dict String (Value py.Obj))
    → List CategoryDefinition
    → Result CategoryError (List CategoryResolution)
unfolding index_categories collect_names resolve_rows
resolve_categories py fz opts rows categories = do
  require (is_aligned opts.excel_rows rows) rows_not_aligned
  let by_id = index_categories [] categories
  require (nat_eq.beq (length by_id) (length (keep (λ c. c.active) categories))) duplicate_category
  ok (resolve_rows py fz opts by_id (collect_names py (values by_id) []) rows 0)
