-- ===== src/Product/Mapping/Step.antt =====
-- The loop of `map_product_headers` over the headers (product_workflow/mapping.py).
use excel_youhua.Prelude.{
  ℕ, ◌+◌, ◌*◌, String, List, [], ◌∷◌, map, none, some, ltb, contains, take, nat_eq, string_eq,
  if◌then◌else◌,
}
use Prim.Native.Nat.{max}
use excel_youhua.Prelude.Sorting.{sorted}
use excel_youhua.Dict.{Dict, get, put, get_or, keys}
use excel_youhua.Python.{Python, text}
use excel_youhua.Text.{normalize_header}
use excel_youhua.Product.Models.{
  CatalogFieldDefinition, FieldMapping, MappingCandidate, MatchType, Status, Fuzzy, exact,
  confirmed_alias, fuzzy_suggestion, duplicate, accepted, manual_review, str_le, better,
}
use excel_youhua.Product.Mapping.Prepare.{Targets}

-- The keyword arguments.
pub record Options : Type 0 where
  pub confirmed_aliases : Dict String String
  pub forced_extra_columns : List ℕ
  pub fuzzy_threshold : ℕ
  pub max_candidates : ℕ

-- `by_id[owner].title`
abbrev title_of : Dict String CatalogFieldDefinition → String → String
title_of by_id fid = elim (get fid by_id) [ none ↦ "" | some f ↦ f.title ]

-- `best_by_field`: the better of two candidates for one field, the earlier one if they are equal
unfoldable pub keep_best :
    MappingCandidate → Dict String MappingCandidate → Dict String MappingCandidate
keep_best c best = elim (get c.field_id best) [
  | none ↦ put c.field_id c best
  | some current ↦ if ltb current.confidence c.confidence then put c.field_id c best else best
]

abbrev pub values {ℓ} : {V : Type ℓ} → Dict String V → List V
values [] = []
values ((k, v) ∷ d) = v ∷ values d

module _ (t : Targets) where
  abbrev candidate : String → String → ℕ → MappingCandidate
  candidate fid match_value confidence = record {
    field_id = fid;
    title = title_of t.by_id fid;
    confidence = confidence;
    match_value = match_value;
  }

  unfoldable pub best_owners :
      List String → String → ℕ → Dict String MappingCandidate → Dict String MappingCandidate
  unfolding keep_best
  best_owners [] display score best = best
  best_owners (o ∷ os) display score best =
      best_owners os display score (keep_best (candidate o display score) best)

  unfoldable pub best_matches :
      List (String × ℕ) → Dict String MappingCandidate → Dict String MappingCandidate
  unfolding best_owners
  best_matches [] best = best
  best_matches ((choice, score) ∷ rest) best =
      best_matches rest (
        best_owners (get_or choice [] t.token_owners) (get_or choice "" t.token_display) score best)

module _ (py : Python) (fz : Fuzzy) (opts : Options) (t : Targets) where
  -- the candidates of a header that no field owns
  unfoldable pub suggestions : String → List MappingCandidate
  unfolding best_matches sorted
  suggestions token = take opts.max_candidates (
      sorted better (
        values (
          best_matches t
            (fz.extract token (keys t.token_owners) opts.fuzzy_threshold
              (max (opts.max_candidates * 3) opts.max_candidates))
            [])))

  unfoldable pub unmapped_mapping : ℕ → String → String → FieldMapping
  unmapped_mapping column raw normalized = record {
    physical_column = column;
    raw_header = raw;
    normalized_header = normalized;
    field_id = none;
    match_type = MatchType.unmapped;
    status = Status.unmapped;
    confidence = none;
    candidates = [];
  }

  -- one owner: accepted, or a duplicate of an earlier column
  unfoldable pub single :
      ℕ → String → String → MatchType → String → Dict String ℕ → FieldMapping × Dict String ℕ
  single column raw normalized kind fid seen = elim (get fid seen) [
    | some _ ↦ (
      record {
        physical_column = column;
        raw_header = raw;
        normalized_header = normalized;
        field_id = some fid;
        match_type = duplicate;
        status = manual_review;
        confidence = some fz.full;
        candidates = [];
      },
      seen,
    )
    | none ↦ (
      record {
        physical_column = column;
        raw_header = raw;
        normalized_header = normalized;
        field_id = some fid;
        match_type = kind;
        status = accepted;
        confidence = some fz.full;
        candidates = [];
      },
      put fid column seen,
    )
  ]

  -- several owners: a human decides
  unfoldable pub several : ℕ → String → String → List String → FieldMapping
  unfolding sorted
  several column raw normalized owners = record {
    physical_column = column;
    raw_header = raw;
    normalized_header = normalized;
    field_id = none;
    match_type = exact;
    status = manual_review;
    confidence = some fz.full;
    candidates = map (λ o. candidate t o normalized fz.full) (sorted str_le owners);
  }

  abbrev pub suggest : ℕ → String → String → List MappingCandidate → FieldMapping
  suggest column raw normalized [] = unmapped_mapping column raw normalized
  suggest column raw normalized (c ∷ cs) = record {
    physical_column = column;
    raw_header = raw;
    normalized_header = normalized;
    field_id = none;
    match_type = fuzzy_suggestion;
    status = manual_review;
    confidence = some c.confidence;
    candidates = c ∷ cs;
  }

  -- by the number of owners
  unfoldable pub by_owners :
      ℕ → String → String → MatchType → List String → Dict String ℕ → FieldMapping × Dict String ℕ
  unfolding single several suggestions unmapped_mapping
  by_owners column raw normalized kind (o ∷ []) seen = single column raw normalized kind o seen
  by_owners column raw normalized kind [] seen =
      (suggest column raw normalized (suggestions (py.casefold normalized)), seen)
  by_owners column raw normalized kind (o ∷ p ∷ os) seen =
      (several column raw normalized (o ∷ p ∷ os), seen)

  -- the body of the loop: the mapping of one column, and the fields accepted so far
  unfoldable pub step : ℕ → String → Dict String ℕ → FieldMapping × Dict String ℕ
  unfolding by_owners
  step column raw seen =
      let normalized = normalize_header py (text raw) in
      let token = py.casefold normalized in
      if contains opts.forced_extra_columns column
      then (unmapped_mapping column raw normalized, seen)
      else elim (get token t.confirmed) [
        | some fid ↦ by_owners column raw normalized confirmed_alias (fid ∷ []) seen
        | none ↦ by_owners column raw normalized exact (get_or token [] t.token_owners) seen
      ]

  unfoldable pub loop : List String → ℕ → Dict String ℕ → List FieldMapping
  unfolding step
  loop [] column seen = []
  loop (raw ∷ rest) column seen =
      let (m, seen') = step column raw seen in m ∷ loop rest (column + 1) seen'
