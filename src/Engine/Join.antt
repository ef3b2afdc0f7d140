-- ===== src/Engine/Join.antt =====
-- Which keys stand on one side only and which on both (engine.py, the in-memory join of
-- `_compare_records`).
use excel_youhua.Prelude.{String, Bool, not, List, Eq, keep, contains}
use excel_youhua.Prelude.Sorting.{sorted}
use excel_youhua.Product.Models.{str_le}

-- `excel_only`, `standard_only` and `matched_keys`
pub record KeyJoin {ℓ} (K : Type ℓ) : Type ℓ where
  pub excel_only : List K
  pub standard_only : List K
  pub matched_keys : List K

module _ {ℓ} {K : Type ℓ} ⦃e : Eq K⦄ (key_str : K → String) where
  -- `sorted(…, key=str)`
  abbrev pub key_le : K → K → Bool
  key_le a b = str_le (key_str a) (key_str b)

  unfoldable pub join_keys : List K → List K → KeyJoin K
  unfolding sorted
  join_keys excel standard = record {
    excel_only = sorted key_le (keep (λ k. not (contains standard k)) excel);
    standard_only = sorted key_le (keep (λ k. not (contains excel k)) standard);
    matched_keys = sorted key_le (keep (contains standard) excel);
  }
