-- ===== src/Tests/Ids.antt =====
-- Identifiers of two milliseconds.
use excel_youhua.Ids.Length.{new_ulid_bounds, len}
use excel_youhua.Ids.Order.{new_ulid_sorted, str_lt, new_ulid_unique}
use excel_youhua.Prelude.Results.{err, ok}
use excel_youhua.Ids.{overflow, new_ulid}
use excel_youhua.Prelude.{ℕ, ◌≤◌, ◌⊎◌, true, ◌+◌, refl, arith, ◌^◌, ◌≡◌, ◌<◌, String, ◌/◌}

new_ulid_bounds_example :
    ((1700000000123456789 / 1000000 < 2 ^ 48)
      × (id : String) × (new_ulid "job_" 1700000000123456789 77 ≡ ok id)
      × (len id ≡ len "job_" + 26))
    ⊎ ((2 ^ 48 ≤ 1700000000123456789 / 1000000)
        × (new_ulid "job_" 1700000000123456789 77 ≡ err overflow))
new_ulid_bounds_example = new_ulid_bounds "job_" 1700000000123456789 77

new_ulid_sorted_example :
    (id : String) × (id' : String) × (new_ulid "job_" 1700000000123456789 99 ≡ ok id)
    × (new_ulid "job_" 1700000000124456789 7 ≡ ok id')
    × (str_lt id id' ≡ true)
new_ulid_sorted_example =
    new_ulid_sorted "job_" 1700000000123456789 1700000000124456789 99 7 (omega arith) (omega arith)
      (omega arith) (omega arith)

new_ulid_unique_example :
    (◌≡◌ {A = ℕ} (1700000000123456789 / 1000000) (1700000000123999999 / 1000000))
    × (◌≡◌ {A = ℕ} 77 77)
unfolding new_ulid
new_ulid_unique_example =
    new_ulid_unique "job_" "job_01HF7YAT3V000000000000002D" 1700000000123456789 1700000000123999999
      77 77 (omega arith) (omega arith) refl refl

-- the identifier of a fixed time and fixed bits
new_ulid_run : new_ulid "job_" 1700000000123456789 77 ≡ ok "job_01HF7YAT3V000000000000002D"
unfolding new_ulid
new_ulid_run = refl
