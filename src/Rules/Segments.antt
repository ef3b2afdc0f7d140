-- ===== src/Rules/Segments.antt =====
-- `_safe_segment` of rules.py, and the errors of its registries.
use Prim.Native.Char.{code}
use excel_youhua.Prelude.Results.{ok, err, Result}
use excel_youhua.Prelude.{
  none, some, Option, string_eq, not, nat_beq, ◌&&◌, ◌==◌, true, ◌||◌, leb, if◌then◌else◌, Bool,
  ◌∷◌, [], ℕ, List, String, ◌↔◌, ◌≡◌, arith, eq_iff, Eq,
}

-- `ValueError` of an identifier, `FileExistsError`, `FileNotFoundError`, `ValueError` of a draft that is
-- published, of one that is for another schema, of a field that is not one column, and pydantic's
-- refusal of a document
pub data Error : Type 0 where
  unsafe exists not_found immutable mismatch unresolved invalid : Error

abbrev pub codes : String → List ℕ
codes String.[] = []
codes (String.◌∷◌ c s) = code c ∷ codes s

abbrev pub between : ℕ → ℕ → ℕ → Bool
between low high c = leb low c && leb c high

-- the characters that are allowed in an identifier
abbrev pub is_safe : ℕ → Bool
is_safe c =
    between b'a' b'z' c
    || between b'A' b'Z' c
    || between b'0' b'9' c
    || nat_beq c b'-'
    || nat_beq c b'_'
    || nat_beq c b'.'

abbrev pub all_safe : List ℕ → Bool
all_safe [] = true
all_safe (c ∷ cs) = is_safe c && all_safe cs

unfoldable pub safe_segment : String → Result Error String
safe_segment value = if value == "" || not (all_safe (codes value)) then err unsafe else ok value

-- what follows a prefix
abbrev pub after_prefix : String → String → Option String
after_prefix String.[] s = some s
after_prefix (String.◌∷◌ c prefix) String.[] = none
after_prefix (String.◌∷◌ c prefix) (String.◌∷◌ d s) =
    let rest = after_prefix prefix s in if nat_beq (code c) (code d) then rest else none

abbrev pub path_beq : String × String → String × String → Bool
path_beq a b = a.0 == b.0 && a.1 == b.1

pub path_beq_iff : (a b : String × String) → (path_beq a b ≡ true) ↔ (a ≡ b)
path_beq_iff a b = (
  λ h. ground (arith, eq_iff a.0 b.0, eq_iff a.1 b.1),
  λ h. ground (arith, eq_iff a.0 b.0, eq_iff a.1 b.1),
)

-- a directory and the name of a file in it
instance abbrev pub path_eq : Eq (String × String)
path_eq = record { beq = path_beq; beq_iff = path_beq_iff }
