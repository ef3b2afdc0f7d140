-- ===== src/SourcePaths.antt =====
-- validate_managed_http_path of source_paths.py. `unquote` of urllib is an argument, with no result where
-- it raises, and so is what urlsplit says: whether a text is a path with nothing around it.
pub mod Safe
use excel_youhua.Text.{any_char}
use excel_youhua.Prelude.Results.{◌>>=◌, ok, require, err, ◌>>◌, Result}
use Prim.Native.String.{[], String}
use excel_youhua.Prelude.{
  zero, suc, none, any, some, string_eq, not, ltb, if◌then◌else◌, [], ◌||◌, ◌&&◌, ℕ, ◌==◌, ◌∷◌, leb,
  nat_beq, false, Option, List, Bool, String,
}
use Prim.Native.Char.{Char, code}
use Prim.Native.String

-- The `ValueError`s.
pub data Error : Type 0 where
  origin invalid_percent invalid_utf8 unsafe_path dot_segments repeated_slashes excessive : Error

abbrev pub begins_with_slash : String → Bool
begins_with_slash String.[] = false
begins_with_slash (String.◌∷◌ c s) = nat_beq (code c) b'/'

-- `value.startswith("//")`
abbrev pub begins_with_two : String → Bool
begins_with_two String.[] = false
begins_with_two (String.◌∷◌ c s) = nat_beq (code c) b'/' && begins_with_slash s

abbrev pub is_unsafe : Char → Bool
is_unsafe c =
    nat_beq (code c) 92
    || nat_beq (code c) b'?'
    || nat_beq (code c) b'#'
    || ltb (code c) 32
    || nat_beq (code c) 127

abbrev pub is_percent : Char → Bool
is_percent c = nat_beq (code c) b'%'

-- `[0-9A-Fa-f]`
abbrev pub is_hex : Char → Bool
is_hex c =
    (leb b'0' (code c) && leb (code c) b'9')
    || (leb b'A' (code c) && leb (code c) b'F')
    || (leb b'a' (code c) && leb (code c) b'f')

abbrev pub begins_with_hex : String → Bool
begins_with_hex String.[] = false
begins_with_hex (String.◌∷◌ c String.[]) = false
begins_with_hex (String.◌∷◌ c (String.◌∷◌ d s)) = is_hex c && is_hex d

-- a match of `%(?![0-9A-Fa-f]{2})`
unfoldable pub has_bad_percent : String → Bool
has_bad_percent String.[] = false
has_bad_percent (String.◌∷◌ c s) = (is_percent c && not (begins_with_hex s)) || has_bad_percent s

abbrev pub add_to_first : Char → List String → List String
add_to_first c [] = String.◌∷◌ c "" ∷ []
add_to_first c (w ∷ ws) = String.◌∷◌ c w ∷ ws

-- `value.split("/")`
unfoldable pub segments : String → List String
segments String.[] = "" ∷ []
segments (String.◌∷◌ c s) =
    if nat_beq (code c) b'/' then "" ∷ segments s else add_to_first c (segments s)

abbrev pub is_dot_segment : String → Bool
is_dot_segment s = s == "." || s == ".."

-- an empty text in `segments[1:-1]`, of the segments after the first
abbrev pub has_empty_before_last : List String → Bool
has_empty_before_last [] = false
has_empty_before_last (w ∷ []) = false
has_empty_before_last (w ∷ v ∷ ws) = w == "" || has_empty_before_last (v ∷ ws)

abbrev pub has_repeated_slash : List String → Bool
has_repeated_slash [] = false
has_repeated_slash (w ∷ ws) = has_empty_before_last ws

unfoldable pub validate_decoded_path : String → Result Error (Unit {0})
unfolding segments
validate_decoded_path value = do
  require (begins_with_slash value && not (begins_with_two value) && not (any_char is_unsafe value))
      unsafe_path
  require (not (any is_dot_segment (segments value))) dot_segments
  require (not (has_repeated_slash (segments value))) repeated_slashes

abbrev pub of_unquote : Option String → Result Error String
of_unquote none = err invalid_utf8
of_unquote (some decoded) = ok decoded

module _ (unquote : String → Option String) (is_plain_path : String → Bool) where
  -- the loop over the levels of encoding, and the test behind it
  unfoldable pub check_levels : ℕ → String → String → Result Error String
  unfolding has_bad_percent validate_decoded_path
  check_levels zero current value = if any_char is_percent current then err excessive else ok value
  check_levels (suc depth) current value = do
    require (not (has_bad_percent current)) invalid_percent
    decoded ← of_unquote (unquote current)
    validate_decoded_path decoded
    let rest = check_levels depth decoded value
    if decoded == current then ok value else rest

  unfoldable pub validate_managed_http_path : String → Result Error String
  unfolding check_levels
  validate_managed_http_path value = do
    require (begins_with_slash value && not (begins_with_two value) && is_plain_path value) origin
    check_levels 4 value value
