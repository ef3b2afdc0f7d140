-- ===== src/SourcePaths/Safe.antt =====
-- A path that validate_managed_http_path lets through stays safe, however often it is decoded.
use excel_youhua.Prelude.Equality.{beq_refl}
use excel_youhua.Prelude.Results.{require, >>=-eq-ok, ok}
use excel_youhua.SourcePaths.{
  has_repeated_slash, invalid_percent, has_bad_percent, origin, segments, is_dot_segment,
  of_unquote, is_percent, is_unsafe, any_char, validate_managed_http_path, check_levels,
  begins_with_two, begins_with_slash, validate_decoded_path,
}
use Prim.Native.String.{String}
use excel_youhua.Prelude.{
  string_eq, eq_iff, Bool-cases, ◌==◌, if◌then◌else◌, not, ◌&&◌, inr, inl, refl, any, ◌⊎◌, zero,
  none, false, suc, arith, some, Bool, true, ℕ, ◌≡◌, Option, String,
}

-- the text after so many calls of `unquote`
abbrev pub decode_times : (String → Option String) → ℕ → String → Option String
decode_times unquote zero s = some s
decode_times unquote (suc n) s = elim (unquote s) [
  | none ↦ none
  | some decoded ↦ decode_times unquote n decoded
]

-- a path from the root, without `\`, `?`, `#`, control characters and dot segments
abbrev pub IsSafePath : String → Type 0
IsSafePath path =
    (begins_with_slash path ≡ true)
    × (begins_with_two path ≡ false)
    × (any_char is_unsafe path ≡ false)
    × (any is_dot_segment (segments path) ≡ false)

validate_decoded_path-IsSafePath :
    (path : String) → validate_decoded_path path ≡ ok tt → IsSafePath path
unfolding validate_decoded_path
validate_decoded_path-IsSafePath path h = (ground arith, ground arith, ground arith, ground arith)

module _ (unquote : String → Option String) (is_plain_path : String → Bool) where
  decode_times-fixed : (n : ℕ) (s : String) → unquote s ≡ some s → decode_times unquote n s ≡ some s
  decode_times-fixed zero s h = refl
  decode_times-fixed (suc n) s h = rw (decode_times, h) (decode_times-fixed n s h)

  -- One level: it decodes to a safe path, and that is the last one or is checked further.
  check_levels-step :
      (depth : ℕ) (current value : String) {out : String}
      → check_levels unquote is_plain_path (suc depth) current value ≡ ok out
      → (decoded : String) × (unquote current ≡ some decoded)
        × IsSafePath decoded
        × (((decoded ≡ current) × (out ≡ value))
            ⊎ (check_levels unquote is_plain_path depth decoded value ≡ ok out))
  unfolding check_levels
  check_levels-step depth current value h =
      let (_, _, rest) = >>=-eq-ok (require (not (has_bad_percent current)) invalid_percent) _ h in
      let (decoded, found, rest2) = >>=-eq-ok (of_unquote (unquote current)) _ rest in
      let (_, safe, rest3) = >>=-eq-ok (validate_decoded_path decoded) _ rest2 in
      (
        decoded,
        of_unquote-ok (unquote current) found,
        validate_decoded_path-IsSafePath decoded safe,
        last_or_further decoded rest3,
      )
    where
      of_unquote-ok : (o : Option String) {d : String} → of_unquote o ≡ ok d → o ≡ some d
      of_unquote-ok none e = cc
      of_unquote-ok (some d) e = cc

      last_or_further :
          (decoded : String) {out : String}
          → (if decoded == current
              then ok value
              else check_levels unquote is_plain_path depth decoded value)
            ≡ ok out
          → ((decoded ≡ current) × (out ≡ value))
            ⊎ (check_levels unquote is_plain_path depth decoded value ≡ ok out)
      last_or_further decoded e = elim (Bool-cases (decoded == current)) [
        | inl same ↦ inl (ground (arith, eq_iff decoded current), ground arith)
        | inr other ↦ inr (rw other at e)
      ]

  check_levels-IsSafePath :
      ((s : String) → any_char is_percent s ≡ false → unquote s ≡ some s)
      → (depth : ℕ) (current value : String) {out : String} → IsSafePath current
      → check_levels unquote is_plain_path depth current value ≡ ok out
      → (out ≡ value)
        × ((n : ℕ)
            → (path : String) × (decode_times unquote n current ≡ some path) × IsSafePath path)
  unfolding check_levels
  check_levels-IsSafePath plain zero current value safe h =
      let done : any_char is_percent current ≡ false = ground arith in
      (ground arith, λ n. (current, decode_times-fixed n current (plain current done), safe))
  check_levels-IsSafePath plain (suc depth) current value {out} safe h =
      let (decoded, found, good, or) = check_levels-step depth current value h in
      elim or [
        | inl (same, kept) ↦ (kept, λ n. (current, decode_times-fixed n current (cc), safe))
        | inr further ↦
            let (kept, later) = check_levels-IsSafePath plain depth decoded value good further in
            (kept, λ n. below decoded n found later)
      ]
    where
      below :
          (decoded : String) (n : ℕ)
          → unquote current ≡ some decoded
          → ((n : ℕ)
              → (path : String) × (decode_times unquote n decoded ≡ some path) × IsSafePath path)
          → (path : String) × (decode_times unquote n current ≡ some path) × IsSafePath path
      below decoded zero found later = (current, refl, safe)
      below decoded (suc n) found later =
          let (path, e, good) = later n in (path, rw (decode_times, found) e, good)

  -- If `unquote` leaves a text without `%` as it is, a path that is let through is returned unchanged,
  -- and it decodes to a path from the root without dot segments, unsafe characters or a second `/` at
  -- its start, however often it is decoded.
  pub validate_managed_http_path-IsSafePath :
      ((s : String) → any_char is_percent s ≡ false → unquote s ≡ some s)
      → (value : String) (n : ℕ) {out : String}
      → validate_managed_http_path unquote is_plain_path value ≡ ok out
      → (out ≡ value)
        × (path : String) × (decode_times unquote (suc n) value ≡ some path)
        × IsSafePath path
  unfolding validate_managed_http_path
  validate_managed_http_path-IsSafePath plain value n h =
      let (_, _, rest) =
        >>=-eq-ok
          (require (begins_with_slash value && not (begins_with_two value) && is_plain_path value)
            origin)
          _ h in
      let (decoded, found, good, or) = check_levels-step 3 value value rest in
      elim or [
        | inl (same, kept) ↦
            (kept, decoded, rw (decode_times, found) (decode_times-fixed n decoded (cc)), good)
        | inr further ↦
            let (kept, later) = check_levels-IsSafePath plain 3 decoded value good further in
            let (path, e, safe) = later n in (kept, path, rw (decode_times, found) e, safe)
      ]

  no_bad_percent : (s : String) → any_char is_percent s ≡ false → has_bad_percent s ≡ false
  unfolding has_bad_percent
  no_bad_percent String.[] h = refl
  no_bad_percent (String.◌∷◌ c s) h = ground (arith, no_bad_percent s)

  validate_decoded_path_accepts :
      (path : String)
      → IsSafePath path
      → has_repeated_slash (segments path) ≡ false
      → validate_decoded_path path ≡ ok tt
  unfolding validate_decoded_path
  validate_decoded_path_accepts path (slash, two, chars, dots) repeated =
      rw (validate_decoded_path, slash, two, chars, dots, repeated) refl

  -- If `unquote` leaves a text without `%` as it is, a safe path without `%` and without two slashes next
  -- to each other, which urlsplit takes for a path alone, is let through.
  pub validate_managed_http_path_accepts :
      ((s : String) → any_char is_percent s ≡ false → unquote s ≡ some s)
      → (value : String) → IsSafePath value
      → has_repeated_slash (segments value) ≡ false
      → any_char is_percent value ≡ false
      → is_plain_path value ≡ true
      → validate_managed_http_path unquote is_plain_path value ≡ ok value
  unfolding validate_managed_http_path check_levels
  validate_managed_http_path_accepts plain value safe repeated percent alone =
      let decoded = validate_decoded_path_accepts value safe repeated in
      let fine = no_bad_percent value percent in
      let same = beq_refl value in
      rw
        (
          validate_managed_http_path,
          check_levels,
          safe.0,
          safe.1,
          alone,
          fine,
          plain value percent,
          decoded,
          same,
        )
        refl
