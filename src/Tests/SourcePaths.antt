-- ===== src/Tests/SourcePaths.antt =====
-- Paths that are encoded twice, and one that would leave its directory.
use excel_youhua.Text.{any_char}
use excel_youhua.Prelude.Results.{ok, err}
use excel_youhua.SourcePaths.Safe.{
  validate_managed_http_path_accepts, validate_managed_http_path-IsSafePath, IsSafePath,
  decode_times,
}
use excel_youhua.SourcePaths.{segments, dot_segments, is_percent, validate_managed_http_path}
use excel_youhua.Prelude.{
  inr, ap, eq_iff, arith, inl, refl, Bool-cases, string_eq, some, false, ◌==◌, true, if◌then◌else◌,
  ◌≡◌, Bool, Option, String,
}

abbrev unquote : String → Option String
unquote s =
    if s == "/a/%2562"
    then some "/a/%62"
    else if s == "/a/%62"
    then some "/a/b"
    else if s == "/a/%2e%2e/b"
    then some "/a/../b"
    else some s

abbrev no_more : String → Bool
no_more s = true

differs :
    (s t : String) → any_char is_percent s ≡ false → any_char is_percent t ≡ true → (s == t) ≡ false
differs s t h k = elim (Bool-cases (s == t)) [
  | inl same ↦
      absurd (
        ground (arith, h, k, eq_iff s t, ap (any_char is_percent) ((string_eq.beq_iff s t).0 same)))
  | inr other ↦ other
]

unquote_plain : (s : String) → any_char is_percent s ≡ false → unquote s ≡ some s
unquote_plain s h =
    rw (differs s "/a/%2562" h refl, differs s "/a/%62" h refl, differs s "/a/%2e%2e/b" h refl) refl

validate_managed_http_path-IsSafePath_example :
    (◌≡◌ {A = String} "/a/%2562" "/a/%2562")
    × (path : String) × (decode_times unquote 3 "/a/%2562" ≡ some path)
    × IsSafePath path
unfolding validate_managed_http_path
validate_managed_http_path-IsSafePath_example =
    validate_managed_http_path-IsSafePath unquote no_more unquote_plain "/a/%2562" 2 refl

parent_refused : validate_managed_http_path unquote no_more "/a/%2e%2e/b" ≡ err dot_segments
unfolding validate_managed_http_path
parent_refused = refl

validate_managed_http_path_accepts_example :
    validate_managed_http_path unquote no_more "/products/list" ≡ ok "/products/list"
unfolding segments
validate_managed_http_path_accepts_example =
    validate_managed_http_path_accepts unquote no_more unquote_plain "/products/list"
      (refl, refl, refl, refl) refl refl refl
