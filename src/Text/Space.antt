-- ===== src/Text/Space.antt =====
-- Python's white space, and the string methods that `normalize_header` calls.
use Prim.Native.Char.{Char, code}
use Prim.Native.String.{◌∷◌ as ◌∷∷◌}
use Prim.Native.String
use excel_youhua.Prelude.{
  ℕ, String, Bool, true, false, ◌||◌, ◌&&◌, List, [], ◌∷◌, leb, if◌then◌else◌, nat_beq, ◌≡◌, refl,
}

-- `str.isspace`, by code point.
is_space_code : ℕ → Bool
is_space_code n =
    (leb 9 n && leb n 13)
    || (leb 28 n && leb n 32)
    || nat_beq n 133
    || nat_beq n 160
    || nat_beq n 5760
    || (leb 8192 n && leb n 8202)
    || nat_beq n 8232
    || nat_beq n 8233
    || nat_beq n 8239
    || nat_beq n 8287
    || nat_beq n 12288

unfoldable pub is_space : Char → Bool
unfolding is_space_code
is_space c = is_space_code (code c)

-- `any(test(character) for character in text)`
abbrev pub any_char : (Char → Bool) → String → Bool
any_char test String.[] = false
any_char test (String.◌∷◌ c s) = test c || any_char test s

abbrev pub is_empty : String → Bool
is_empty String.[] = true
is_empty (String.◌∷◌ c s) = false

-- The words of a text from its end; the flag tells whether the first word begins the text.
abbrev pub Tokens : Type 0
Tokens = Bool × List String

abbrev pub add_char : Char → Tokens → Tokens
add_char c (true, w ∷ ws) = (true, String.◌∷◌ c w ∷ ws)
add_char c (b, ws) = (true, String.◌∷◌ c String.[] ∷ ws)

abbrev pub next_char : Char → Bool → Tokens → Tokens
next_char c true ts = (false, ts.1)
next_char c false ts = add_char c ts

unfoldable pub tokens : String → Tokens
tokens String.[] = (false, [])
tokens (String.◌∷◌ c s) = next_char c (is_space c) (tokens s)

-- `text.split()`
unfoldable pub split : String → List String
split s = (tokens s).1

-- `" ".join(words)`
unfoldable pub join : List String → String
join [] = ""
join (w ∷ []) = w
join (w ∷ v ∷ ws) = String.◌++◌ w (String.◌∷◌ " " (join (v ∷ ws)))

-- `text.strip()`
unfoldable pub lstrip : String → String
lstrip String.[] = ""
lstrip (String.◌∷◌ c s) = let rest = lstrip s in if is_space c then rest else String.◌∷◌ c s

unfoldable pub rstrip : String → String
rstrip String.[] = ""
rstrip (String.◌∷◌ c s) =
    let rest = rstrip s in if is_space c && is_empty rest then "" else String.◌∷◌ c rest

unfoldable pub strip : String → String
unfolding lstrip rstrip
strip s = rstrip (lstrip s)

-- `text.replace(a, b)` for two characters
unfoldable pub replace_char : ℕ → Char → String → String
replace_char a b String.[] = ""
replace_char a b (String.◌∷◌ c s) =
    String.◌∷◌ (if nat_beq (code c) a then b else c) (replace_char a b s)

-- The white space steps of `normalize_header`, after NFKC.
unfoldable pub collapse : String → String
unfolding replace_char strip split join is_space tokens
collapse s =
    join (split (strip (replace_char 10 " " (replace_char 13 " " (replace_char 160 " " s)))))

collapse_runs : collapse "  a \n b\u{a0}c  " ≡ "a b c"
unfolding collapse
collapse_runs = refl
