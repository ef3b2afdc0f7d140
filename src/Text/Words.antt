-- ===== src/Text/Words.antt =====
-- The words of a text, and what `normalize_header` does to them (src/excel_auditor/models.py).
use Prim.Native.Char.{Char, code}
use Prim.Native.String.append
use Prim.Native.String
use excel_youhua.Prelude.{
  ℕ, String, true, false, List, [], ◌∷◌, ◌≡◌, refl, arith, ap, sym, ◌∙◌, All, Bool-cases, inl, inr,
  nat_beq, nat_beq_iff, ◌⊎◌,
}
use excel_youhua.Text.Space.{
  is_space, is_empty, Tokens, next_char, add_char, tokens, split, join, lstrip, rstrip,
  replace_char, collapse,
}

-- No character is white space, and there is one.
abbrev pub NoSpace : String → Type 0
NoSpace String.[] = Unit
NoSpace (String.◌∷◌ c s) = (is_space c ≡ false) × NoSpace s

abbrev pub IsWord : String → Type 0
IsWord s = (is_empty s ≡ false) × NoSpace s

abbrev AreTokens : Tokens → Type 0
AreTokens (b, ws) = All IsWord ws

add_char-AreTokens :
    (c : Char) (ts : Tokens) → is_space c ≡ false → AreTokens ts → AreTokens (add_char c ts)
add_char-AreTokens c (true, w ∷ ws) e h = ((refl, (e, h.0.1)), h.1)
add_char-AreTokens c (true, []) e h = ((refl, (e, tt)), tt)
add_char-AreTokens c (false, ws) e h = ((refl, (e, tt)), h)

tokens-AreTokens : (s : String) → AreTokens (tokens s)
unfolding tokens
tokens-AreTokens String.[] = tt
tokens-AreTokens (String.◌∷◌ c s) = elim (Bool-cases (is_space c)) [
  | inl e ↦ rw e (tokens-AreTokens s)
  | inr e ↦ rw e (add_char-AreTokens c (tokens s) e (tokens-AreTokens s))
]

pub split-IsWord : (s : String) → All IsWord (split s)
unfolding split
split-IsWord s = tokens-AreTokens s

space_is_space : is_space " " ≡ true
unfolding is_space
space_is_space = refl

-- A word before white space is a token of its own.
tokens-word :
    (c : Char) (w s : String)
    → is_space c ≡ false
    → NoSpace w
    → tokens (String.◌∷◌ c (String.◌++◌ w (String.◌∷◌ " " s)))
      ≡ (true, String.◌∷◌ c w ∷ (tokens s).1)
unfolding tokens
tokens-word c String.[] s e h = rw (append.nil, e, space_is_space)
tokens-word c (String.◌∷◌ d w) s e h = simp (append.cons, e) (rw (tokens-word d w s h.0 h.1))

tokens-last :
    (c : Char) (w : String)
    → is_space c ≡ false
    → NoSpace w
    → tokens (String.◌∷◌ c w) ≡ (true, String.◌∷◌ c w ∷ [])
unfolding tokens
tokens-last c String.[] e h = rw e
tokens-last c (String.◌∷◌ d w) e h = rw (tokens-last d w h.0 h.1, e)

-- Splitting undoes joining.
pub split-join : (ws : List String) → All IsWord ws → split (join ws) ≡ ws
unfolding split join tokens
split-join [] h = refl
split-join (String.[] ∷ ws) h = ground (arith, h.0.0)
split-join (String.◌∷◌ c w ∷ []) h = ap (λ (t : Tokens). t.1) (tokens-last c w h.0.1.0 h.0.1.1)
split-join (String.◌∷◌ c w ∷ v ∷ ws) h = rw append.cons (
    ap (λ (t : Tokens). t.1) (tokens-word c w (join (v ∷ ws)) h.0.1.0 h.0.1.1)
    ∙ ap (λ (l : List String). String.◌∷◌ c w ∷ l) (split-join (v ∷ ws) h.1))

-- Neither step of `strip` changes the words.
tokens-rstrip : (s : String) → tokens (rstrip s) ≡ tokens s
unfolding tokens rstrip
tokens-rstrip String.[] = refl
tokens-rstrip (String.◌∷◌ c s) = elim (Bool-cases (is_space c)) [
  | inl e ↦ elim (Bool-cases (is_empty (rstrip s))) [
    | inl none_left ↦
        rw (e, none_left)
          (ap (next_char c true) (sym (nothing (rstrip s) none_left) ∙ tokens-rstrip s))
    | inr some_left ↦ rw (e, some_left) (rw (e, tokens-rstrip s))
  ]
  | inr e ↦ rw e (rw (e, tokens-rstrip s))
]
  where
    nothing : (t : String) → is_empty t ≡ true → tokens t ≡ (false, [])
    nothing String.[] h = refl
    nothing (String.◌∷◌ d t) h = cc

split-lstrip : (s : String) → split (lstrip s) ≡ split s
unfolding split lstrip tokens
split-lstrip String.[] = refl
split-lstrip (String.◌∷◌ c s) = elim (Bool-cases (is_space c)) [
  | inl e ↦ ground (arith, e, split-lstrip s)
  | inr e ↦ ground (arith, e)
]

module _ (a : ℕ) (spaces : (c : Char) → code c ≡ a → is_space c ≡ true) where
  tokens-replace_char : (s : String) → tokens (replace_char a " " s) ≡ tokens s
  unfolding tokens replace_char
  tokens-replace_char String.[] = refl
  tokens-replace_char (String.◌∷◌ c s) = elim (Bool-cases (nat_beq (code c) a)) [
    | inl e ↦ rw (e, space_is_space, spaces c ((nat_beq_iff _ _).0 e), tokens-replace_char s)
    | inr e ↦ rw (e, tokens-replace_char s)
  ]

is_space_of_code : (c : Char) → (code c ≡ 10) ⊎ (code c ≡ 13) ⊎ (code c ≡ 160) → is_space c ≡ true
unfolding is_space
is_space_of_code c h = ground arith

-- Collapsing joins the words of the text.
collapse-eq-join : (s : String) → collapse s ≡ join (split s)
unfolding collapse
collapse-eq-join s =
    let r = replace_char 10 " " (replace_char 13 " " (replace_char 160 " " s)) in
    ap (λ (t : Tokens). join t.1) (tokens-rstrip (lstrip r))
    ∙ ap join (split-lstrip r)
    ∙ ap (λ (t : Tokens). join t.1)
        (tokens-replace_char 10 (λ c e. is_space_of_code c (inl e))
            (replace_char 13 " " (replace_char 160 " " s))
          ∙ tokens-replace_char 13 (λ c e. is_space_of_code c (inr (inl e)))
              (replace_char 160 " " s)
          ∙ tokens-replace_char 160 (λ c e. is_space_of_code c (inr (inr e))) s)

-- Collapsing changes no word.
pub split-collapse : (s : String) → split (collapse s) ≡ split s
split-collapse s = rw collapse-eq-join (split-join (split s) (split-IsWord s))
