-- ===== src/Ids/Order.antt =====
-- The order of the identifiers of `new_ulid` is that of their times.
use excel_youhua.Prelude.Results.{ok}
use Prim.Native.String.append
use excel_youhua.Ids.Length.{len}
use excel_youhua.Ids.{ltb, crockford, suc, new_ulid, encode, symbol_at}
use excel_youhua.Prelude.{
  sym, inr, ◌∙◌, ltb→lt, nat_beq, ◌+◌, inl, ◌||◌, Bool-cases, ◌%◌, refl, zero, ◌&&◌, ltb, ◌/◌,
  arith, ◌*◌, true, false, ◌<◌, ◌≡◌, Bool, ◌^◌, ℕ, String,
}
use Prim.Native.Char.{Char, code}
use Prim.Native.String

-- `<` of Python's texts, by code point
unfoldable pub str_lt : String → String → Bool
str_lt String.[] String.[] = false
str_lt String.[] (String.◌∷◌ d t) = true
str_lt (String.◌∷◌ c s) String.[] = false
str_lt (String.◌∷◌ c s) (String.◌∷◌ d t) =
    ltb (code c) (code d) || (nat_beq (code c) (code d) && str_lt s t)

-- all characters of a text are above one
above : Char → String → Bool
above c String.[] = true
above c (String.◌∷◌ d s) = ltb (code c) (code d) && above c s

ascending : String → Bool
ascending String.[] = true
ascending (String.◌∷◌ c s) = above c s && ascending s

above-symbol_at :
    (c : Char) (s : String) (n : ℕ) → above c s ≡ true → n < len s → code c < code (symbol_at s n)
unfolding above symbol_at len
above-symbol_at c String.[] n h lt = absurd (omega arith)
above-symbol_at c (String.◌∷◌ d s) zero h lt = ground arith
above-symbol_at c (String.◌∷◌ d s) (suc n) h lt = ground (arith, above-symbol_at c s n)

-- A character further on in an ascending text is higher.
symbol_at-lt :
    (s : String) (m n : ℕ)
    → ascending s ≡ true
    → m < n
    → n < len s
    → code (symbol_at s m) < code (symbol_at s n)
unfolding ascending symbol_at len
symbol_at-lt String.[] m n h lt within = absurd (omega arith)
symbol_at-lt (String.◌∷◌ c s) m zero h lt within = absurd (omega arith)
symbol_at-lt (String.◌∷◌ c s) zero (suc n) h lt within = ground (arith, above-symbol_at c s n)
symbol_at-lt (String.◌∷◌ c s) (suc m) (suc n) h lt within = ground (arith, symbol_at-lt s m n)

crockford-lt :
    (m n : ℕ) → m < n → n < 32 → code (symbol_at crockford m) < code (symbol_at crockford n)
unfolding ascending above len
crockford-lt m n lt within = symbol_at-lt crockford m n refl lt within

-- the numbers that so many characters can hold
unfoldable pub capacity : ℕ → ℕ
capacity zero = 1
capacity (suc n) = capacity n * 32

-- Encoding keeps the order, and that of the characters behind where the numbers are the same.
encode-same :
    (index value : ℕ) (s t : String)
    → str_lt s t ≡ true
    → str_lt (encode index value s) (encode index value t) ≡ true
unfolding encode str_lt
encode-same zero value s t h = h
encode-same (suc index) value s t h =
    let c = symbol_at crockford (value % 32) in
    encode-same index (value / 32) (String.◌∷◌ c s) (String.◌∷◌ c t) (ground arith)

encode-lt :
    (index a b : ℕ) (s t : String)
    → a < b
    → b < capacity index
    → str_lt (encode index a s) (encode index b t) ≡ true
unfolding encode str_lt capacity
encode-lt zero a b s t lt within = absurd (omega arith)
encode-lt (suc index) a b s t lt within = elim (Bool-cases (ltb (a / 32) (b / 32))) [
  | inl less ↦
      encode-lt index (a / 32) (b / 32) (String.◌∷◌ (symbol_at crockford (a % 32)) s)
        (String.◌∷◌ (symbol_at crockford (b % 32)) t) (ltb→lt (a / 32) (b / 32) less) (omega arith)
  | inr same ↦
      let quotients : a / 32 ≡ b / 32 = ground arith in
      let first = crockford-lt (a % 32) (b % 32) (omega arith) (omega arith) in
      rw quotients (
        encode-same index (b / 32) (String.◌∷◌ (symbol_at crockford (a % 32)) s)
          (String.◌∷◌ (symbol_at crockford (b % 32)) t) (ground arith))
]

str_lt-prefix :
    (prefix s t : String) → str_lt (String.◌++◌ prefix s) (String.◌++◌ prefix t) ≡ str_lt s t
unfolding str_lt
str_lt-prefix String.[] s t = rw (append.nil s, append.nil t) refl
str_lt-prefix (String.◌∷◌ c prefix) s t =
    rw (append.cons c prefix s, append.cons c prefix t) (ground (arith, str_lt-prefix prefix s t))

-- An identifier of a later millisecond is greater, whatever the random bits are.
pub new_ulid_sorted :
    (prefix : String) (earlier later randbits randbits' : ℕ)
    → randbits < 2 ^ 80
    → randbits' < 2 ^ 80
    → earlier / 1000000 < later / 1000000
    → later / 1000000 < 2 ^ 48
    → (id : String) × (id' : String) × (new_ulid prefix earlier randbits ≡ ok id)
      × (new_ulid prefix later randbits' ≡ ok id')
      × (str_lt id id' ≡ true)
unfolding new_ulid capacity
new_ulid_sorted prefix earlier later randbits randbits' small small' lt within =
    let value = earlier / 1000000 * 2 ^ 80 + randbits in
    let value' = later / 1000000 * 2 ^ 80 + randbits' in
    (
      String.◌++◌ prefix (encode 26 value ""),
      String.◌++◌ prefix (encode 26 value' ""),
      ground arith,
      ground arith,
      str_lt-prefix prefix (encode 26 value "") (encode 26 value' "")
          ∙ encode-lt 26 value value' "" "" (omega arith) (omega arith),
    )

str_lt-same : (s : String) → str_lt s s ≡ false
unfolding str_lt
str_lt-same String.[] = refl
str_lt-same (String.◌∷◌ c s) = ground (arith, str_lt-same s)

not_less :
    (prefix : String) (a b : ℕ)
    → b < capacity 26
    → String.◌++◌ prefix (encode 26 a "") ≡ String.◌++◌ prefix (encode 26 b "")
    → ltb a b ≡ false
not_less prefix a b within same = elim (Bool-cases (ltb a b)) [
  | inl less ↦
      let apart = encode-lt 26 a b "" "" (ltb→lt a b less) within in
      let order = str_lt-prefix prefix (encode 26 a "") (encode 26 b "") in
      absurd (cc (str_lt-same (String.◌++◌ prefix (encode 26 b ""))))
  | inr other ↦ other
]

inversion :
    (prefix : String) (time_ns randbits : ℕ) {id : String}
    → new_ulid prefix time_ns randbits ≡ ok id
    → (time_ns / 1000000 < 2 ^ 48)
      × (String.◌++◌ prefix (encode 26 (time_ns / 1000000 * 2 ^ 80 + randbits) "") ≡ id)
unfolding new_ulid
inversion prefix time_ns randbits h = ground arith

-- One identifier with one prefix is made in one millisecond and from the same random bits.
pub new_ulid_unique :
    (prefix id : String) (time_ns time_ns' randbits randbits' : ℕ)
    → randbits < 2 ^ 80
    → randbits' < 2 ^ 80
    → new_ulid prefix time_ns randbits ≡ ok id
    → new_ulid prefix time_ns' randbits' ≡ ok id
    → (time_ns / 1000000 ≡ time_ns' / 1000000) × (randbits ≡ randbits')
unfolding capacity
new_ulid_unique prefix id time_ns time_ns' randbits randbits' small small' h h' =
    let value = time_ns / 1000000 * 2 ^ 80 + randbits in
    let value' = time_ns' / 1000000 * 2 ^ 80 + randbits' in
    let (within, made) = inversion prefix time_ns randbits h in
    let (within', made') = inversion prefix time_ns' randbits' h' in
    let above = not_less prefix value value' (omega arith) (made ∙ sym made') in
    let below = not_less prefix value' value (omega arith) (made' ∙ sym made) in
    let same : value ≡ value' = ground arith in (omega arith, omega arith)
