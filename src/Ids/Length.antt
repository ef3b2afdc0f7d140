-- ===== src/Ids/Length.antt =====
-- How long the identifiers of `new_ulid` are.
use Prim.Native.String.append
use excel_youhua.Prelude.Results.{err, ok}
use excel_youhua.Ids.{overflow, crockford, symbol_at, ℕ, new_ulid, encode}
use Prim.Native.String.{String}
use excel_youhua.Prelude.{
  inr, ltb→lt, ◌*◌, inl, ltb, Bool-cases, ◌≤◌, ◌⊎◌, ◌^◌, zero, arith, ◌∙◌, ◌%◌, ◌<◌, ap, ◌/◌, ◌+◌,
  suc, ◌≡◌, ℕ, String,
}
use Prim.Native.String

-- the number of characters of a text
unfoldable pub len : String → ℕ
len String.[] = 0
len (String.◌∷◌ c s) = suc (len s)

len-append : (s t : String) → len (String.◌++◌ s t) ≡ len s + len t
unfolding len
len-append String.[] t = rw append.nil (omega arith)
len-append (String.◌∷◌ c s) t = rw append.cons (omega (arith, len-append s t))

len-encode :
    (index value : ℕ) (encoded : String) → len (encode index value encoded) ≡ index + len encoded
unfolding len encode
len-encode zero value encoded = omega arith
len-encode (suc index) value encoded =
    len-encode index (value / 32) (String.◌∷◌ (symbol_at crockford (value % 32)) encoded)
    ∙ omega arith

-- Before the millisecond 2 ^ 48 an identifier is made, and it has the prefix and 26 more characters;
-- from then on there is none but the error.
pub new_ulid_bounds :
    (prefix : String) (time_ns randbits : ℕ)
    → ((time_ns / 1000000 < 2 ^ 48)
        × (id : String) × (new_ulid prefix time_ns randbits ≡ ok id)
        × (len id ≡ len prefix + 26))
      ⊎ ((2 ^ 48 ≤ time_ns / 1000000) × (new_ulid prefix time_ns randbits ≡ err overflow))
unfolding new_ulid len
new_ulid_bounds prefix time_ns randbits = elim (Bool-cases (ltb (time_ns / 1000000) (2 ^ 48))) [
  | inl early ↦
      let encoded = encode 26 (time_ns / 1000000 * 2 ^ 80 + randbits) "" in
      inl (
        ltb→lt (time_ns / 1000000) (2 ^ 48) early,
        String.◌++◌ prefix encoded,
        rw (new_ulid, early),
        len-append prefix encoded
            ∙ ap (λ (k : ℕ). len prefix + k)
                (len-encode 26 (time_ns / 1000000 * 2 ^ 80 + randbits) ""),
      )
  | inr late ↦ inr (ground (arith, late), rw (new_ulid, late))
]
