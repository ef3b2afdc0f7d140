-- ===== src/Ids.antt =====
-- `new_ulid` of ids.py. The clock and the random bits are arguments.
pub mod Order
pub mod Length
use excel_youhua.Prelude.Results.{ok, require, ◌>>◌, Result}
use Prim.Native.String.{String}
use excel_youhua.Prelude.{◌+◌, ◌*◌, ◌^◌, ltb, ◌%◌, ◌/◌, zero, suc, ℕ, String}
use Prim.Native.Char.{Char}
use Prim.Native.String

-- `OverflowError`
pub data Error : Type 0 where
  overflow : Error

-- `_CROCKFORD`
abbrev pub crockford : String
crockford = "0123456789ABCDEFGHJKMNPQRSTVWXYZ"

-- the character at an index that the text has
unfoldable pub symbol_at : String → ℕ → Char
symbol_at String.[] n = "0"
symbol_at (String.◌∷◌ c s) zero = c
symbol_at (String.◌∷◌ c s) (suc n) = symbol_at s n

-- the loop over the indices of `encoded`, from the last on, with the characters behind them
unfoldable pub encode : ℕ → ℕ → String → String
unfolding symbol_at
encode zero value encoded = encoded
encode (suc index) value encoded =
    encode index (value / 32) (String.◌∷◌ (symbol_at crockford (value % 32)) encoded)

-- The bits of `timestamp_ms << 80` and of 80 random ones are apart, so `|` adds the numbers.
unfoldable pub new_ulid : String → ℕ → ℕ → Result Error String
unfolding encode
new_ulid prefix time_ns randbits = do
  let timestamp_ms = time_ns / 1000000
  require (ltb timestamp_ms (2 ^ 48)) overflow
  ok (String.◌++◌ prefix (encode 26 (timestamp_ms * 2 ^ 80 + randbits) ""))
