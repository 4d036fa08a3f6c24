-- ===== src/Tds/ToBytes.antt =====
-- `int.to_bytes` with byteorder="little", and the number that little-endian bytes stand for.
pub mod Laws
use sqlum_ai.Common.{
  ℕ, zero, suc, ◌+◌, ◌-◌, ◌*◌, ◌/◌, ◌%◌, ◌^◌, Option, none, some, [], ◌∷◌, ltb, length,
  if◌then◌else◌,
}
use sqlum_ai.Common.Integers.{ℤ}
use sqlum_ai.Tds.Utf16.{Bytes}

unfoldable pub le_bytes : ℕ → ℕ → Bytes
le_bytes zero n = []
le_bytes (suc k) n = (n % 256) ∷ le_bytes k (n / 256)

-- `z.to_bytes(k, byteorder="little", signed=False)`; `none` is the OverflowError
unfoldable pub unsigned_bytes : ℕ → ℤ → Option Bytes
unfolding le_bytes
unsigned_bytes k (ℤ.pos n) = if ltb n (256 ^ k) then some (le_bytes k n) else none
unsigned_bytes k (ℤ.negsuc n) = none

-- `z.to_bytes(k, byteorder="little", signed=True)`: two's complement
unfoldable pub signed_bytes : ℕ → ℤ → Option Bytes
unfolding le_bytes
signed_bytes k (ℤ.pos n) = if ltb n (256 ^ k / 2) then some (le_bytes k n) else none
signed_bytes k (ℤ.negsuc n) =
    if ltb n (256 ^ k / 2) then some (le_bytes k (256 ^ k - suc n)) else none

-- the number of little-endian bytes
unfoldable pub from_le : Bytes → ℕ
from_le [] = 0
from_le (b ∷ s) = b + 256 * from_le s

-- the number of little-endian bytes in two's complement
unfoldable pub from_signed : Bytes → ℤ
unfolding from_le
from_signed s =
    if ltb (from_le s) (256 ^ length s / 2)
    then ℤ.pos (from_le s)
    else ℤ.negsuc (256 ^ length s - 1 - from_le s)
