-- ===== src/Tds/ToBytes/Laws.antt =====
-- Reading the bytes of a number gives the number back, and they are bytes.
use sqlum_ai.Common.{ℕ, zero, suc, ◌-◌, ◌/◌, ◌^◌, ◌<◌, ◌≡◌, refl, ap, some, length, All, arith}
use sqlum_ai.Common.Integers.{ℤ}
use sqlum_ai.Tds.Utf16.{Bytes, IsByte}
use sqlum_ai.Tds.ToBytes.{le_bytes, unsigned_bytes, signed_bytes, from_le, from_signed}

pub length-le_bytes : (k n : ℕ) → length (le_bytes k n) ≡ k
unfolding le_bytes
length-le_bytes zero n = refl
length-le_bytes (suc k) n = ap suc (length-le_bytes k (n / 256))

pub le_bytes-IsByte : (k n : ℕ) → All IsByte (le_bytes k n)
unfolding le_bytes
le_bytes-IsByte zero n = tt
le_bytes-IsByte (suc k) n = (omega arith, le_bytes-IsByte k (n / 256))

pub from_le-le_bytes : (k n : ℕ) → n < 256 ^ k → from_le (le_bytes k n) ≡ n
unfolding le_bytes from_le
from_le-le_bytes zero n h = omega arith
from_le-le_bytes (suc k) n h = omega (arith, from_le-le_bytes k (n / 256) (omega arith))

pub signed_bytes-IsByte : (k : ℕ) (z : ℤ) (b : Bytes) → signed_bytes k z ≡ some b → All IsByte b
unfolding signed_bytes
signed_bytes-IsByte k (ℤ.pos n) b h = ground (arith, le_bytes-IsByte k n)
signed_bytes-IsByte k (ℤ.negsuc n) b h = ground (arith, le_bytes-IsByte k (256 ^ k - suc n))

pub unsigned_bytes-IsByte : (k : ℕ) (z : ℤ) (b : Bytes) → unsigned_bytes k z ≡ some b → All IsByte b
unfolding unsigned_bytes
unsigned_bytes-IsByte k (ℤ.pos n) b h = ground (arith, le_bytes-IsByte k n)
unsigned_bytes-IsByte k (ℤ.negsuc n) b h = cc

pub length-signed_bytes : (k : ℕ) (z : ℤ) (b : Bytes) → signed_bytes k z ≡ some b → length b ≡ k
unfolding signed_bytes
length-signed_bytes k (ℤ.pos n) b h = ground (arith, length-le_bytes k n)
length-signed_bytes k (ℤ.negsuc n) b h = ground (arith, length-le_bytes k (256 ^ k - suc n))

-- a number that fits into some bytes is read back from them
pub from_signed-signed_bytes :
    (k : ℕ) (z : ℤ) (b : Bytes) → signed_bytes k z ≡ some b → from_signed b ≡ z
unfolding signed_bytes from_signed
from_signed-signed_bytes k (ℤ.pos n) b h = ground (arith, length-le_bytes k n, from_le-le_bytes k n)
from_signed-signed_bytes k (ℤ.negsuc n) b h =
    ground (arith, length-le_bytes k (256 ^ k - suc n), from_le-le_bytes k (256 ^ k - suc n))

pub length-unsigned_bytes :
    (k n : ℕ) (b : Bytes) → unsigned_bytes k (ℤ.pos n) ≡ some b → length b ≡ k
unfolding unsigned_bytes
length-unsigned_bytes k n b h = ground (arith, length-le_bytes k n)

pub from_le-unsigned_bytes :
    (k n : ℕ) (b : Bytes) → unsigned_bytes k (ℤ.pos n) ≡ some b → from_le b ≡ n
unfolding unsigned_bytes
from_le-unsigned_bytes k n b h = ground (arith, from_le-le_bytes k n)
