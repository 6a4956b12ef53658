-- ===== src/Net/Bytes.antt =====
-- Object representations on the hosts that the Dockerfile builds for: little endian, 8-bit bytes.
-- A byte is a number below 256. `le n v` are the bytes of the `n`-byte unsigned integer `v`.
use native.Mathlib.Nat.{pow-suc}
use log_grid.Base.{
  All, List, [], arith, length, refl, suc, zero, ℕ, ◌%◌, ◌*◌, ◌+◌, ◌/◌, ◌<◌, ◌^◌, ◌∷◌, ◌≡◌,
}

unfoldable pub le : ℕ → ℕ → List ℕ
le zero v = []
le (suc n) v = (v % 256) ∷ le n (v / 256)

unfoldable pub from_le : List ℕ → ℕ
from_le [] = 0
from_le (b ∷ bs) = b + 256 * from_le bs

pub length-le : (n v : ℕ) → length (le n v) ≡ n
unfolding le
length-le zero v = refl
length-le (suc n) v = omega (arith, length-le n (v / 256))

-- Reading back the bytes of an integer that fits gives the integer.
pub from_le-le : (n v : ℕ) → v < 256 ^ n → from_le (le n v) ≡ v
unfolding le from_le
from_le-le zero v h = omega arith
from_le-le (suc n) v h =
    let small : v / 256 < 256 ^ n = omega (arith, pow-suc 256 n) in
    omega (arith, from_le-le n (v / 256) small)

abbrev pub IsByte : ℕ → Type 0
IsByte b = b < 256

pub le-IsByte : (n v : ℕ) → All IsByte (le n v)
unfolding le
le-IsByte zero v = tt
le-IsByte (suc n) v = (omega arith, le-IsByte n (v / 256))

-- Any four bytes hold some integer below 2 ^ 32; in general `n` bytes one below 256 ^ n.
pub from_le-lt : (bs : List ℕ) → All IsByte bs → from_le bs < 256 ^ length bs
unfolding from_le
from_le-lt [] h = omega arith
from_le-lt (b ∷ bs) h = omega (arith, pow-suc 256 (length bs), from_le-lt bs h.1, h.0)
