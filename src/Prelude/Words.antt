-- ===== src/Prelude/Words.antt =====
-- Fixed-width integers. The release profile of Cargo.toml sets `overflow-checks = false`, so an
-- addition, a subtraction and a multiplication wrap around.
use Prim.Native.Nat.{ℕ, ◌+◌, ◌-◌, ◌/◌, ◌%◌, ◌≤◌, ◌<◌}
use mathlib.Core.Path.{◌≡◌}
use mathlib.Core.Bool.{Bool, ◌&&◌}
use mathlib.Core.Option.{Option, none, some}
use native.Mathlib.Omega.{arith}
use stellar_soroban_contract.Prelude.Tests.{ltb, leb, nat_beq, if◌then◌else◌}
use stellar_soroban_contract.Prelude.Int.{ℤ, pos, negsuc, pos_part, neg_part, ◌+ℤ◌, ◌-ℤ◌}

abbrev pub u32 : ℕ → ℕ
u32 n = n % 0x1_0000_0000

abbrev pub u64 : ℕ → ℕ
u64 n = n % 0x1_0000_0000_0000_0000

abbrev pub half_i128 : ℕ
half_i128 = 0x8000_0000_0000_0000_0000_0000_0000_0000

abbrev pub full_i128 : ℕ
full_i128 = 0x1_0000_0000_0000_0000_0000_0000_0000_0000

-- The `i128` that is congruent to an integer modulo 2 ^ 128.
unfoldable pub i128 : ℤ → ℤ
i128 (pos n) =
    let m = n % full_i128 in if ltb m half_i128 then pos m else negsuc (full_i128 - 1 - m)
i128 (negsuc n) =
    let m = n % full_i128 in if ltb m half_i128 then negsuc m else pos (full_i128 - 1 - m)

-- The integer is one of the values of an `i128`.
abbrev pub IsI128 : ℤ → Type 0
IsI128 z = (pos_part z < half_i128) × (neg_part z ≤ half_i128)

pub i128_self : (z : ℤ) → IsI128 z → i128 z ≡ z
unfolding i128
i128_self (pos n) h = ground arith
i128_self (negsuc n) h = ground arith

pub i128-IsI128 : (z : ℤ) → IsI128 (i128 z)
unfolding i128
i128-IsI128 (pos n) = ground arith
i128-IsI128 (negsuc n) = ground arith

-- The one pair of arguments at which Rust's `/` on `i128` overflows, which panics in every profile.
abbrev pub is_i128_min : ℤ → Bool
is_i128_min z = leb half_i128 (neg_part z)

abbrev pub is_minus_one : ℤ → Bool
is_minus_one z = nat_beq (neg_part z) 1

-- Rust's `/` on `i128` rounds towards zero; the caller has tested that the divisor is not 0.
unfoldable pub quot_i128 : ℤ → ℤ → ℤ
quot_i128 a b =
    let q = (pos_part a + neg_part a) / (pos_part b + neg_part b) in
    if leb (pos_part a) 0
    then (if leb (pos_part b) 0 then pos q else pos 0 -ℤ pos q)
    else (if leb (neg_part b) 0 then pos q else pos 0 -ℤ pos q)

-- An addend may be wrapped before the sum is: the arithmetic is that of the integers modulo 2 ^ 128.
pub i128_add : (a b : ℤ) → i128 (i128 a +ℤ b) ≡ i128 (a +ℤ b)
unfolding i128 ◌+ℤ◌
i128_add (pos a) (pos b) = ground arith
i128_add (pos a) (negsuc b) = ground arith
i128_add (negsuc a) (pos b) = ground arith
i128_add (negsuc a) (negsuc b) = ground arith

-- `checked_add` gives a value exactly when the sum is one of an `i128`.
abbrev pub fits_i128 : ℤ → Bool
fits_i128 z = ltb (pos_part z) half_i128 && leb (neg_part z) half_i128

-- The values of a `u128` end below 2 ^ 128; `saturating_add` and `saturating_mul` stop there.
abbrev pub max_u128 : ℕ
max_u128 = 0xffff_ffff_ffff_ffff_ffff_ffff_ffff_ffff

abbrev pub sat_u128 : ℕ → ℕ
sat_u128 n = if leb n max_u128 then n else max_u128

abbrev pub max_u64 : ℕ
max_u64 = 0xffff_ffff_ffff_ffff

abbrev pub sat_u64 : ℕ → ℕ
sat_u64 n = if leb n max_u64 then n else max_u64

abbrev pub max_u32 : ℕ
max_u32 = 0xffff_ffff

abbrev pub sat_u32 : ℕ → ℕ
sat_u32 n = if leb n max_u32 then n else max_u32

-- `+` on `u128`, and `-` for a subtrahend that is a `u128`.
abbrev pub u128 : ℕ → ℕ
u128 n = n % full_i128

abbrev pub sub_u128 : ℕ → ℕ → ℕ
sub_u128 a b = u128 (a + full_i128 - b)

-- `checked_add`, given the sum.
abbrev pub checked_u128 : ℕ → Option ℕ
checked_u128 n = if leb n max_u128 then some n else none

-- A value that is added later may be cut off first.
pub sat_u128_add : (a b : ℕ) → sat_u128 (sat_u128 a + b) ≡ sat_u128 (a + b)
sat_u128_add a b = ground arith
