-- ===== src/Base/Time.antt =====
-- Package time: an instant is the number of nanoseconds since the zero time of Go, 1 January of the
-- year 1 UTC, and a duration is a 64-bit number of nanoseconds.
use mesh_cdn.Base.{ltb, ◌==◌, ℕ, ◌+◌, ◌*◌, ◌≤◌, ◌<◌, min, ◌≡◌, ◌↔◌, Bool, true, false, arith}
use mesh_cdn.Base.Int.{ℤ, pos, negsuc, sub_ℕ, ltb_ℤ}
use mesh_cdn.Base.Decimal.{int_max}

abbrev pub Time : Type 0
Time = ℕ

-- t.IsZero and t.After.
abbrev pub is_zero : Time → Bool
is_zero t = t == 0

abbrev pub is_after : Time → Time → Bool
is_after t u = ltb u t

abbrev saturated : ℤ → ℤ
saturated (pos n) = pos (min n int_max)
saturated (negsuc n) = negsuc (min n int_max)

-- t.Sub(u), which saturates at the ends of the range of a duration.
unfoldable pub time_sub : Time → Time → ℤ
time_sub t u = saturated (sub_ℕ t u)

abbrev pub day : ℕ
day = 24 * 3600 * 1_000_000_000

-- Below the end of the range, a difference compares as it should.
pub time_sub_lt : (t u n : ℕ) → n ≤ int_max → (ltb_ℤ (time_sub t u) (pos n) ≡ true) ↔ (t < u + n)
unfolding time_sub
time_sub_lt t u n h = ground arith

pub time_sub_le : (t u n : ℕ) → n < int_max → (ltb_ℤ (pos n) (time_sub t u) ≡ false) ↔ (t ≤ u + n)
unfolding time_sub
time_sub_le t u n h = ground arith
