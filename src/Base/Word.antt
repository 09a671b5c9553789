-- ===== src/Base/Word.antt =====
-- Machine words: `uint` of 32 bits and `uint64`, with their wrap-around.
use Prim.Native.Nat.{ℕ, ◌+◌, ◌-◌, ◌%◌, ◌^◌}

abbrev pub u32_mod : ℕ
u32_mod = 2 ^ 32

abbrev pub u64_mod : ℕ
u64_mod = 2 ^ 64

-- the `uint` or `uint64` that a result is cut to
abbrev pub u32 : ℕ → ℕ
u32 x = x % u32_mod

abbrev pub u64 : ℕ → ℕ
u64 x = x % u64_mod

-- A difference of two `uint`, the second in range: `-` on ℕ stops at 0.
abbrev pub diff32 : ℕ → ℕ → ℕ
diff32 x y = u32 (x + (u32_mod - y))
