-- ===== src/Prelude/Words.antt =====
-- Machine words: the sums of a release build wrap.
use Prim.Native.Nat.{ℕ, ◌+◌, ◌-◌, ◌%◌}

abbrev pub u32_mod : ℕ
u32_mod = 4_294_967_296

abbrev pub u64_mod : ℕ
u64_mod = 18_446_744_073_709_551_616

abbrev pub u32 : ℕ → ℕ
u32 n = n % u32_mod

abbrev pub u64 : ℕ → ℕ
u64 n = n % u64_mod

-- `n - 1` of a `usize`
abbrev pub usize_pred : ℕ → ℕ
usize_pred n = (n + u64_mod - 1) % u64_mod
