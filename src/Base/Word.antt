-- ===== src/Base/Word.antt =====
-- Machine integers: the bounds of `u32` and of a 64-bit `usize`, saturating sums and the checked
-- narrowing `u32::try_from(x).unwrap_or(u32::MAX)`.
use Prim.Native.Nat.{ℕ, ◌+◌, min}

abbrev pub u32_max : ℕ
u32_max = 4_294_967_295

abbrev pub usize_max : ℕ
usize_max = 18_446_744_073_709_551_615

abbrev pub saturating_add : ℕ → ℕ → ℕ
saturating_add a b = min (a + b) usize_max

abbrev pub to_u32 : ℕ → ℕ
to_u32 x = min x u32_max
