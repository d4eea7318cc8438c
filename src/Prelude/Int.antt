-- ===== src/Prelude/Int.antt =====
-- Go's `int`, as far as the program uses it: an index that starts at -1, and bounds that are
-- compared with 0. No arithmetic on it can leave 64 bits.
use Prim.Native.Nat.{ℕ}

-- `negsuc n` is -(n + 1).
pub data ℤ : Type 0 where
  pos : ℕ → ℤ
  negsuc : ℕ → ℤ
