-- ===== src/Prelude/Int.antt =====
-- Signed numbers over the native ones.
use Prim.Native.Nat.{ℕ, ◌+◌, ◌-◌}
use kernel_node.Prelude.Tests.{leb, if◌then◌else◌}

pub data ℤ : Type 0 where
  pos negsuc : ℕ → ℤ

-- A number less a signed one.
unfoldable pub less : ℕ → ℤ → ℤ
less a (pos b) = if leb b a then pos (a - b) else negsuc (b - a - 1)
less a (negsuc b) = pos (a + b + 1)
