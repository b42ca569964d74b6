-- ===== src/Base/Arith.antt =====
-- Products on both sides of an order.
use Prim.Native.Nat.{ℕ, ◌*◌, ◌≤◌, ◌<◌}
use native.Mathlib.Omega.{arith}

pub cancel_right : (a b c : ℕ) → 0 < c → a * c ≤ b * c → a ≤ b
cancel_right a b c h k = grind arith

pub cancel_right_lt : (a b c : ℕ) → a * c < b * c → a < b
cancel_right_lt a b c k = grind arith
