-- ===== src/Base/Integers.antt =====
-- Integers over the native numbers, under the library's names, for counts that may go below zero.
use Prim.Native.Nat.{ℕ, suc, ◌+◌, ◌-◌}
use hci_controller.Base.Tests.{leb, if◌then◌else◌}

pub data ℤ : Type 0 where
  pos negsuc : ℕ → ℤ

-- `a - b`
abbrev pub diff : ℕ → ℕ → ℤ
diff a b = if leb b a then pos (a - b) else negsuc (b - suc a)

infixl 60 ◌+ℤ◌
abbrev pub ◌+ℤ◌ : ℤ → ℤ → ℤ
pos a +ℤ pos b = pos (a + b)
pos a +ℤ negsuc b = diff a (suc b)
negsuc a +ℤ pos b = diff b (suc a)
negsuc a +ℤ negsuc b = negsuc (suc (a + b))
