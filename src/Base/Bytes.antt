-- ===== src/Base/Bytes.antt =====
-- Octets as native numbers, and the little endian fields of Python's `struct` and `int`.
-- `x & (2 ^ k - 1)` is written `x % 2 ^ k`, and `x >> k` is `x / 2 ^ k`.
use Prim.Native.Nat.{ℕ, ◌+◌, ◌*◌, ◌/◌, ◌%◌, ◌<◌}
use mathlib.Core.Path.{◌≡◌}
use mathlib.Core.Bool.{Bool}
use mathlib.Core.List.{List, [], ◌∷◌}
use native.Mathlib.Omega.{arith}
use hci_controller.Base.Tests.{◌==◌}

-- `struct.pack("<H", x)`, for an `x` that fits
abbrev pub u16 : ℕ → List ℕ
u16 x = x % 256 ∷ x / 256 % 256 ∷ []

-- `struct.pack("<I", x)[:3]`
abbrev pub u24 : ℕ → List ℕ
u24 x = x % 256 ∷ x / 256 % 256 ∷ x / 65536 % 256 ∷ []

-- `struct.pack("<I", x)`
abbrev pub u32 : ℕ → List ℕ
u32 x = x % 256 ∷ x / 256 % 256 ∷ x / 65536 % 256 ∷ x / 16777216 % 256 ∷ []

-- `int.from_bytes(data, "little")`
abbrev pub from_little : List ℕ → ℕ
from_little [] = 0
from_little (b ∷ bs) = b + 256 * from_little bs

-- `x & 2 ^ k` as a truth value, the mask given by its weight `w`
abbrev pub has_bit : ℕ → ℕ → Bool
has_bit x w = x / w % 2 == 1

abbrev pub IsByte : ℕ → Type 0
IsByte b = b < 256

pub from_little-u16 : (x : ℕ) → x < 65536 → from_little (u16 x) ≡ x
from_little-u16 x h = omega arith

pub from_little-u24 : (x : ℕ) → x < 16777216 → from_little (u24 x) ≡ x
from_little-u24 x h = omega arith

pub small_mod : (n : ℕ) → n < 0x1000 → n % 0x1000 ≡ n
small_mod n h = omega arith
