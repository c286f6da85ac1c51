-- ===== src/Reports/Address.antt =====
-- An address as text, read back: `addr_bytes` of python/hcicontroller/hci_ble_test_impl.py with Python's
-- `bytes.fromhex`, which passes over white space between octets.
use hci_controller.Base.{
  leb, ◌==◌, if◌then◌else◌, length, All, IsByte, Result, ok, err, value_error, ℕ, ◌+◌, ◌-◌, ◌*◌,
  ◌/◌, ◌%◌, ◌<◌, ◌≡◌, refl, ap, Bool, false, ◌&&◌, ◌||◌, Option, none, some, List, [], ◌∷◌, arith,
  ◌>>=◌,
}
use mathlib.Core.List.{reverse}
use hci_controller.Reports.{addr_str, hex_digit, hex_text}

abbrev pub is_separator : ℕ → Bool
is_separator c = (c == 58) || ((c == 45) || (c == 32))

-- `text.replace(":", "").replace("-", "").replace(" ", "")`
unfoldable pub strip : List ℕ → List ℕ
strip [] = []
strip (c ∷ cs) = let rest = strip cs in if is_separator c then rest else c ∷ rest

abbrev pub is_space : ℕ → Bool
is_space c = (c == 32) || (leb 9 c && leb c 13)

abbrev pub hex_value : ℕ → Option ℕ
hex_value c =
    if leb 48 c && leb c 57
    then some (c - 48)
    else if leb 65 c && leb c 70
    then some (c - 55)
    else if leb 97 c && leb c 102
    then some (c - 87)
    else none

-- The octet of two digits, in front of the others.
abbrev pub hex_pair : Option ℕ → Option ℕ → Result (List ℕ) → Result (List ℕ)
hex_pair (some h) (some l) later = do rest ← later; ok ((16 * h + l) ∷ rest)
hex_pair (some h) none later = err value_error
hex_pair none l later = err value_error

-- `bytes.fromhex`
unfoldable pub from_hex : List ℕ → Result (List ℕ)
from_hex [] = ok []
from_hex (c ∷ []) = if is_space c then ok [] else err value_error
from_hex (c ∷ d ∷ rest) =
    let skipped = from_hex (d ∷ rest) in
    let later = from_hex rest in
    if is_space c then skipped else hex_pair (hex_value c) (hex_value d) later

-- `addr_bytes`
unfoldable pub addr_bytes : List ℕ → Result (List ℕ)
addr_bytes text =
    let cleaned = strip text in
    if length cleaned == 12 then (do raw ← from_hex cleaned; ok (reverse raw)) else err value_error

abbrev digits : List ℕ → List ℕ
digits [] = []
digits (b ∷ bs) = hex_digit (b / 16) ∷ hex_digit (b % 16) ∷ digits bs

hex_digit-separator : (n : ℕ) → n < 16 → is_separator (hex_digit n) ≡ false
hex_digit-separator n h = ground arith

hex_digit-space : (n : ℕ) → n < 16 → is_space (hex_digit n) ≡ false
hex_digit-space n h = ground arith

hex_value-hex_digit : (n : ℕ) → n < 16 → hex_value (hex_digit n) ≡ some n
hex_value-hex_digit n h = ground arith

strip-hex_text : (raw : List ℕ) → All IsByte raw → strip (hex_text raw) ≡ digits raw
unfolding strip hex_text
strip-hex_text [] h = refl
strip-hex_text (b ∷ []) h =
    rw
      (
        hex_digit-separator (b / 16) (omega (arith, h.0)),
        hex_digit-separator (b % 16) (omega arith),
      )
      refl
strip-hex_text (b ∷ c ∷ rest) h =
    rw
      (
        hex_digit-separator (b / 16) (omega (arith, h.0)),
        hex_digit-separator (b % 16) (omega arith),
        strip-hex_text (c ∷ rest) h.1,
      )
      refl

from_hex-digits : (raw : List ℕ) → All IsByte raw → from_hex (digits raw) ≡ ok raw
unfolding from_hex
from_hex-digits [] h = refl
from_hex-digits (b ∷ rest) h =
    rw
      (
        hex_digit-space (b / 16) (omega (arith, h.0)),
        hex_value-hex_digit (b / 16) (omega (arith, h.0)),
        hex_value-hex_digit (b % 16) (omega arith),
        from_hex-digits rest h.1,
      )
      (ap (λ x. ok (x ∷ rest)) (omega arith))

pub addr_bytes-addr_str :
    (a b c d e f : ℕ)
    → All IsByte (a ∷ b ∷ c ∷ d ∷ e ∷ f ∷ [])
    → addr_bytes (addr_str (a ∷ b ∷ c ∷ d ∷ e ∷ f ∷ [])) ≡ ok (a ∷ b ∷ c ∷ d ∷ e ∷ f ∷ [])
unfolding addr_bytes addr_str
addr_bytes-addr_str a b c d e f (ha, (hb, (hc, (hd, (he, (hf, u)))))) =
    let h : All IsByte (f ∷ e ∷ d ∷ c ∷ b ∷ a ∷ []) = (hf, (he, (hd, (hc, (hb, (ha, u)))))) in
    let raw : List ℕ = f ∷ e ∷ d ∷ c ∷ b ∷ a ∷ [] in
    rw (strip-hex_text raw h, from_hex-digits raw h) refl
