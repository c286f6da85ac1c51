-- ===== src/Reports.antt =====
-- What a scanner reads of an advertising report: `addr_str`, `parse_ext_report`, `parse_legacy_report` and
-- `local_name` of python/hcicontroller/hci_ble_test_impl.py. A text is its characters' codes. How Python
-- decodes the octets of a name is a parameter.
pub mod Address
pub mod Reading
mod Examples
use hci_controller.Base.{
  ltb, ◌==◌, if◌then◌else◌, length, get_or, take, drop, slice, ℤ, pos, negsuc, ℕ, zero, suc, ◌+◌,
  ◌-◌, ◌/◌, ◌%◌, ◌||◌, Option, none, some, List, [], ◌∷◌,
}
use mathlib.Core.List.{reverse}

-- A hexadecimal digit of `"%02X"`.
abbrev pub hex_digit : ℕ → ℕ
hex_digit n = if ltb n 10 then 48 + n else 55 + n

-- `"%02X"` of each octet, with colons between them.
unfoldable pub hex_text : List ℕ → List ℕ
hex_text [] = []
hex_text (b ∷ []) = hex_digit (b / 16) ∷ hex_digit (b % 16) ∷ []
hex_text (b ∷ c ∷ rest) = hex_digit (b / 16) ∷ hex_digit (b % 16) ∷ 58 ∷ hex_text (c ∷ rest)

-- `addr_str`
unfoldable pub addr_str : List ℕ → List ℕ
addr_str raw = hex_text (reverse raw)

-- `struct.unpack("<b", ...)` of one octet
abbrev pub signed_octet : ℕ → ℤ
signed_octet b = if ltb b 128 then pos b else negsuc (255 - b)

-- `parse_ext_report`: the address, the RSSI and the advertising data.
unfoldable pub parse_ext_report : List ℕ → Option (List ℕ × ℤ × List ℕ)
parse_ext_report body =
    if ltb (length body) 26
    then none
    else some (
      addr_str (slice body 5 11),
      signed_octet (get_or body 15 0),
      slice body 26 (26 + get_or body 25 0),
    )

-- `parse_legacy_report`
unfoldable pub parse_legacy_report : List ℕ → Option (List ℕ × ℤ × List ℕ)
parse_legacy_report body =
    let data_len = get_or body 10 0 in
    if ltb (length body) 12
    then none
    else if ltb (length body) (11 + data_len + 1)
    then none
    else some (
      addr_str (slice body 4 10),
      signed_octet (get_or body (11 + data_len) 0),
      slice body 11 (11 + data_len),
    )

module _ (decode : List ℕ → List ℕ) where
  -- The loop of `local_name` on the data from `i` on. A length of 0 and one that goes beyond the data end
  -- it.
  unfoldable pub local_name_from : ℕ → List ℕ → List ℕ
  local_name_from zero rest = []
  local_name_from (suc n) [] = []
  local_name_from (suc n) (field_len ∷ []) = []
  local_name_from (suc n) (field_len ∷ kind ∷ rest) =
      let later = local_name_from n (drop (field_len - 1) rest) in
      if (field_len == 0) || ltb (suc (suc (length rest))) (1 + field_len)
      then []
      else if (kind == 0x08) || (kind == 0x09)
      then decode (take (field_len - 1) rest)
      else later

  -- `local_name`, with the length of the data as the rounds at most: each takes an octet or more.
  unfoldable pub local_name : List ℕ → List ℕ
  local_name octets = local_name_from (length octets) octets
