-- ===== src/Reports/Reading.antt =====
-- Reports are read back.
use hci_controller.Base.{
  ◌==◌, if◌then◌else◌, le→ltb, length, get_or, All, length-append, take-append_of_eq,
  drop-append_of_eq, take_of_le, IsByte, ok, ℕ, zero, suc, ◌+◌, ◌-◌, ◌≤◌, ◌≡◌, refl, false, ◌||◌,
  some, List, [], ◌∷◌, ◌++◌, arith,
}
use hci_controller.Auracast.Structures.{Structure, octets_of}
use hci_controller.Reports.Address.{addr_bytes, addr_bytes-addr_str}
use hci_controller.Reports.{
  addr_str, signed_octet, parse_ext_report, parse_legacy_report, local_name, local_name_from,
}

suc_ne_zero : (n : ℕ) → (suc n == 0) ≡ false
suc_ne_zero n = ground arith

get_or_last : (xs : List ℕ) (b : ℕ) → get_or (xs ++ (b ∷ [])) (length xs) 0 ≡ b
get_or_last [] b = refl
get_or_last (x ∷ xs) b = get_or_last xs b

eleven : (n : ℕ) → 11 + n ≡ suc (suc (suc (suc (suc (suc (suc (suc (suc (suc (suc n))))))))))
eleven n = omega arith

-- An LE Extended Advertising Report with one report (Core specification, Vol 4 Part E 7.7.65.13), whose
-- event type is `kind`; `between` is what stands between the RSSI and the data's length.
abbrev pub extended_report :
    ℕ → ℕ → ℕ → ℕ → ℕ → ℕ → ℕ → ℕ → ℕ × ℕ × ℕ × ℕ × ℕ × ℕ × ℕ × ℕ × ℕ → List ℕ → List ℕ
extended_report kind a b c d e f rssi (p, q, r, s, t, u, v, w, x) octets =
    0x0D
    ∷ 1
    ∷ kind
    ∷ 0
    ∷ 1
    ∷ a
    ∷ b
    ∷ c
    ∷ d
    ∷ e
    ∷ f
    ∷ 1
    ∷ 0
    ∷ 0xFF
    ∷ 0x7F
    ∷ rssi
    ∷ p
    ∷ q
    ∷ r
    ∷ s
    ∷ t
    ∷ u
    ∷ v
    ∷ w
    ∷ x
    ∷ length octets
    ∷ octets

-- An LE Advertising Report with one report (7.7.65.2).
abbrev pub legacy_report : ℕ → ℕ → ℕ → ℕ → ℕ → ℕ → ℕ → ℕ → List ℕ → List ℕ
legacy_report kind a b c d e f rssi octets =
    0x02 ∷ 1 ∷ kind ∷ 1 ∷ a ∷ b ∷ c ∷ d ∷ e ∷ f ∷ length octets ∷ (octets ++ (rssi ∷ []))

module _ (decode : List ℕ → List ℕ) where
  -- The first Shortened or Complete Local Name, and no characters where there is none.
  pub name_in : List Structure → List ℕ
  name_in [] = []
  name_in (s ∷ ss) =
      if (s.ad_type == 0x08) || (s.ad_type == 0x09) then decode s.value else name_in ss

  local_name_from-octets_of :
      (n : ℕ) (ss : List Structure)
      → length ss ≤ n
      → local_name_from decode n (octets_of ss) ≡ name_in ss
  unfolding local_name_from name_in
  local_name_from-octets_of zero [] h = refl
  local_name_from-octets_of (suc n) [] h = refl
  local_name_from-octets_of zero (s ∷ ss) h = absurd (omega arith)
  local_name_from-octets_of (suc n) (s ∷ ss) h =
      rw
        (
          suc_ne_zero (length s.value),
          le→ltb (suc (suc (length (s.value ++ octets_of ss)))) (1 + suc (length s.value))
              (omega (arith, length-append s.value (octets_of ss))),
          take-append_of_eq (suc (length s.value) - 1) s.value (octets_of ss) (omega arith),
          drop-append_of_eq (suc (length s.value) - 1) s.value (octets_of ss) (omega arith),
          local_name_from-octets_of n ss (omega arith),
        )
        refl

length-octets_of : (ss : List Structure) → length ss ≤ length (octets_of ss)
length-octets_of [] = omega arith
length-octets_of (s ∷ ss) = omega (arith, length-append s.value (octets_of ss), length-octets_of ss)

ext_back :
    (kind a b c d e f rssi : ℕ) (between : _) (octets : List ℕ)
    → parse_ext_report (extended_report kind a b c d e f rssi between octets)
      ≡ some (addr_str (a ∷ b ∷ c ∷ d ∷ e ∷ f ∷ []), signed_octet rssi, octets)
unfolding parse_ext_report
ext_back kind a b c d e f rssi between octets =
    rw
      (
        le→ltb (length (extended_report kind a b c d e f rssi between octets)) 26 (omega arith),
        take_of_le (26 + length octets - 26) octets (omega arith),
      )
      refl

legacy_back :
    (kind a b c d e f rssi : ℕ) (octets : List ℕ)
    → parse_legacy_report (legacy_report kind a b c d e f rssi octets)
      ≡ some (addr_str (a ∷ b ∷ c ∷ d ∷ e ∷ f ∷ []), signed_octet rssi, octets)
unfolding parse_legacy_report
legacy_back kind a b c d e f rssi octets =
    let size = length-append octets (rssi ∷ []) in
    rw
      (
        le→ltb (length (legacy_report kind a b c d e f rssi octets)) 12 (omega (arith, size)),
        le→ltb (length (legacy_report kind a b c d e f rssi octets)) (11 + length octets + 1)
            (omega (arith, size)),
        take-append_of_eq (11 + length octets - 11) octets (rssi ∷ []) (omega arith),
        eleven (length octets),
        get_or_last octets rssi,
      )
      refl

-- A scanner reads the same of data that reaches it in an extended report and in a legacy one, whatever the
-- event type, the address and the RSSI: the address as text with its last octet first, the RSSI as a
-- signed number, and the data whole. Where the data is a sequence of AD structures, `local_name` gives
-- the decoded value of the first of them that is a Shortened or a Complete Local Name, whatever stands
-- before and behind it, and no characters if there is none. The text of an address of octets is one that
-- `addr_bytes` takes back to the octets, first octet first.
pub reports_read :
    (decode : List ℕ → List ℕ) (kind a b c d e f rssi : ℕ) (between : _) (ss : List Structure)
    → All IsByte (a ∷ b ∷ c ∷ d ∷ e ∷ f ∷ [])
    → (parse_ext_report (extended_report kind a b c d e f rssi between (octets_of ss))
        ≡ some (addr_str (a ∷ b ∷ c ∷ d ∷ e ∷ f ∷ []), signed_octet rssi, octets_of ss))
      × (parse_legacy_report (legacy_report kind a b c d e f rssi (octets_of ss))
          ≡ some (addr_str (a ∷ b ∷ c ∷ d ∷ e ∷ f ∷ []), signed_octet rssi, octets_of ss))
      × (local_name decode (octets_of ss) ≡ name_in decode ss)
      × (addr_bytes (addr_str (a ∷ b ∷ c ∷ d ∷ e ∷ f ∷ [])) ≡ ok (a ∷ b ∷ c ∷ d ∷ e ∷ f ∷ []))
unfolding local_name
reports_read decode kind a b c d e f rssi between ss h = (
  ext_back kind a b c d e f rssi between (octets_of ss),
  legacy_back kind a b c d e f rssi (octets_of ss),
  local_name_from-octets_of decode (length (octets_of ss)) ss (length-octets_of ss),
  addr_bytes-addr_str a b c d e f h,
)
