-- ===== src/Reports/Examples.antt =====
-- Reports at concrete inputs.
use hci_controller.Base.{ok, ℕ, ◌≡◌, refl, some, List, [], ◌∷◌, ◌++◌, arith}
use hci_controller.Auracast.Structures.{Structure, octets_of}
use hci_controller.Reports.{
  hex_text, addr_str, signed_octet, parse_ext_report, parse_legacy_report, local_name,
}
use hci_controller.Reports.Address.{addr_bytes, strip, from_hex}
use hci_controller.Reports.Reading.{extended_report, legacy_report, name_in, reports_read}

-- Flags, a shortened name and a complete one.
abbrev advertised : List Structure
advertised =
    record { ad_type = 0x01; value = 0x06 ∷ [] }
    ∷ record { ad_type = 0x08; value = 0x41 ∷ 0x42 ∷ [] }
    ∷ record { ad_type = 0x09; value = 0x41 ∷ 0x42 ∷ 0x43 ∷ [] }
    ∷ []

abbrev ascii : List ℕ → List ℕ
ascii octets = octets

reports_read_example :
    (parse_ext_report (
        extended_report 0x13 1 2 3 0xFE 5 0xC6 0xC0
          (0, 0, 0, 0, 0, 0, 0, 0, 0)
          (octets_of advertised))
      ≡ some (addr_str (1 ∷ 2 ∷ 3 ∷ 0xFE ∷ 5 ∷ 0xC6 ∷ []), signed_octet 0xC0, octets_of advertised))
    × (parse_legacy_report (legacy_report 0x13 1 2 3 0xFE 5 0xC6 0xC0 (octets_of advertised))
        ≡ some
            (addr_str (1 ∷ 2 ∷ 3 ∷ 0xFE ∷ 5 ∷ 0xC6 ∷ []), signed_octet 0xC0, octets_of advertised))
    × (local_name ascii (octets_of advertised) ≡ name_in ascii advertised)
    × (addr_bytes (addr_str (1 ∷ 2 ∷ 3 ∷ 0xFE ∷ 5 ∷ 0xC6 ∷ []))
        ≡ ok (1 ∷ 2 ∷ 3 ∷ 0xFE ∷ 5 ∷ 0xC6 ∷ []))
reports_read_example =
    reports_read ascii 0x13 1 2 3 0xFE 5 0xC6 0xC0 (0, 0, 0, 0, 0, 0, 0, 0, 0) advertised
      (omega arith, (omega arith, (omega arith, (omega arith, (omega arith, (omega arith, tt))))))

-- Two tabs in place of the last octet: the text has twelve characters, and five octets are read.
tabs_pass :
    addr_bytes (hex_text (6 ∷ 5 ∷ 4 ∷ 3 ∷ 2 ∷ []) ++ (9 ∷ 9 ∷ [])) ≡ ok (2 ∷ 3 ∷ 4 ∷ 5 ∷ 6 ∷ [])
unfolding addr_bytes hex_text strip from_hex
tabs_pass = refl
