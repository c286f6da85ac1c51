-- ===== src/Iso/Marker.antt =====
-- An SDU that `send_iso` sends is the one that `parse_iso` reads and `wait_iso` waits for.
use hci_controller.Base.{
  ◌==◌, le→ltb, length, u16, from_little-u16, ok, ℕ, suc, ◌+◌, ◌-◌, ◌/◌, ◌%◌, ◌≤◌, ◌<◌, ◌≡◌, refl,
  ◌∙◌, true, none, some, List, ◌++◌, arith,
}
use hci_controller.Iso.{IsoData, iso_packet, parse_iso, parse_header, iso_pb_complete}

abbrev pub sent_data : ℕ → ℕ → List ℕ → IsoData
sent_data handle sequence sdu = record {
  handle = handle % 0x1000;
  pb = iso_pb_complete;
  timestamp = none;
  sequence = some (sequence % 0x10000);
  sdu_len = some (length sdu);
  status = some 0;
  fragment = sdu;
}

flags_handle : (n : ℕ) → (n % 0x1000 + 0x2000) % 0x1000 ≡ n % 0x1000
flags_handle n = omega arith

flags_pb : (n : ℕ) → (n % 0x1000 + 0x2000) / 0x1000 % 4 ≡ 2
flags_pb n = omega arith

flags_ts : (n : ℕ) → (n % 0x1000 + 0x2000) / 0x4000 % 2 ≡ 0
flags_ts n = omega arith

eq_test : (a b : ℕ) → a ≡ b → (a == b) ≡ true
eq_test a b e = ground arith

-- What is read of a packet with these four fields.
parse_fields :
    (flags total sequence field : ℕ) (sdu : List ℕ)
    → flags < 65536
    → total < 65536
    → sequence < 65536
    → field < 65536
    → flags / 0x1000 % 4 ≡ 2
    → flags / 0x4000 % 2 ≡ 0
    → total % 0x4000 ≡ 4 + length sdu
    → parse_iso (u16 flags ++ (u16 total ++ (u16 sequence ++ (u16 field ++ sdu))))
      ≡ ok (record {
        handle = flags % 0x1000;
        pb = 2;
        timestamp = none;
        sequence = some sequence;
        sdu_len = some (field % 0x1000);
        status = some (field / 0x4000 % 4);
        fragment = sdu;
      })
unfolding parse_iso parse_header
parse_fields flags total sequence field sdu hf ht hs hd pb ts size =
    let w = u16 flags ++ (u16 total ++ (u16 sequence ++ (u16 field ++ sdu))) in
    rw
      (
        parse_iso,
        from_little-u16 flags hf,
        from_little-u16 total ht,
        pb,
        ts,
        size,
        le→ltb (length w) 8 (omega arith),
        eq_test (4 + length sdu) (length w - 4) (omega arith),
        from_little-u16 sequence hs,
        from_little-u16 field hd,
      )
      refl

-- The packet that `send_iso` builds for an SDU that the length field holds is read back: the low 12
-- bits of the handle, the low 16 of the sequence number, a complete SDU, its length and its octets.
pub parse_iso-iso_packet :
    (handle sequence : ℕ) (sdu : List ℕ)
    → length sdu ≤ 0x0FFF
    → parse_iso (iso_packet handle sequence sdu) ≡ ok (sent_data handle sequence sdu)
unfolding iso_packet
parse_iso-iso_packet handle sequence sdu h =
    let field : length sdu % 0x1000 ≡ length sdu = omega arith in
    let whole : length sdu % 0x1000 / 0x4000 % 4 ≡ 0 = omega arith in
    parse_fields (handle % 0x1000 + 0x2000) (suc (suc (suc (suc (length sdu)))))
      (sequence % 0x10000) (length sdu % 0x1000) sdu (omega arith) (omega arith) (omega arith)
      (omega arith) (flags_pb handle) (flags_ts handle) (omega arith)
    ∙ rw (whole, field, flags_handle handle, field) refl
