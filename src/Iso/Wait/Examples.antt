-- ===== src/Iso/Wait/Examples.antt =====
-- ISO data at concrete inputs.
use hci_controller.Base.{
  All, Result, ok, ℕ, ◌≡◌, refl, Option, none, some, List, [], ◌∷◌, ◌++◌, arith,
}
use hci_controller.Transport.Packet.{Packet}
use hci_controller.Hci.{Hci, init}
use hci_controller.Hci.Command.{Ended}
use hci_controller.Hci.Search.{IsOther}
use hci_controller.Hci.Steps.{packets_of, packet_read}
use hci_controller.Iso.{iso_packet, parse_iso, marker, match_marker, wait_iso}
use hci_controller.Iso.Marker.{sent_data, parse_iso-iso_packet}
use hci_controller.Iso.Wait.{sent_packet, Carries, wait_iso_sent, wait_iso_returned}

abbrev sdu : List ℕ
sdu = 0x10 ∷ 0x20 ∷ 0x30 ∷ []

parse_iso-iso_packet_example :
    parse_iso (iso_packet 0x1005 70000 sdu) ≡ ok (sent_data 0x1005 70000 sdu)
parse_iso-iso_packet_example = parse_iso-iso_packet 0x1005 70000 sdu (omega arith)

abbrev acl_packet : Packet
acl_packet = record { kind = 0x02; code = none; body = 1 ∷ 0 ∷ 0 ∷ 0 ∷ [] }

-- The same SDU for another handle.
abbrev foreign_packet : Packet
foreign_packet = sent_packet 6 1 sdu

abbrev waiting : Hci
waiting = record init { pending = acl_packet ∷ [] }

acl_packet-IsOther : IsOther (marker 5 sdu) acl_packet
unfolding marker
acl_packet-IsOther = refl

foreign_packet-IsOther : IsOther (marker 5 sdu) foreign_packet
unfolding marker match_marker
foreign_packet-IsOther = rw (parse_iso-iso_packet 6 1 sdu (omega arith)) foreign_data
  where
    foreign_data : match_marker 5 sdu (sent_data 6 1 sdu) ≡ ok none
    foreign_data = refl

abbrev iso_reads : List (Result (Option Packet))
iso_reads =
    (ok none ∷ ok (some foreign_packet) ∷ [])
    ++ (ok (some (sent_packet 5 2 sdu)) ∷ ok (some acl_packet) ∷ [])

abbrev iso_run : Ended (Unit {0})
iso_run = wait_iso 5 sdu 5 iso_reads waiting

wait_iso_sent_example : (iso_run.result ≡ ok tt) × (iso_run.reads ≡ ok (some acl_packet) ∷ [])
wait_iso_sent_example =
    wait_iso_sent 5 sdu 2 5 (ok none ∷ ok (some foreign_packet) ∷ []) (ok (some acl_packet) ∷ [])
      waiting (omega arith) (omega arith) (acl_packet-IsOther, tt)
      (tt, ((foreign_packet-IsOther, packet_read 5 foreign_packet.body), tt)) (omega arith)

iso_run_returns : iso_run.result ≡ ok tt
iso_run_returns =
    (wait_iso_sent 5 sdu 2 5 (ok none ∷ ok (some foreign_packet) ∷ []) (ok (some acl_packet) ∷ [])
      waiting (omega arith) (omega arith) (acl_packet-IsOther, tt)
      (tt, ((foreign_packet-IsOther, packet_read 5 foreign_packet.body), tt)) (omega arith)).0

wait_iso_returned_example :
    (used : List (Result (Option Packet))) × (pre : List Packet) × (x : Packet) × (iso_reads
      ≡ used ++ iso_run.reads)
    × (waiting.pending ++ packets_of used ≡ pre ++ (x ∷ iso_run.hci.pending))
    × All (IsOther (marker 5 sdu)) pre
    × Carries 5 sdu x
wait_iso_returned_example = wait_iso_returned 5 sdu 5 iso_reads waiting iso_run_returns
