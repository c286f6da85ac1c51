-- ===== src/Transport/Serial/Examples.antt =====
-- Tests of the serial transport, and its theorems at concrete inputs.
use hci_controller.Base.{
  ok, err, transport_error, ℕ, ◌≡◌, refl, true, false, none, some, List, [], ◌∷◌, ◌++◌, arith,
}
use hci_controller.Transport.Packet.{Frame, event, acl, packet_of}
use hci_controller.Transport.Serial.{Poll, take_packet, read_packet}
use hci_controller.Transport.Serial.Framing.{take_packet-wire}
use hci_controller.Transport.Serial.Delivery.{
  read_many, read_many-stream, read_many_out_of_sync, data_of,
}

abbrev complete : Frame
complete = event 0x0E (1 ∷ 3 ∷ 0x0C ∷ 0 ∷ [])

abbrev data_packet : Frame
data_packet = acl 0x2040 (0xAA ∷ 0xBB ∷ 0xCC ∷ [])

abbrev chunk_poll : List ℕ → Poll
chunk_poll bs = record { chunk = some bs; late = false }

-- Two packets and a part of a third, in chunks that split the first one.
abbrev script : List Poll
script =
    chunk_poll (0x0C ∷ [])
    ∷ chunk_poll []
    ∷ chunk_poll (0 ∷ 2 ∷ 0x40 ∷ 0x20 ∷ 3 ∷ 0 ∷ 0xAA ∷ 0xBB ∷ 0xCC ∷ 4 ∷ [])
    ∷ []

take_packet-wire_example :
    take_packet (4 ∷ 0x0E ∷ 4 ∷ 1 ∷ 3 ∷ 0x0C ∷ 0 ∷ 2 ∷ []) ≡ ok (some (packet_of complete), 2 ∷ [])
take_packet-wire_example = take_packet-wire complete (2 ∷ []) (omega arith)

read_many-stream_example :
    ((read_many 2 script (4 ∷ 0x0E ∷ 4 ∷ 1 ∷ 3 ∷ [])).0
      ≡ ok (some (packet_of complete)) ∷ ok (some (packet_of data_packet)) ∷ [])
    × ((read_many 2 script (4 ∷ 0x0E ∷ 4 ∷ 1 ∷ 3 ∷ [])).1
          ++ data_of (read_many 2 script (4 ∷ 0x0E ∷ 4 ∷ 1 ∷ 3 ∷ [])).2
        ≡ 4 ∷ [])
read_many-stream_example =
    read_many-stream (complete ∷ data_packet ∷ []) (4 ∷ []) script (4 ∷ 0x0E ∷ 4 ∷ 1 ∷ 3 ∷ [])
      (omega arith) (tt, (refl, (tt, tt))) refl

read_many_out_of_sync_example :
    read_many 2 script (7 ∷ []) ≡ (err transport_error ∷ err transport_error ∷ [], 7 ∷ [], script)
read_many_out_of_sync_example =
    read_many_out_of_sync 2 script 7 [] (omega arith) (omega arith) (omega arith)

-- A chunk without data at a poll past the deadline ends the call with nothing.
timeout_run :
    (read_packet false (record { chunk = some []; late = true } ∷ []) (4 ∷ [])).result ≡ ok none
unfolding read_packet take_packet
timeout_run = refl
