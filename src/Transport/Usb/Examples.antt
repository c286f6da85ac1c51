-- ===== src/Transport/Usb/Examples.antt =====
-- Tests of the native USB transport, and its theorems at concrete inputs.
use hci_controller.Base.{
  length, ok, err, transport_error, ℕ, ◌≤◌, ◌≡◌, refl, false, none, List, [], ◌∷◌, ◌++◌, map, arith,
}
use hci_controller.Transport.Packet.{Packet, Frame, event, acl, packet_of}
use hci_controller.Transport.Usb.{
  serialized, events, acls, maximum, Transfer, received, timed_out, take_complete, expected_fn,
  parser, reader_rounds,
}
use hci_controller.Transport.Usb.Delivery.{reader_rounds-stream, running}
use hci_controller.Transport.Usb.Parser.{take_complete_parses}
use hci_controller.Transport.Usb.Queue.{Mailbox, queued}
use hci_controller.Transport.Usb.Queue.Order.{run, run-order, arrive, read, probe}

abbrev frames : List Frame
frames = event 0x0E (1 ∷ 3 ∷ 0x0C ∷ 0 ∷ []) ∷ acl 0x2040 (0xAA ∷ []) ∷ []

abbrev transfers : List Transfer
transfers =
    received (4 ∷ 0x0E ∷ 4 ∷ 1 ∷ 3 ∷ [])
    ∷ timed_out
    ∷ received (0x0C ∷ 0 ∷ 2 ∷ 0x40 ∷ 0x20 ∷ [])
    ∷ received (1 ∷ 0 ∷ 0xAA ∷ [])
    ∷ []

reader_rounds-stream_example :
    ((reader_rounds 6 serialized (running [] transfers [])).packets ≡ map packet_of frames)
    × ((reader_rounds 6 serialized (running [] transfers [])).buffer ≡ [])
    × ((reader_rounds 6 serialized (running [] transfers [])).error ≡ none)
reader_rounds-stream_example =
    reader_rounds-stream 6 serialized frames transfers (omega arith) (tt, (tt, (tt, (tt, tt)))) refl
      (omega arith)

-- A length beyond the maximum clears the buffer.
oversize_run : take_complete acls (0 ∷ 0 ∷ 0 ∷ 5 ∷ 7 ∷ []) ≡ (err transport_error, [])
unfolding take_complete expected_fn
oversize_run = refl

abbrev event_octets : List ℕ
event_octets = 0x0E ∷ 1 ∷ 9 ∷ []

take_complete_parses_example :
    (event_octets ++ (8 ∷ []) ≡ 0x0E ∷ 1 ∷ 9 ∷ 8 ∷ [])
    × (length event_octets ≤ maximum events)
    × ((p : Packet) × (parser events event_octets ≡ ok p))
unfolding take_complete expected_fn
take_complete_parses_example =
    take_complete_parses events (0x0E ∷ 1 ∷ 9 ∷ 8 ∷ []) event_octets (8 ∷ []) refl

abbrev first : Packet
first = packet_of (event 0x13 [])

abbrev second : Packet
second = packet_of (event 0x05 [])

abbrev mailbox : Mailbox
mailbox = record { prefetched = []; packets = []; error = none }

run-order_example :
    (run (probe (queued first ∷ []) ∷ arrive (queued second) ∷ read false [] ∷ []) mailbox).0
      ++ ((run
            (probe (queued first ∷ []) ∷ arrive (queued second) ∷ read false [] ∷ [])
            mailbox).1.prefetched
          ++ (run
              (probe (queued first ∷ []) ∷ arrive (queued second) ∷ read false [] ∷ [])
              mailbox).1.packets)
    ≡ first ∷ second ∷ []
run-order_example =
    run-order (probe (queued first ∷ []) ∷ arrive (queued second) ∷ read false [] ∷ []) mailbox
