-- ===== src/Cleanup/Examples.antt =====
-- Waits for a disconnection at concrete inputs.
use hci_controller.Base.{
  All, Exn, Result, ok, err, transport_error, transport_gone, selection_error, hci_error, hci_gone,
  ℕ, ◌≡◌, refl, ◌≢◌, ◌⊎◌, Bool, true, Option, none, some, List, [], ◌∷◌, ◌++◌, arith,
}
use hci_controller.Transport.Packet.{Packet}
use hci_controller.Hci.{Hci, init}
use hci_controller.Hci.Command.{Ended}
use hci_controller.Hci.Search.{IsOther}
use hci_controller.Hci.Steps.{packets_of, packet_read}
use hci_controller.Hci.Calls.{Device}
use hci_controller.Cleanup.Teardown.{Pair, cleanup}
use hci_controller.Cleanup.Teardown.Order.{central_commands, peripheral_commands, cleanup_sent}
use hci_controller.Cleanup.{
  disconnected, disconnection, IsDisconnection, wait_disconnected, wait_disconnected_any_status,
  wait_disconnected_returned,
}

abbrev acl_packet : Packet
acl_packet = record { kind = 0x02; code = none; body = 1 ∷ 0 ∷ 0 ∷ 0 ∷ [] }

abbrev waiting : Hci
waiting = record init { pending = acl_packet ∷ [] }

acl_packet-IsOther : IsOther (disconnected 1) acl_packet
unfolding disconnected
acl_packet-IsOther = refl

abbrev failed_reads : List (Result (Option Packet))
failed_reads =
    (ok none ∷ ok (some acl_packet) ∷ [])
    ++ (ok (some (disconnection 0x02 1 0)) ∷ ok (some acl_packet) ∷ [])

abbrev failed_run : Ended Bool
failed_run = wait_disconnected 1 5 failed_reads waiting

-- The event says that the disconnection has failed, with status 0x02.
wait_disconnected_any_status_example :
    (failed_run.result ≡ ok true) × (failed_run.reads ≡ ok (some acl_packet) ∷ [])
wait_disconnected_any_status_example =
    wait_disconnected_any_status 0x02 1 0 5 (ok none ∷ ok (some acl_packet) ∷ [])
      (ok (some acl_packet) ∷ []) waiting (omega arith) (acl_packet-IsOther, tt)
      (tt, ((acl_packet-IsOther, packet_read 2 acl_packet.body), tt)) (omega arith)

failed_run_true : failed_run.result ≡ ok true
failed_run_true =
    (wait_disconnected_any_status 0x02 1 0 5 (ok none ∷ ok (some acl_packet) ∷ [])
      (ok (some acl_packet) ∷ []) waiting (omega arith) (acl_packet-IsOther, tt)
      (tt, ((acl_packet-IsOther, packet_read 2 acl_packet.body), tt)) (omega arith)).0

wait_disconnected_returned_example :
    (used : List (Result (Option Packet))) × (pre : List Packet) × (x : Packet) × (failed_reads
      ≡ used ++ failed_run.reads)
    × (waiting.pending ++ packets_of used ≡ pre ++ (x ∷ failed_run.hci.pending))
    × All (λ p. ¬ IsDisconnection 1 p) pre
    × IsDisconnection 1 x
wait_disconnected_returned_example =
    wait_disconnected_returned 1 5 failed_reads waiting failed_run_true

-- Two controllers that have gone silent.
abbrev silent : Device
silent = record {
  hci = init;
  reads = [];
  turns = 3 ∷ 2 ∷ [];
  sent = [];
  calls = [];
  unsupported = [];
}

abbrev pair : Pair
pair = record { central = silent; peripheral = silent }

abbrev wire : List ℕ → Option Exn
wire octets = none

cleanup_sent_example :
    let o = cleanup wire wire 2 (some 0) (some 0x60) (some 0x60) (some 1) (some 2) pair in
    ((x : Exn) × (o.result ≡ err x)
      × (x ≢ hci_error)
      × (x ≢ hci_gone)
      × (x ≢ transport_error)
      × (x ≢ transport_gone)
      × (x ≢ selection_error))
    ⊎ ((o.result ≡ ok tt)
        × (o.state.central.sent ≡ central_commands (some 0) (some 0x60) (some 1))
        × (o.state.peripheral.sent ≡ peripheral_commands (some 0x60) (some 2)))
cleanup_sent_example =
    cleanup_sent wire wire 2 (some 0) (some 0x60) (some 0x60) (some 1) (some 2) pair
