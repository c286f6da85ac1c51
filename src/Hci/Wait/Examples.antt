-- ===== src/Hci/Wait/Examples.antt =====
-- Waits at concrete inputs.
use hci_controller.Base.{
  Result, ok, pos, negsuc, ℕ, ◌≡◌, refl, Option, none, some, List, [], ◌∷◌, ◌++◌, arith,
}
use hci_controller.Transport.Packet.{Packet}
use hci_controller.Hci.{Hci, init, read_wire, on_event}
use hci_controller.Hci.Command.{Ended}
use hci_controller.Hci.Credits.{Entry, entries, counted, on_event-entries}
use hci_controller.Hci.Search.{IsOther}
use hci_controller.Hci.Search.Reach.{IsSound}
use hci_controller.Hci.Wait.{Connection, parse_connection, phy_update, wait_for}
use hci_controller.Hci.Wait.Order.{wait_for_found, wait_for_returned, Kept}
use hci_controller.Hci.Wait.Connections.{enhanced, body_of, parse_connection-body_of}

abbrev data_packet : Packet
data_packet = record { kind = 0x02; code = none; body = 1 ∷ 0 ∷ 0 ∷ 0 ∷ [] }

-- LE PHY Update Complete for a handle, with 2M in both directions.
abbrev phy_packet : ℕ → Packet
phy_packet handle = record {
  kind = 0x04;
  code = some 0x3E;
  body = 0x0C ∷ 0 ∷ handle ∷ 0 ∷ 2 ∷ 2 ∷ [];
}

abbrev waiting : Hci
waiting = record init { pending = data_packet ∷ [] }

phy_packet-IsSound : (n : ℕ) → IsSound (phy_packet n)
unfolding read_wire on_event
phy_packet-IsSound n h = refl

phy_found : phy_update 1 (phy_packet 1) ≡ ok (some (0, 2, 2))
unfolding phy_update
phy_found = refl

phy_packet-IsOther : IsOther (phy_update 1) (phy_packet 2)
unfolding phy_update
phy_packet-IsOther = refl

data_packet-IsOther : IsOther (phy_update 1) data_packet
unfolding phy_update
data_packet-IsOther = refl

abbrev phy_reads : List (Result (Option Packet))
phy_reads =
    (ok none ∷ ok (some (phy_packet 2)) ∷ [])
    ++ (ok (some (phy_packet 1)) ∷ ok (some data_packet) ∷ [])

abbrev phy_run : Ended (Option (ℕ × ℕ × ℕ))
phy_run = wait_for (phy_update 1) 5 phy_reads waiting

wait_for_found_example :
    (phy_run.result ≡ ok (some (0, 2, 2)))
    × (phy_run.hci.pending ≡ data_packet ∷ phy_packet 2 ∷ [])
    × (phy_run.reads ≡ ok (some data_packet) ∷ [])
wait_for_found_example =
    wait_for_found (phy_update 1) 5 (ok none ∷ ok (some (phy_packet 2)) ∷ [])
      (ok (some data_packet) ∷ []) (phy_packet 1) (0, 2, 2) waiting phy_found (phy_packet-IsSound 1)
      (data_packet-IsOther, tt) (tt, ((phy_packet-IsOther, phy_packet-IsSound 2), tt)) (omega arith)

phy_run_found : phy_run.result ≡ ok (some (0, 2, 2))
phy_run_found =
    (wait_for_found (phy_update 1) 5 (ok none ∷ ok (some (phy_packet 2)) ∷ [])
      (ok (some data_packet) ∷ []) (phy_packet 1) (0, 2, 2) waiting phy_found (phy_packet-IsSound 1)
      (data_packet-IsOther, tt) (tt, ((phy_packet-IsOther, phy_packet-IsSound 2), tt))
      (omega arith)).0

wait_for_returned_example : Kept (phy_update 1) waiting.pending phy_reads (some (0, 2, 2)) phy_run
wait_for_returned_example =
    wait_for_returned (phy_update 1) 5 phy_reads waiting (some (0, 2, 2)) phy_run_found

abbrev peer : List ℕ
peer = 1 ∷ 2 ∷ 3 ∷ 4 ∷ 5 ∷ 6 ∷ []

abbrev connection : Connection
connection = record {
  status = 0;
  handle = 1;
  role = 1;
  peer = peer;
  interval = 24;
  latency = 0;
  timeout = 72;
}

parse_connection-body_of_example :
    parse_connection (body_of (enhanced (peer ++ peer)) 1 connection (9 ∷ [])) ≡ some connection
parse_connection-body_of_example =
    parse_connection-body_of (enhanced (peer ++ peer)) 1 connection (9 ∷ []) refl
      (omega arith, refl, omega arith, omega arith, omega arith)

abbrev two_links : List Entry
two_links = record { handle = 1; count = 3 } ∷ record { handle = 2; count = 256 } ∷ []

on_event-entries_example :
    on_event 0x13 (2 ∷ entries two_links) (record init { acl_credits = negsuc 0 })
    ≡ counted (pos 258) 259 (record init { acl_credits = negsuc 0 })
on_event-entries_example =
    on_event-entries two_links (record init { acl_credits = negsuc 0 })
      (omega arith, (omega arith, tt))
