-- ===== src/Hci/Wait.antt =====
-- The waits of python/hcicontroller/hci_ble_test.py for one event, and `parse_connection` of
-- hci_events.py, which one of them uses.
pub mod Order
pub mod Connections
mod Examples
use hci_controller.Base.{
  ltb, ◌==◌, if◌then◌else◌, length, get_or, slice, from_little, Result, ok, err, ℕ, ◌+◌, ◌%◌, not,
  ◌&&◌, ◌||◌, Option, none, some, List, [], ◌∷◌, ◌++◌,
}
use hci_controller.Transport.Packet.{Packet}
use hci_controller.Hci.{Hci, evt_le_meta, read_wire}
use hci_controller.Hci.Search.{Found, search}
use hci_controller.Hci.Command.{Ended, is_event}

-- `_restore_packets`
pub restore_packets : Hci → List Packet → Hci
restore_packets h [] = h
restore_packets h (p ∷ ps) = record h { pending = (p ∷ ps) ++ h.pending }

module _ {ℓ} {A : Type ℓ} where
  -- The end of a wait: the packets put aside go ahead of those still pending, unless the loop raised.
  pub conclude : Found A → Ended (Option A)
  unfolding restore_packets
  conclude o = elim o.result [
    | err e ↦ record { result = err e; hci = o.hci; reads = o.reads }
    | ok found ↦ record {
      result = ok found;
      hci = restore_packets o.hci o.deferred;
      reads = o.reads;
    }
  ]

  -- A wait for the event that `pick` reads.
  pub wait_for :
      (Packet → Result (Option A)) → ℕ → List (Result (Option Packet)) → Hci → Ended (Option A)
  unfolding conclude
  wait_for pick turns reads h = conclude (search pick turns reads [] h)

abbrev pub le_connection_complete : ℕ
le_connection_complete = 0x01

abbrev pub le_enhanced_connection_complete : ℕ
le_enhanced_connection_complete = 0x0A

abbrev pub le_enhanced_connection_complete_v2 : ℕ
le_enhanced_connection_complete_v2 = 0x29

pub record Connection : Type 0 where
  pub status : ℕ
  pub handle : ℕ
  pub role : ℕ
  pub peer : List ℕ
  pub interval : ℕ
  pub latency : ℕ
  pub timeout : ℕ

-- The tuple that `parse_connection` returns, the interval triple at `at`.
abbrev pub connection_at : ℕ → List ℕ → Connection
connection_at at body = record {
  status = get_or body 1 0;
  handle = from_little (slice body 2 4) % 0x1000;
  role = get_or body 4 0;
  peer = slice body 6 12;
  interval = from_little (slice body at (at + 2));
  latency = from_little (slice body (at + 2) (at + 4));
  timeout = from_little (slice body (at + 4) (at + 6));
}

-- `parse_connection`
pub parse_connection : List ℕ → Option Connection
parse_connection [] = none
parse_connection (sub ∷ rest) =
    let body = sub ∷ rest in
    if sub == le_connection_complete
    then (if ltb (length body) 18 then none else some (connection_at 12 body))
    else if (sub == le_enhanced_connection_complete) || (sub == le_enhanced_connection_complete_v2)
    then (if ltb (length body) 30 then none else some (connection_at 24 body))
    else none

abbrev pub le_phy_update_complete : ℕ
le_phy_update_complete = 0x0C

abbrev pub le_transmit_power_reporting : ℕ
le_transmit_power_reporting = 0x21

abbrev pub power_report_reason_read_remote : ℕ
power_report_reason_read_remote = 0x02

-- What `_wait_for_cancel_terminal` waits for.
pub cancel_terminal : Packet → Result (Option Connection)
unfolding parse_connection
cancel_terminal p = if is_event evt_le_meta p then ok (parse_connection p.body) else ok none

-- What `_wait_for_phy_update` waits for: status, transmit and receive PHY.
pub phy_update : ℕ → Packet → Result (Option (ℕ × ℕ × ℕ))
phy_update handle p =
    let b = p.body in
    if is_event evt_le_meta p
      && (not (ltb (length b) 6) && (get_or b 0 0 == le_phy_update_complete))
    then (if from_little (slice b 2 4) % 0x1000 == handle
        then ok (some (get_or b 1 0, get_or b 4 0, get_or b 5 0))
        else ok none)
    else ok none

-- What `_wait_for_remote_tx_power_report` waits for: the status.
pub remote_tx_power_report : ℕ → Packet → Result (Option ℕ)
remote_tx_power_report handle p =
    let b = p.body in
    if is_event evt_le_meta p
      && (not (ltb (length b) 5) && (get_or b 0 0 == le_transmit_power_reporting))
    then (if (from_little (slice b 2 4) % 0x1000 == handle)
          && (get_or b 4 0 == power_report_reason_read_remote)
        then ok (some (get_or b 1 0))
        else ok none)
    else ok none

-- `_wait_for_cancel_terminal`
pub wait_for_cancel_terminal : ℕ → List (Result (Option Packet)) → Hci → Ended (Option Connection)
unfolding wait_for
wait_for_cancel_terminal turns reads h = wait_for cancel_terminal turns reads h

-- `_wait_for_phy_update`
pub wait_for_phy_update : ℕ → ℕ → List (Result (Option Packet)) → Hci → Ended (Option (ℕ × ℕ × ℕ))
unfolding wait_for
wait_for_phy_update handle turns reads h = wait_for (phy_update handle) turns reads h

-- `_wait_for_remote_tx_power_report`
pub wait_for_remote_tx_power_report : ℕ → ℕ → List (Result (Option Packet)) → Hci → Ended (Option ℕ)
unfolding wait_for
wait_for_remote_tx_power_report handle turns reads h =
    wait_for (remote_tx_power_report handle) turns reads h

-- `_poll_ready_events`: one read of the wire for each `has_pending_input` that says so; a raise of
-- either is an error of the script.
pub poll_ready_events : List (Result (Option Packet)) → Hci → Ended (Unit {0})
poll_ready_events [] h = record { result = ok tt; hci = h; reads = [] }
poll_ready_events (r ∷ rs) h =
    let o = read_wire r h in
    elim o.result [
      | err e ↦ record { result = err e; hci = o.hci; reads = rs }
      | ok none ↦ record { result = ok tt; hci = o.hci; reads = rs }
      | ok (some p) ↦ poll_ready_events rs (record o.hci { pending = o.hci.pending ++ (p ∷ []) })
    ]
