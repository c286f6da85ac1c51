-- ===== src/Hci.antt =====
-- The class `Hci` of python/hcicontroller/hci_ble_test_impl.py, with the reads and writes that its
-- subclass in hci_ble_test.py passes to a transport. What the transport's reads give, in order, is the
-- script of a call.
pub mod Steps
pub mod Search
pub mod Command
pub mod Wait
pub mod Credits
pub mod Calls
pub mod Raises
use hci_controller.Base.{
  ltb, ◌==◌, if◌then◌else◌, length, get_or, drop, slice, ◌+ℤ◌, ℤ, from_little, Exn, Result, ok, err,
  transport_error, transport_gone, selection_error, hci_error, hci_gone, struct_error, pos, ℕ, zero,
  suc, ◌+◌, not, ◌&&◌, Option, none, some, List, [],
}
use hci_controller.Transport.Packet.{Packet, h4_event}

abbrev pub evt_disconnection_complete : ℕ
evt_disconnection_complete = 0x05

abbrev pub evt_encryption_change : ℕ
evt_encryption_change = 0x08

abbrev pub evt_command_complete : ℕ
evt_command_complete = 0x0E

abbrev pub evt_command_status : ℕ
evt_command_status = 0x0F

abbrev pub evt_num_completed_packets : ℕ
evt_num_completed_packets = 0x13

abbrev pub evt_le_meta : ℕ
evt_le_meta = 0x3E

abbrev pub le_long_term_key_request : ℕ
le_long_term_key_request = 0x05

-- The attributes of an `Hci`. `link_down` is (status, handle, reason), `encryption` (status, enabled).
pub record Hci : Type 0 where
  pub pending : List Packet
  pub ltk_request : Option ℕ
  pub encryption : Option (ℕ × ℕ)
  pub acl_credits : ℤ
  pub acl_advertised : ℕ
  pub acl_completed : ℕ
  pub link_down : Option (ℕ × ℕ × ℕ)
  pub acl_size : ℕ

-- `Hci.__init__`
abbrev pub init : Hci
init = record {
  pending = [];
  ltk_request = none;
  encryption = none;
  acl_credits = pos 0;
  acl_advertised = 0;
  acl_completed = 0;
  link_down = none;
  acl_size = 27;
}

-- A method's result and the object that it leaves, also where it raises.
pub record Outcome {ℓ} (A : Type ℓ) : Type ℓ where
  pub result : Result A
  pub hci : Hci

-- The loop of `on_event` over the handles of Number Of Completed Packets; `rest` is the body from
-- the handle on.
pub count_completed : ℕ → List ℕ → Hci → Outcome (Unit {0})
count_completed zero rest h = record { result = ok tt; hci = h }
count_completed (suc n) rest h =
    let done = from_little (slice rest 2 4) in
    let next = count_completed n (drop 4 rest) (record h {
      acl_credits = h.acl_credits +ℤ pos done;
      acl_completed = h.acl_completed + done;
    }) in
    if ltb (length rest) 4 then record { result = err struct_error; hci = h } else next

pub note_disconnection : ℕ → List ℕ → Hci → Hci
note_disconnection code body h =
    if (code == evt_disconnection_complete) && not (ltb (length body) 4)
    then record h {
      link_down = some (get_or body 0 0, from_little (slice body 1 3), get_or body 3 0);
    }
    else h

pub note_ltk_request : ℕ → List ℕ → Hci → Hci
note_ltk_request code body h =
    if (code == evt_le_meta)
      && (not (ltb (length body) 3) && (get_or body 0 0 == le_long_term_key_request))
    then record h { ltk_request = some (from_little (slice body 1 3)) }
    else h

pub note_encryption : ℕ → List ℕ → Hci → Hci
note_encryption code body h =
    if (code == evt_encryption_change) && not (ltb (length body) 4)
    then record h { encryption = some (get_or body 0 0, get_or body 3 0) }
    else h

-- `on_event`
unfoldable pub on_event : ℕ → List ℕ → Hci → Outcome (Unit {0})
unfolding count_completed note_disconnection note_ltk_request note_encryption
on_event code body h =
    let h' =
      note_encryption code body (note_ltk_request code body (note_disconnection code body h)) in
    if (code == evt_num_completed_packets) && not (ltb (length body) 1)
    then count_completed (get_or body 0 0) (drop 1 body) h'
    else record { result = ok tt; hci = h' }

-- The exceptions of the transport as the class passes them on: a gone transport is `HciGone`, any
-- other transport error `HciError`.
abbrev pub translate : Exn → Exn
translate transport_gone = hci_gone
translate transport_error = hci_error
translate selection_error = hci_error
translate e = e

-- `read_wire` after the transport has answered.
unfoldable pub read_wire : Result (Option Packet) → Hci → Outcome (Option Packet)
unfolding on_event
read_wire (err e) h = record { result = err (translate e); hci = h }
read_wire (ok none) h = record { result = ok none; hci = h }
read_wire (ok (some p)) h = elim p.code [
  | none ↦ record { result = ok (some p); hci = h }
  | some code ↦
      let o = on_event code p.body h in
      if p.kind == h4_event
      then record { result = elim o.result [ err e ↦ err e | ok u ↦ ok (some p) ]; hci = o.hci }
      else record { result = ok (some p); hci = h }
]
