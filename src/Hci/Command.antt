-- ===== src/Hci/Command.antt =====
-- `Hci.command`, `send_acl` and `read_counters` of python/hcicontroller/hci_ble_test_impl.py.
pub mod Reply
pub mod Answer
pub mod Returns
pub mod Counters
mod Examples
use hci_controller.Base.{
  ltb, ◌==◌, if◌then◌else◌, length, get_or, drop, slice, ◌+ℤ◌, u16, from_little, Exn, Result, ok,
  err, hci_error, struct_error, negsuc, ℕ, zero, suc, ◌/◌, Bool, true, false, not, ◌&&◌, Option,
  none, some, List, [], ◌∷◌, ◌++◌,
}
use hci_controller.Transport.Packet.{Packet, h4_command, h4_acl, h4_event}
use hci_controller.Hci.{Hci, Outcome, evt_command_complete, evt_command_status, translate}
use hci_controller.Hci.Search.{Found, search}

abbrev pub is_event : ℕ → Packet → Bool
is_event code p = elim p.code [ none ↦ false | some c ↦ (p.kind == h4_event) && (c == code) ]

-- Whether a packet answers the command: the status and the data that it carries, a raise where a
-- field is cut short.
unfoldable pub answer : ℕ → Packet → Result (Option (ℕ × List ℕ))
answer opcode p =
    let b = p.body in
    if is_event evt_command_complete p
    then (if ltb (length b) 3
        then err struct_error
        else if from_little (slice b 1 3) == opcode
        then ok (some ((if ltb 3 (length b) then get_or b 3 0 else 0), drop 4 b))
        else ok none)
    else if is_event evt_command_status p
    then (if ltb (length b) 4
        then err struct_error
        else if from_little (slice b 2 4) == opcode
        then ok (some (get_or b 0 0, []))
        else ok none)
    else ok none

-- A status that is not 0 raises, unless the caller allows it.
abbrev pub judge : Bool → ℕ × List ℕ → Result (ℕ × List ℕ)
judge allow_fail (status, result) =
    if not (status == 0) && not allow_fail then err hci_error else ok (status, result)

-- What a method that talks to the controller leaves: its result, the object, the reads not made.
pub record Ended {ℓ} (A : Type ℓ) : Type ℓ where
  pub result : Result A
  pub hci : Hci
  pub reads : List (Result (Option Packet))

-- The end of `command`: the packets put aside go behind those still pending, unless the loop raised.
unfoldable pub finish : Bool → Found (ℕ × List ℕ) → Ended (ℕ × List ℕ)
finish allow_fail o =
    let h' : Hci = record o.hci { pending = o.hci.pending ++ o.deferred } in
    elim o.result [
      | err e ↦ record { result = err e; hci = o.hci; reads = o.reads }
      | ok none ↦ record { result = err hci_error; hci = h'; reads = o.reads }
      | ok (some a) ↦ record { result = judge allow_fail a; hci = h'; reads = o.reads }
    ]

-- `struct.pack("<BHB", H4_COMMAND, opcode, len(payload)) + payload`
unfoldable pub command_octets : ℕ → List ℕ → Result (List ℕ)
command_octets opcode payload =
    if ltb opcode 65536 && ltb (length payload) 256
    then ok (h4_command ∷ (u16 opcode ++ (length payload ∷ payload)))
    else err struct_error

-- `command`; `write` is what the transport's `write_packet` does with the octets.
unfoldable pub command :
    (List ℕ → Option Exn)
    → ℕ
    → List (Result (Option Packet))
    → ℕ
    → List ℕ
    → Bool
    → Hci
    → Ended (ℕ × List ℕ)
command write turns reads opcode payload allow_fail h = elim (command_octets opcode payload) [
  | err e ↦ record { result = err e; hci = h; reads = reads }
  | ok octets ↦ elim (write octets) [
    | some e ↦ record { result = err (translate e); hci = h; reads = reads }
    | none ↦ finish allow_fail (search (answer opcode) turns reads [] h)
  ]
]

-- `struct.pack("<HH", handle, length) + ...` with the flags of a first fragment, which are 0.
unfoldable pub acl_octets : ℕ → ℕ → List ℕ → Result (List ℕ)
acl_octets handle cid payload =
    let l2cap = u16 (length payload) ++ (u16 cid ++ payload) in
    if ltb (length l2cap) 65536 && (ltb cid 65536 && ltb handle 65536)
    then ok (h4_acl ∷ (u16 handle ++ (u16 (length l2cap) ++ l2cap)))
    else err struct_error

-- `send_acl`
unfoldable pub send_acl : (List ℕ → Option Exn) → ℕ → ℕ → List ℕ → Hci → Outcome (Unit {0})
send_acl write handle cid payload h = elim (acl_octets handle cid payload) [
  | err e ↦ record { result = err e; hci = h }
  | ok octets ↦ elim (write octets) [
    | some e ↦ record { result = err (translate e); hci = h }
    | none ↦ record { result = ok tt; hci = record h { acl_credits = h.acl_credits +ℤ negsuc 0 } }
  ]
]

-- The counters of a block, `n` of them, from its second octet on.
pub counters : ℕ → List ℕ → List ℕ
counters zero rest = []
counters (suc n) rest = from_little (slice rest 0 4) ∷ counters n (drop 4 rest)

-- `read_counters` after its command: `none` for a controller that does not carry it.
pub read_values : ℕ × List ℕ → Option (List ℕ)
unfolding counters
read_values (status, []) = none
read_values (status, version ∷ rest) =
    if not (status == 0) then none else some (counters (length rest / 4) rest)

abbrev pub op_vs_read_counters : ℕ
op_vs_read_counters = 0xFFF0

-- `read_counters`
pub read_counters :
    (List ℕ → Option Exn) → ℕ → List (Result (Option Packet)) → Hci → Ended (Option (List ℕ))
unfolding read_values command
read_counters write turns reads h =
    let o = command write turns reads op_vs_read_counters [] true h in
    record {
      result = elim o.result [ err e ↦ err e | ok a ↦ ok (read_values a) ];
      hci = o.hci;
      reads = o.reads;
    }
