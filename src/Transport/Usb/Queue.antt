-- ===== src/Transport/Usb/Queue.antt =====
-- The callers' side of `NativeUsbTransport` (python/hcicontroller/hci_transport.py): the packets that
-- the reader threads have queued, `read_packet` and `has_pending_input`. What the threads do while a
-- caller waits on the condition, and the clock, are the script of a call.
pub mod Order
use hci_controller.Base.{
  if◌then◌else◌, Exn, Result, ok, err, Bool, true, false, Option, none, some, List, [], ◌∷◌, ◌++◌,
}
use hci_controller.Transport.Packet.{Packet}

pub record Mailbox : Type 0 where
  pub prefetched : List Packet
  pub packets : List Packet
  pub error : Option Exn

-- What wakes `_reader_condition.wait`: a queued packet, a reader's failure, or the time-out (with
-- whether the deadline has passed then).
pub data Wake : Type 0 where
  queued : Packet → Wake
  reader_failed : Exn → Wake
  woken : Bool → Wake

-- `_queue_reader_packet` and `_fail_reader`, which keeps the first error.
pub notify : Wake → Mailbox → Mailbox
notify (queued p) m = record m { packets = m.packets ++ (p ∷ []) }
notify (reader_failed e) m = elim m.error [ none ↦ record m { error = some e } | some old ↦ m ]
notify (woken late) m = m

-- How a call ends: its result, the mailbox that it leaves, and what happens only afterwards.
pub record Outcome : Type 0 where
  pub result : Result (Option Packet)
  pub mailbox : Mailbox
  pub later : List Wake

-- One look at the mailbox in the loop of `read_packet`: `none` to wait.
pub look : Bool → Mailbox → Option (Result (Option Packet) × Mailbox)
look expired m = elim m.packets [
  | p ∷ ps ↦ some (ok (some p), record m { packets = ps })
  | [] ↦ elim m.error [
    | some e ↦ some (err e, m)
    | none ↦ if expired then some (ok none, m) else none
  ]
]

abbrev pub is_late : Wake → Bool
is_late (woken late) = late
is_late _ = false

-- The loop of `read_packet`; `expired` is `timeout <= 0` or a deadline that has passed.
pub wait_packet : Bool → List Wake → Mailbox → Outcome
wait_packet expired [] m = elim (look expired m) [
  | some (r, m') ↦ record { result = r; mailbox = m'; later = [] }
  | none ↦ record { result = ok none; mailbox = m; later = [] }
]
wait_packet expired (w ∷ ws) m =
    let next = wait_packet (is_late w) ws (notify w m) in
    elim (look expired m) [
      | some (r, m') ↦ record { result = r; mailbox = m'; later = w ∷ ws }
      | none ↦ next
    ]

-- `read_packet`
pub read_packet : Bool → List Wake → Mailbox → Outcome
unfolding wait_packet look notify
read_packet expired ws m = elim m.prefetched [
  | p ∷ ps ↦ record { result = ok (some p); mailbox = record m { prefetched = ps }; later = ws }
  | [] ↦ wait_packet expired ws m
]

-- How a `has_pending_input` ends.
pub record Probe : Type 0 where
  pub answer : Result Bool
  pub mailbox : Mailbox
  pub later : List Wake

-- The end of `has_pending_input`, after its `read_packet(0.001)`.
pub probe_end : Outcome → Probe
probe_end o = elim o.result [
  | err e ↦ record { answer = err e; mailbox = o.mailbox; later = o.later }
  | ok none ↦ record { answer = ok false; mailbox = o.mailbox; later = o.later }
  | ok (some p) ↦ record {
    answer = ok true;
    mailbox = record o.mailbox { prefetched = o.mailbox.prefetched ++ (p ∷ []) };
    later = o.later;
  }
]

-- `has_pending_input`
pub has_pending_input : List Wake → Mailbox → Probe
unfolding read_packet probe_end
has_pending_input ws m = elim m.prefetched [
  | p ∷ ps ↦ record { answer = ok true; mailbox = m; later = ws }
  | [] ↦ probe_end (read_packet false ws m)
]
