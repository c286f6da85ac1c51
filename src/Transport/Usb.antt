-- ===== src/Transport/Usb.antt =====
-- `NativeUsbTransport` of python/hcicontroller/hci_transport.py: the reassembly of USB transfers into
-- packets, and the reader threads. PyUSB's transfers are the script of a reader.
pub mod Framing
pub mod Delivery
pub mod Stop
pub mod Queue
mod Write
mod Parser
mod Examples
use hci_controller.Base.{
  ltb, ◌==◌, if◌then◌else◌, length, get_or, take, drop, slice, from_little, Exn, Result, ok, err,
  transport_error, ℕ, zero, suc, ◌+◌, ◌%◌, Option, none, some, List, [], ◌∷◌, ◌++◌,
}
use hci_controller.Transport.Packet.{Packet, h4_event, h4_acl, h4_iso}

-- The three readers of `_start_readers`: one with Bulk Serialization, two without.
pub data Reader : Type 0 where
  serialized events acls : Reader

-- `_event_expected`
pub event_expected : List ℕ → Option ℕ
event_expected bs = if ltb (length bs) 2 then none else some (get_or bs 1 0 + 2)

-- `_acl_expected`
pub acl_expected : List ℕ → Option ℕ
acl_expected bs = if ltb (length bs) 4 then none else some (from_little (slice bs 2 4) + 4)

-- the ISO case of `_serialized_expected`
pub iso_expected : List ℕ → Option ℕ
iso_expected bs = if ltb (length bs) 4 then none else some (from_little (slice bs 2 4) % 0x4000 + 4)

-- `None if expected is None else expected + 1`
abbrev with_indicator : Option ℕ → Option ℕ
with_indicator none = none
with_indicator (some n) = some (n + 1)

-- `_serialized_expected`
pub serialized_expected : List ℕ → Result (Option ℕ)
unfolding event_expected acl_expected iso_expected
serialized_expected [] = ok none
serialized_expected (kind ∷ body) =
    if kind == h4_event
    then ok (with_indicator (event_expected body))
    else if kind == h4_acl
    then ok (with_indicator (acl_expected body))
    else if kind == h4_iso
    then ok (with_indicator (iso_expected body))
    else err transport_error

-- The arguments `expected_fn`, `maximum` and `parser` of each `_start_reader` call.
pub expected_fn : Reader → List ℕ → Result (Option ℕ)
unfolding serialized_expected
expected_fn serialized bs = serialized_expected bs
expected_fn events bs = ok (event_expected bs)
expected_fn acls bs = ok (acl_expected bs)

abbrev pub maximum : Reader → ℕ
maximum serialized = 1025
maximum events = 257
maximum acls = 1024

-- `_take_complete`: the packet's octets and the buffer that is left. A length beyond the maximum
-- clears the buffer and raises.
pub take_complete : Reader → List ℕ → Result (Option (List ℕ)) × List ℕ
take_complete r buffer = elim (expected_fn r buffer) [
  | err e ↦ (err e, buffer)
  | ok none ↦ (ok none, buffer)
  | ok (some expected) ↦
      if ltb (maximum r) expected
      then (err transport_error, [])
      else if ltb (length buffer) expected
      then (ok none, buffer)
      else (ok (some (take expected buffer)), drop expected buffer)
]

-- `_parse_event`
pub parse_event : List ℕ → Result Packet
parse_event bs =
    if ltb (length bs) 2
    then err transport_error
    else if length bs == get_or bs 1 0 + 2
    then ok (record { kind = h4_event; code = some (get_or bs 0 0); body = drop 2 bs })
    else err transport_error

-- `_parse_acl`
pub parse_acl : List ℕ → Result Packet
parse_acl bs =
    if ltb (length bs) 4
    then err transport_error
    else if length bs == from_little (slice bs 2 4) + 4
    then ok (record { kind = h4_acl; code = none; body = bs })
    else err transport_error

-- `_parse_iso`
pub parse_iso : List ℕ → Result Packet
parse_iso bs =
    if ltb (length bs) 4
    then err transport_error
    else if length bs == from_little (slice bs 2 4) % 0x4000 + 4
    then ok (record { kind = h4_iso; code = none; body = bs })
    else err transport_error

-- `_parse_serialized`
pub parse_serialized : List ℕ → Result Packet
unfolding parse_event parse_acl parse_iso
parse_serialized [] = err transport_error
parse_serialized (kind ∷ body) =
    if kind == h4_event
    then parse_event body
    else if kind == h4_acl
    then parse_acl body
    else if kind == h4_iso
    then parse_iso body
    else err transport_error

pub parser : Reader → List ℕ → Result Packet
unfolding parse_serialized
parser serialized bs = parse_serialized bs
parser events bs = parse_event bs
parser acls bs = parse_acl bs

-- What one `endpoint.read` gives: its octets, a USB timeout, or an error as
-- `_classify_usb_error` raises it.
pub data Transfer : Type 0 where
  received : List ℕ → Transfer
  timed_out : Transfer
  failed : Exn → Transfer

-- The second part of `_read_complete`: one transfer, and another look at the buffer. Where the
-- transfers end the read stays submitted, and the round gives nothing.
pub read_more : Reader → List ℕ → List Transfer → Result (Option (List ℕ)) × List ℕ × List Transfer
read_more r buffer [] = (ok none, buffer, [])
read_more r buffer (timed_out ∷ more) = (ok none, buffer, more)
read_more r buffer (failed e ∷ more) = (err e, buffer, more)
read_more r buffer (received bs ∷ more) =
    let (got, left) = take_complete r (buffer ++ bs) in (got, left, more)

-- `_read_complete`, with the buffer and the transfers before and after.
pub read_complete :
    Reader → List ℕ → List Transfer → Result (Option (List ℕ)) × List ℕ × List Transfer
read_complete r buffer transfers =
    let (got, rest) = take_complete r buffer in
    elim got [
      | err e ↦ (err e, rest, transfers)
      | ok (some packet) ↦ (ok (some packet), rest, transfers)
      | ok none ↦ read_more r rest transfers
    ]

-- A reader thread: its buffer, the transfers to come, and what it shares with the callers, the
-- queue `_reader_packets` and `_reader_error`.
pub record Thread : Type 0 where
  pub buffer : List ℕ
  pub transfers : List Transfer
  pub packets : List Packet
  pub error : Option Exn

-- `self._queue_reader_packet(parser(data))`, or the round's other ends: nothing yet, or
-- `_fail_reader`.
pub settle : Reader → Thread → Result (Option (List ℕ)) → Thread
settle r t (err e) = record t { error = some e }
settle r t (ok none) = t
settle r t (ok (some octets)) = elim (parser r octets) [
  | err e ↦ record t { error = some e }
  | ok packet ↦ record t { packets = t.packets ++ (packet ∷ []) }
]

-- One round of `_reader_loop` while nothing else has set `_reader_stop`. After `_fail_reader` the thread
-- has ended.
pub reader_round : Reader → Thread → Thread
reader_round r t = elim t.error [
  | some e ↦ t
  | none ↦
      let (got, buffer, transfers) = read_complete r t.buffer t.transfers in
      settle r (record t { buffer = buffer; transfers = transfers }) got
]

pub reader_rounds : ℕ → Reader → Thread → Thread
reader_rounds zero r t = t
reader_rounds (suc n) r t = reader_rounds n r (reader_round r t)
