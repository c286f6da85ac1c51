-- ===== src/Transport/Serial.antt =====
-- `SerialH4Transport` of python/hcicontroller/hci_transport.py: H:4 over a byte stream.
-- The port (pyserial) and the clock are the script of a call: what each poll of the port gives.
pub mod Framing
pub mod Delivery
mod Examples
use hci_controller.Base.{
  ltb, ◌==◌, if◌then◌else◌, length, get_or, take, drop, slice, from_little, Result, ok, err,
  transport_error, transport_gone, ℕ, ◌+◌, ◌%◌, Bool, ◌||◌, Option, none, some, List, [], ◌∷◌, ◌++◌,
  ◌>>=◌,
}
use hci_controller.Transport.Packet.{Packet, h4_event, h4_acl, h4_iso}

-- `_expected_length`
pub expected_length : List ℕ → Result (Option ℕ)
expected_length [] = ok none
expected_length (kind ∷ rest) =
    let data' = kind ∷ rest in
    if kind == h4_event
    then (if ltb (length data') 3 then ok none else ok (some (3 + get_or data' 2 0)))
    else if kind == h4_acl
    then (if ltb (length data') 5 then ok none else ok (some (5 + from_little (slice data' 3 5))))
    else if kind == h4_iso
    then (if ltb (length data') 5
        then ok none
        else ok (some (5 + from_little (slice data' 3 5) % 0x4000)))
    else err transport_error

-- The tuple that `_take_packet` returns for one complete packet.
pub unpack : List ℕ → Packet
unpack packet =
    let kind = get_or packet 0 0 in
    if kind == h4_event
    then record { kind = kind; code = some (get_or packet 1 0); body = drop 3 packet }
    else record { kind = kind; code = none; body = drop 1 packet }

-- The rest of `_take_packet` once the expected length is known.
pub take_expected : List ℕ → Option ℕ → Result (Option Packet × List ℕ)
unfolding unpack
take_expected rx none = ok (none, rx)
take_expected rx (some expected) =
    if ltb (length rx) expected
    then ok (none, rx)
    else ok (some (unpack (take expected rx)), drop expected rx)

-- `_take_packet`, with the buffer `_rx` before and after. A raise leaves the buffer as it was.
pub take_packet : List ℕ → Result (Option Packet × List ℕ)
unfolding expected_length take_expected
take_packet rx = do expected ← expected_length rx; take_expected rx expected

-- One look at the port and at the clock: what `in_waiting` and `read` gave (`none` is a
-- SerialException or an OSError), and whether the deadline had passed if that was no data.
pub record Poll : Type 0 where
  pub chunk : Option (List ℕ)
  pub late : Bool

-- How a `read_packet` ends: its result, the buffer that it leaves, the polls that it did not make.
pub record Outcome : Type 0 where
  pub result : Result (Option Packet)
  pub rx : List ℕ
  pub polls : List Poll

-- `_read_pending` and the clock, between two rounds: `none` to go on with a larger buffer.
pub poll_step : Bool → Poll → List ℕ → Option (Result (Option Packet))
poll_step expired p rx = elim p.chunk [
  | none ↦ some (err transport_gone)
  | some [] ↦ if expired || p.late then some (ok none) else none
  | some (b ∷ bs) ↦ none
]

-- `self._rx.extend(chunk)`
abbrev pub received : Poll → List ℕ
received p = elim p.chunk [ none ↦ [] | some bs ↦ bs ]

-- `read_packet`; `expired` is `timeout <= 0`. A script that ends stands for a port that stays
-- silent until the deadline has passed.
pub read_packet : Bool → List Poll → List ℕ → Outcome
unfolding poll_step
read_packet expired [] rx = elim (take_packet rx) [
  | err e ↦ record { result = err e; rx = rx; polls = [] }
  | ok (found, rx') ↦ record { result = ok found; rx = rx'; polls = [] }
]
read_packet expired (p ∷ ps) rx =
    let later = read_packet expired ps (rx ++ received p) in
    elim (take_packet rx) [
      | err e ↦ record { result = err e; rx = rx; polls = p ∷ ps }
      | ok (some packet, rx') ↦ record { result = ok (some packet); rx = rx'; polls = p ∷ ps }
      | ok (none, rx') ↦ elim (poll_step expired p rx) [
        | some r ↦ record { result = r; rx = rx; polls = ps }
        | none ↦ later
      ]
    ]
