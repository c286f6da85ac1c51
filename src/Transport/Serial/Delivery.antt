-- ===== src/Transport/Serial/Delivery.antt =====
-- `read_packet` over a whole conversation: what the port's chunks hold is what the callers see.
use hci_controller.Base.{
  length, replicate, All, length-append, split_front, Result, ok, err, transport_error, ℕ, zero,
  suc, ◌≡◌, refl, ap, ap₂, ◌∙◌, ◌≢◌, inl, inr, false, Option, none, some, List, [], ◌∷◌, ◌++◌, map,
  append_assoc, arith,
}
use hci_controller.Transport.Packet.{
  Packet, Frame, IsFrame, wire, packet_of, h4_event, h4_acl, h4_iso,
}
use hci_controller.Transport.Serial.{Poll, received, take_packet, poll_step, read_packet}
use hci_controller.Transport.Serial.Framing.{take_packet-wire, take_packet_partial}

-- The octets that the port gives during a script, in their order.
abbrev pub data_of : List Poll → List ℕ
data_of [] = []
data_of (p ∷ ps) = received p ++ data_of ps

-- The port has not gone, and the deadline has not passed at a poll without data.
abbrev pub IsLive : Poll → Type 0
IsLive p = elim p.chunk [ none ↦ ⊥ | some [] ↦ p.late ≡ false | some (b ∷ bs) ↦ Unit {0} ]

-- The octets of several packets, one behind the other.
abbrev pub stream : List Frame → List ℕ
stream [] = []
stream (f ∷ fs) = wire f ++ stream fs

-- The results of `n` calls of `read_packet`, one after the other, and what the last one left: the
-- buffer and the polls that were not made.
pub read_many : ℕ → List Poll → List ℕ → List (Result (Option Packet)) × List ℕ × List Poll
read_many zero ps rx = ([], rx, ps)
read_many (suc n) ps rx =
    let o = read_packet false ps rx in
    let (results, rx', ps') = read_many n o.polls o.rx in (o.result ∷ results, rx', ps')

read_packet_found :
    (ps : List Poll) (rx rx' : List ℕ) (p : Packet)
    → take_packet rx ≡ ok (some p, rx')
    → read_packet false ps rx ≡ record { result = ok (some p); rx = rx'; polls = ps }
unfolding read_packet
read_packet_found [] rx rx' p e = rw (e, read_packet)
read_packet_found (q ∷ ps) rx rx' p e = rw (e, read_packet)

take_packet_bad :
    (kind : ℕ) (rest : List ℕ)
    → kind ≢ h4_event
    → kind ≢ h4_acl
    → kind ≢ h4_iso
    → take_packet (kind ∷ rest) ≡ err transport_error
unfolding take_packet
take_packet_bad kind rest ne na ni = ground arith

-- A poll of a live port is always followed by another round.
live_poll_step : (p : Poll) (rx : List ℕ) → IsLive p → poll_step false p rx ≡ none
unfolding poll_step
live_poll_step p rx h = ground arith

read_packet_bad_indicator :
    (ps : List Poll) (kind : ℕ) (rest : List ℕ)
    → kind ≢ h4_event
    → kind ≢ h4_acl
    → kind ≢ h4_iso
    → read_packet false ps (kind ∷ rest)
      ≡ record { result = err transport_error; rx = kind ∷ rest; polls = ps }
unfolding read_packet
read_packet_bad_indicator [] kind rest ne na ni =
    rw (take_packet_bad kind rest ne na ni, read_packet)
read_packet_bad_indicator (p ∷ ps) kind rest ne na ni =
    rw (take_packet_bad kind rest ne na ni, read_packet)

read_packet_again :
    (p : Poll) (ps : List Poll) (rx : List ℕ)
    → IsLive p
    → take_packet rx ≡ ok (none, rx)
    → read_packet false (p ∷ ps) rx ≡ read_packet false ps (rx ++ received p)
unfolding read_packet
read_packet_again p ps rx h e = rw (e, read_packet) (rw (live_poll_step p rx h))

-- Octets that begin with a packet, in the buffer and in the chunks to come, give that packet, and
-- what follows it is still there.
pub read_packet-wire :
    (f : Frame) (rest : List ℕ) (ps : List Poll) (rx : List ℕ)
    → IsFrame f
    → All IsLive ps
    → rx ++ data_of ps ≡ wire f ++ rest
    → ((read_packet false ps rx).result ≡ ok (some (packet_of f)))
      × ((read_packet false ps rx).rx ++ data_of (read_packet false ps rx).polls ≡ rest)
      × All IsLive (read_packet false ps rx).polls
read_packet-wire f rest [] rx hf hp e = elim (split_front (wire f) rest rx [] e) [
  | inl (r, a, b) ↦
      rw (read_packet_found [] rx r (packet_of f) (rw a (take_packet-wire f r hf))) (refl, b, tt)
  | inr (x, back, a) ↦ absurd (
      omega (
        arith,
        ap length e,
        ap length a,
        length-append rx [],
        length-append (wire f) rest,
        length-append rx (x ∷ back),
      ))
]
read_packet-wire f rest (p ∷ ps) rx hf hp e =
    elim (split_front (wire f) rest rx (data_of (p ∷ ps)) e) [
      | inl (r, a, b) ↦
          rw (read_packet_found (p ∷ ps) rx r (packet_of f) (rw a (take_packet-wire f r hf)))
            (refl, b, hp)
      | inr (x, back, a) ↦
          rw (read_packet_again p ps rx hp.0 (take_packet_partial f rx back x hf a)) (
            read_packet-wire f rest ps (rx ++ received p) hf hp.1
              (append_assoc rx (received p) (data_of ps) ∙ e))
    ]

-- However a live port cuts its octets into chunks, when what the buffer holds and the port delivers
-- begins with the octets of well-formed packets, as many blocking reads return those packets, each
-- once and in order, and the octets behind the last of them are kept.
pub read_many-stream :
    (fs : List Frame) (rest : List ℕ) (ps : List Poll) (rx : List ℕ)
    → All IsFrame fs
    → All IsLive ps
    → rx ++ data_of ps ≡ stream fs ++ rest
    → ((read_many (length fs) ps rx).0 ≡ map (λ f. ok (some (packet_of f))) fs)
      × ((read_many (length fs) ps rx).1 ++ data_of (read_many (length fs) ps rx).2 ≡ rest)
unfolding read_many
read_many-stream [] rest ps rx hf hp e = (refl, e)
read_many-stream (f ∷ fs) rest ps rx hf hp e =
    let (got, left, live) =
      read_packet-wire f (stream fs ++ rest) ps rx hf.0 hp
        (e ∙ append_assoc (wire f) (stream fs) rest) in
    let o = read_packet false ps rx in
    let (results, over) = read_many-stream fs rest o.polls o.rx hf.1 live left in
    (ap₂ ◌∷◌ got results, over)

-- While the buffer begins with an octet that begins no packet, every blocking read raises, and the
-- buffer and the port are left as they are.
pub read_many_out_of_sync :
    (n : ℕ) (ps : List Poll) (kind : ℕ) (rest : List ℕ)
    → kind ≢ h4_event
    → kind ≢ h4_acl
    → kind ≢ h4_iso
    → read_many n ps (kind ∷ rest) ≡ (replicate n (err transport_error), kind ∷ rest, ps)
unfolding read_many
read_many_out_of_sync zero ps kind rest ne na ni = refl
read_many_out_of_sync (suc n) ps kind rest ne na ni =
    rw (read_packet_bad_indicator ps kind rest ne na ni)
      (rw (read_many_out_of_sync n ps kind rest ne na ni))
