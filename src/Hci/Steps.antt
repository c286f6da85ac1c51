-- ===== src/Hci/Steps.antt =====
-- What the loop of the commands and the waits does with the packets: none is lost, and the answer is
-- reached.
use hci_controller.Base.{
  ltb, ◌==◌, Bool-cases, Option-cases, length, get_or, drop, Result-cases, Exn, Result, ok, err, ℕ,
  zero, suc, ◌≡◌, refl, ap, ◌∙◌, ◌⊎◌, inl, inr, false, not, ◌&&◌, Option, none, some, List, [], ◌∷◌,
  ◌++◌, arith,
}
use hci_controller.Transport.Packet.{Packet, h4_event}
use hci_controller.Hci.{
  Hci, read_wire, on_event, count_completed, note_disconnection, note_ltk_request, note_encryption,
  evt_num_completed_packets,
}

-- The packets that reads of the wire give.
abbrev pub packets_of : List (Result (Option Packet)) → List Packet
packets_of [] = []
packets_of (ok (some p) ∷ rs) = p ∷ packets_of rs
packets_of (_ ∷ rs) = packets_of rs

pub packets_of-append :
    (xs ys : List (Result (Option Packet))) → packets_of (xs ++ ys) ≡ packets_of xs ++ packets_of ys
packets_of-append [] ys = refl
packets_of-append (ok (some p) ∷ xs) ys = ap (◌∷◌ p) (packets_of-append xs ys)
packets_of-append (ok none ∷ xs) ys = packets_of-append xs ys
packets_of-append (err e ∷ xs) ys = packets_of-append xs ys

pub count_completed-pending :
    (n : ℕ) (rest : List ℕ) (h : Hci) → (count_completed n rest h).hci.pending ≡ h.pending
unfolding count_completed
count_completed-pending zero rest h = refl
count_completed-pending (suc n) rest h = elim (Bool-cases (ltb (length rest) 4)) [
  | inl e ↦ rw e refl
  | inr e ↦ rw e (count_completed-pending n (drop 4 rest) _)
]

note_disconnection-pending :
    (code : ℕ) (body : List ℕ) (h : Hci) → (note_disconnection code body h).pending ≡ h.pending
unfolding note_disconnection
note_disconnection-pending code body h = ground arith

note_ltk_request-pending :
    (code : ℕ) (body : List ℕ) (h : Hci) → (note_ltk_request code body h).pending ≡ h.pending
unfolding note_ltk_request
note_ltk_request-pending code body h = ground arith

note_encryption-pending :
    (code : ℕ) (body : List ℕ) (h : Hci) → (note_encryption code body h).pending ≡ h.pending
unfolding note_encryption
note_encryption-pending code body h = ground arith

noted-pending :
    (code : ℕ) (body : List ℕ) (h : Hci)
    → (note_encryption code body
        (note_ltk_request code body (note_disconnection code body h))).pending
      ≡ h.pending
noted-pending code body h =
    note_encryption-pending code body _
    ∙ note_ltk_request-pending code body _
    ∙ note_disconnection-pending code body h

pub on_event-pending :
    (code : ℕ) (body : List ℕ) (h : Hci) → (on_event code body h).hci.pending ≡ h.pending
unfolding on_event
on_event-pending code body h =
    elim (Bool-cases ((code == evt_num_completed_packets) && not (ltb (length body) 1))) [
      | inl e ↦
          rw e
            (count_completed-pending (get_or body 0 0) (drop 1 body) _ ∙ noted-pending code body h)
      | inr e ↦ rw e (noted-pending code body h)
    ]

pub read_wire-pending :
    (r : Result (Option Packet)) (h : Hci) → (read_wire r h).hci.pending ≡ h.pending
unfolding read_wire
read_wire-pending (err e) h = refl
read_wire-pending (ok none) h = refl
read_wire-pending (ok (some p)) h = elim (Option-cases p.code) [
  | inl e ↦ rw e refl
  | inr (c, e) ↦ elim (Bool-cases (p.kind == h4_event)) [
    | inl f ↦ rw (e, f) (on_event-pending c p.body h)
    | inr f ↦ rw (e, f) refl
  ]
]

-- A read either raises or gives what the transport gave.
abbrev Passes : Result (Option Packet) → Hci → Type 0
Passes r h = ((x : Exn) × ((read_wire r h).result ≡ err x)) ⊎ ((read_wire r h).result ≡ r)

packet-Passes :
    (kind : ℕ) (code : Option ℕ) (body : List ℕ) (h : Hci)
    → Passes (ok (some (record { kind = kind; code = code; body = body }))) h
unfolding read_wire
packet-Passes kind none body h = inr refl
packet-Passes kind (some c) body h = elim (Bool-cases (kind == h4_event)) [
  | inl k ↦ elim (Result-cases (on_event c body h).result) [
    | inl (x, raised) ↦ inl (x, rw (k, raised) refl)
    | inr (u, fine) ↦ inr (rw (k, fine) refl)
  ]
  | inr k ↦ inr (rw k refl)
]

pub read_wire-Passes : (r : Result (Option Packet)) (h : Hci) → Passes r h
unfolding read_wire
read_wire-Passes (err e) h = inl (_, refl)
read_wire-Passes (ok none) h = inr refl
read_wire-Passes (ok (some q)) h = packet-Passes q.kind q.code q.body h

pub silent_result : (h : Hci) → (read_wire (ok none) h).result ≡ ok none
unfolding read_wire
silent_result h = refl

pub silent_hci : (h : Hci) → (read_wire (ok none) h).hci ≡ h
unfolding read_wire
silent_hci h = refl

-- A packet without a code is read as it is.
pub packet_read :
    (kind : ℕ) (body : List ℕ) (h : Hci)
    → let p : Packet = record { kind = kind; code = none; body = body } in
      (read_wire (ok (some p)) h).result ≡ ok (some p)
unfolding read_wire
packet_read kind body h = refl

-- Only Number Of Completed Packets can make `on_event` raise.
pub event_read :
    (code : ℕ) (body : List ℕ) (h : Hci)
    → (code == evt_num_completed_packets) ≡ false
    → let p : Packet = record { kind = h4_event; code = some code; body = body } in
      (read_wire (ok (some p)) h).result ≡ ok (some p)
unfolding read_wire on_event
event_read code body h e = rw e refl
