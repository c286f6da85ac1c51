-- ===== src/Transport/Usb/Delivery.antt =====
-- A reader thread over a whole conversation: what the transfers hold is what it queues.
use hci_controller.Base.{
  length, All, length-append, split_front, append-eq-nil, ok, ℕ, zero, suc, ◌+◌, ◌≤◌, ◌≡◌, refl,
  sym, ap, subst, ◌∙◌, inl, inr, none, some, List, [], ◌∷◌, ◌++◌, map, append-nil, append_assoc,
  arith,
}
use hci_controller.Transport.Packet.{Packet, Frame, packet_of}
use hci_controller.Transport.Usb.{
  Reader, serialized, events, acls, expected_fn, Transfer, received, timed_out, failed, Thread,
  take_complete, parser, read_complete, read_more, settle, reader_round, reader_rounds,
}
use hci_controller.Transport.Usb.Framing.{
  sent, Carries, parser-sent, take_complete-sent, take_complete_partial,
}

abbrev pub data_of : List Transfer → List ℕ
data_of [] = []
data_of (received bs ∷ ts) = bs ++ data_of ts
data_of (timed_out ∷ ts) = data_of ts
data_of (failed e ∷ ts) = data_of ts

-- No transfer fails.
abbrev pub IsHealthy : Transfer → Type 0
IsHealthy (received bs) = Unit
IsHealthy timed_out = Unit
IsHealthy (failed e) = ⊥

abbrev pub stream : Reader → List Frame → List ℕ
stream r [] = []
stream r (f ∷ fs) = sent r f ++ stream r fs

abbrev pub running : List ℕ → List Transfer → List Packet → Thread
running buffer transfers packets = record {
  buffer = buffer;
  transfers = transfers;
  packets = packets;
  error = none;
}

module _ (r : Reader) (b : List ℕ) (q : List Packet) where
  round_packet :
      (ts : List Transfer) (o b' : List ℕ) (p : Packet)
      → take_complete r b ≡ (ok (some o), b')
      → parser r o ≡ ok p
      → reader_round r (running b ts q) ≡ running b' ts (q ++ (p ∷ []))
  unfolding reader_round read_complete read_more settle
  round_packet ts o b' p e f = ground arith

  round_end : take_complete r b ≡ (ok none, b) → reader_round r (running b [] q) ≡ running b [] q
  unfolding reader_round read_complete read_more settle
  round_end e = ground arith

  round_timed_out :
      (ts : List Transfer)
      → take_complete r b ≡ (ok none, b)
      → reader_round r (running b (timed_out ∷ ts) q) ≡ running b ts q
  unfolding reader_round read_complete read_more settle
  round_timed_out ts e = ground arith

  round_received :
      (ts : List Transfer) (bs : List ℕ)
      → take_complete r b ≡ (ok none, b)
      → take_complete r (b ++ bs) ≡ (ok none, b ++ bs)
      → reader_round r (running b (received bs ∷ ts) q) ≡ running (b ++ bs) ts q
  unfolding reader_round read_complete read_more settle
  round_received ts bs e f = ground arith

  round_received_packet :
      (ts : List Transfer) (bs o b' : List ℕ) (p : Packet)
      → take_complete r b ≡ (ok none, b)
      → take_complete r (b ++ bs) ≡ (ok (some o), b')
      → parser r o ≡ ok p
      → reader_round r (running b (received bs ∷ ts) q) ≡ running b' ts (q ++ (p ∷ []))
  unfolding reader_round read_complete read_more settle
  round_received_packet ts bs o b' p e f g = ground arith

record Delivered (r : Reader) (fs : List Frame) (q : List Packet) (t : Thread) : Type 0 where
  queued : t.packets ≡ q ++ map packet_of fs
  drained : t.buffer ≡ []
  alive : t.error ≡ none

take_complete_empty : (r : Reader) → take_complete r [] ≡ (ok none, [])
unfolding take_complete expected_fn
take_complete_empty serialized = refl
take_complete_empty events = refl
take_complete_empty acls = refl

quiet : (r : Reader) (b c : List ℕ) → b ++ c ≡ [] → take_complete r b ≡ (ok none, b)
quiet r b c e = rw ((append-eq-nil b c e).0) (take_complete_empty r)

Delivered-step :
    (r : Reader) (f : Frame) (fs : List Frame) (q : List Packet) (t : Thread)
    → Delivered r fs (q ++ (packet_of f ∷ [])) t
    → Delivered r (f ∷ fs) q t
Delivered-step r f fs q t d = record {
  queued = d.queued ∙ append_assoc q (packet_of f ∷ []) (map packet_of fs);
  drained = d.drained;
  alive = d.alive;
}

-- A transfer that is cut short leaves a buffer that no packet of the stream fits.
stream_cut :
    (r : Reader) (f : Frame) (rest b back : List ℕ) (x : ℕ)
    → b ++ [] ≡ sent r f ++ rest
    → sent r f ≡ b ++ (x ∷ back)
    → ⊥
stream_cut r f rest b back x e a = omega (
  arith,
  ap length e,
  ap length a,
  length-append b [],
  length-append (sent r f) rest,
  length-append b (x ∷ back),
)

module _ (n : ℕ) (r : Reader) (fs : List Frame) (q : List Packet) where
  after_round :
      (t t' : Thread)
      → reader_round r t ≡ t'
      → Delivered r fs q (reader_rounds n r t')
      → Delivered r fs q (reader_rounds (suc n) r t)
  unfolding reader_rounds
  after_round t t' e = subst (λ u. Delivered r fs q (reader_rounds n r u)) (sym e)

-- A round that finds the first packet whole in its buffer.
whole_packet :
    (n : ℕ) (r : Reader) (f : Frame) (fs : List Frame) (q : List Packet) (ts : List Transfer)
    (b o : List ℕ)
    → Carries r f
    → b ≡ sent r f ++ o
    → Delivered r fs
        (q ++ (packet_of f ∷ []))
        (reader_rounds n r (running o ts (q ++ (packet_of f ∷ []))))
    → Delivered r (f ∷ fs) q (reader_rounds (suc n) r (running b ts q))
whole_packet n r f fs q ts b o h e later =
    after_round n r (f ∷ fs) q _ _
      (round_packet r b q ts (sent r f) o (packet_of f) (rw e (take_complete-sent r f o h))
        (parser-sent r f h))
      (Delivered-step r f fs q _ later)

-- Rounds that are as many as the packets and the transfers are enough.
delivers :
    (n : ℕ) (r : Reader) (fs : List Frame) (ts : List Transfer) (b : List ℕ) (q : List Packet)
    → All (Carries r) fs
    → All IsHealthy ts
    → b ++ data_of ts ≡ stream r fs
    → length fs + length ts ≤ n
    → Delivered r fs q (reader_rounds n r (running b ts q))
unfolding reader_rounds
delivers zero r [] [] b q hf ht e le = record {
  queued = sym (append-nil q);
  drained = (append-eq-nil b [] e).0;
  alive = refl;
}
delivers zero r [] (t ∷ ts) b q hf ht e le = absurd (omega arith)
delivers zero r (f ∷ fs) ts b q hf ht e le = absurd (omega arith)
delivers (suc n) r [] [] b q hf ht e le =
    after_round n r [] q _ _ (round_end r b q (quiet r b [] e))
      (delivers n r [] [] b q hf ht e (omega arith))
delivers (suc n) r [] (timed_out ∷ ts) b q hf ht e le =
    after_round n r [] q _ _ (round_timed_out r b q ts (quiet r b (data_of ts) e))
      (delivers n r [] ts b q hf ht.1 e (omega arith))
delivers (suc n) r _ (failed x ∷ ts) b q hf ht e le = absurd ht.0
delivers (suc n) r [] (received bs ∷ ts) b q hf ht e le =
    let e' : (b ++ bs) ++ data_of ts ≡ [] = append_assoc b bs (data_of ts) ∙ e in
    after_round n r [] q _ _
      (round_received r b q ts bs (quiet r b (bs ++ data_of ts) e)
        (quiet r (b ++ bs) (data_of ts) e'))
      (delivers n r [] ts (b ++ bs) q hf ht.1 e' (omega arith))
delivers (suc n) r (f ∷ fs) [] b q hf ht e le = elim (split_front (sent r f) (stream r fs) b [] e) [
  | inl (o, eb, eo) ↦
      whole_packet n r f fs q [] b o hf.0 eb
        (delivers n r fs [] o (q ++ (packet_of f ∷ [])) hf.1 ht eo (omega arith))
  | inr (x, back, a) ↦ absurd (stream_cut r f (stream r fs) b back x e a)
]
delivers (suc n) r (f ∷ fs) (timed_out ∷ ts) b q hf ht e le =
    elim (split_front (sent r f) (stream r fs) b (data_of ts) e) [
      | inl (o, eb, eo) ↦
          whole_packet n r f fs q (timed_out ∷ ts) b o hf.0 eb
            (delivers n r fs (timed_out ∷ ts) o (q ++ (packet_of f ∷ [])) hf.1 ht eo (omega arith))
      | inr (x, back, a) ↦
          after_round n r (f ∷ fs) q _ _
            (round_timed_out r b q ts (take_complete_partial r f b back x hf.0 a))
            (delivers n r (f ∷ fs) ts b q hf ht.1 e (omega arith))
    ]
delivers (suc n) r (f ∷ fs) (received bs ∷ ts) b q hf ht e le =
    elim (split_front (sent r f) (stream r fs) b (bs ++ data_of ts) e) [
      | inl (o, eb, eo) ↦
          whole_packet n r f fs q (received bs ∷ ts) b o hf.0 eb (
            delivers n r fs (received bs ∷ ts) o (q ++ (packet_of f ∷ [])) hf.1 ht eo (omega arith))
      | inr (x, back, a) ↦
          let none_yet = take_complete_partial r f b back x hf.0 a in
          let e' : (b ++ bs) ++ data_of ts ≡ sent r f ++ stream r fs =
            append_assoc b bs (data_of ts) ∙ e in
          elim (split_front (sent r f) (stream r fs) (b ++ bs) (data_of ts) e') [
            | inl (o, eb, eo) ↦
                after_round n r (f ∷ fs) q _ _
                  (round_received_packet r b q ts bs (sent r f) o (packet_of f) none_yet
                    (rw eb (take_complete-sent r f o hf.0)) (parser-sent r f hf.0))
                  (Delivered-step r f fs q _
                    (delivers n r fs ts o (q ++ (packet_of f ∷ [])) hf.1 ht.1 eo (omega arith)))
            | inr (y, back', a') ↦
                after_round n r (f ∷ fs) q _ _
                  (round_received r b q ts bs none_yet
                    (take_complete_partial r f (b ++ bs) back' y hf.0 a'))
                  (delivers n r (f ∷ fs) ts (b ++ bs) q hf ht.1 e' (omega arith))
          ]
    ]

-- Whichever reader runs, and however the device cuts the octets of packets that the reader carries
-- into transfers, none of them an error, with time-outs in between, after as many rounds as there are
-- packets and transfers the thread has queued the packets, each once and in order, its buffer is empty
-- and it has not failed.
pub reader_rounds-stream :
    (n : ℕ) (r : Reader) (fs : List Frame) (ts : List Transfer)
    → All (Carries r) fs
    → All IsHealthy ts
    → data_of ts ≡ stream r fs
    → length fs + length ts ≤ n
    → ((reader_rounds n r (running [] ts [])).packets ≡ map packet_of fs)
      × ((reader_rounds n r (running [] ts [])).buffer ≡ [])
      × ((reader_rounds n r (running [] ts [])).error ≡ none)
reader_rounds-stream n r fs ts hf ht e le =
    let d = delivers n r fs ts [] [] hf ht e le in (d.queued, d.drained, d.alive)
