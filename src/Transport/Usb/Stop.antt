-- ===== src/Transport/Usb/Stop.antt =====
-- `_reader_loop` of python/hcicontroller/hci_transport.py where `close` or another reader sets
-- `_reader_stop`. The event stays set, so that the loop does not go on.
use hci_controller.Base.{Option-cases, ℕ, suc, ◌≡◌, refl, inl, inr, none, some, List, [], ◌∷◌}
use hci_controller.Transport.Usb.{Reader, Thread, read_complete, reader_round, reader_rounds}

-- Whether the event is set when a round begins, or becomes set while the round reads.
pub data Stop : Type 0 where
  clear set_before set_during : Stop

-- A round whose read ends after the event is set: neither a packet nor an error of it is kept.
pub dropped_round : Reader → Thread → Thread
dropped_round r t = elim t.error [
  | some e ↦ t
  | none ↦
      let (got, buffer, transfers) = read_complete r t.buffer t.transfers in
      record t { buffer = buffer; transfers = transfers }
]

-- `_reader_loop`, for as many rounds as it comes to.
pub reader_loop : List Stop → Reader → Thread → Thread
reader_loop [] r t = t
reader_loop (clear ∷ stops) r t = reader_loop stops r (reader_round r t)
reader_loop (set_before ∷ stops) r t = t
reader_loop (set_during ∷ stops) r t = dropped_round r t

-- The rounds before the event is set.
pub rounds_of : List Stop → ℕ
rounds_of [] = 0
rounds_of (clear ∷ stops) = suc (rounds_of stops)
rounds_of (set_before ∷ stops) = 0
rounds_of (set_during ∷ stops) = 0

dropped_round-keeps :
    (r : Reader) (t : Thread)
    → ((dropped_round r t).packets ≡ t.packets) × ((dropped_round r t).error ≡ t.error)
unfolding dropped_round
dropped_round-keeps r t = elim (Option-cases t.error) [
  | inl e ↦ (rw (dropped_round, e) refl, rw (dropped_round, e) e)
  | inr (x, e) ↦ (rw (dropped_round, e) refl, rw (dropped_round, e) e)
]

-- Whenever the event is set, the callers find the packets and the error of the rounds before it.
pub reader_loop-reader_rounds :
    (stops : List Stop) (r : Reader) (t : Thread)
    → ((reader_loop stops r t).packets ≡ (reader_rounds (rounds_of stops) r t).packets)
      × ((reader_loop stops r t).error ≡ (reader_rounds (rounds_of stops) r t).error)
unfolding reader_loop rounds_of reader_rounds
reader_loop-reader_rounds [] r t = (refl, refl)
reader_loop-reader_rounds (clear ∷ stops) r t = reader_loop-reader_rounds stops r (reader_round r t)
reader_loop-reader_rounds (set_before ∷ stops) r t = (refl, refl)
reader_loop-reader_rounds (set_during ∷ stops) r t = dropped_round-keeps r t
