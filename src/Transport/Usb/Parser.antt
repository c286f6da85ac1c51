-- ===== src/Transport/Usb/Parser.antt =====
-- What `_take_complete` hands on, the parser of the same reader reads.
use hci_controller.Base.{
  length, take, drop, take-append-drop, length-take, is_ok, is_ok→ok, Exn, Result, ok, err, ℕ, ◌≤◌,
  ◌<◌, ◌≡◌, refl, sym, ap, ◌∙◌, ◌⊎◌, inl, inr, true, Option, none, some, List, [], ◌∷◌, ◌++◌, arith,
}
use hci_controller.Transport.Packet.{Packet}
use hci_controller.Transport.Usb.{
  Reader, serialized, events, acls, maximum, expected_fn, take_complete, parser,
}

expected_pos : (r : Reader) (bs : List ℕ) (n : ℕ) → expected_fn r bs ≡ ok (some n) → 0 < n
unfolding expected_fn
expected_pos serialized [] n e = cc
expected_pos serialized (x ∷ bs) n e = ground arith
expected_pos events bs n e = ground arith
expected_pos acls bs n e = ground arith

-- The front of a buffer that is as long as the packet at its head shows the same length.
expected_front :
    (r : Reader) (front more : List ℕ) (n : ℕ)
    → expected_fn r (front ++ more) ≡ ok (some n)
    → n ≤ length front
    → expected_fn r front ≡ ok (some n)
expected_front r [] more n e le = absurd (omega (arith, expected_pos r more n e))
expected_front serialized (a ∷ []) more n e le = unfold expected_fn in ground arith
expected_front serialized (a ∷ b ∷ []) more n e le = unfold expected_fn in ground arith
expected_front serialized (a ∷ b ∷ c ∷ []) more n e le = unfold expected_fn in ground arith
expected_front serialized (a ∷ b ∷ c ∷ d ∷ []) more n e le = unfold expected_fn in ground arith
expected_front serialized (a ∷ b ∷ c ∷ d ∷ f ∷ t) more n e le = unfold expected_fn in ground arith
expected_front events (a ∷ []) more n e le = unfold expected_fn in ground arith
expected_front events (a ∷ b ∷ t) more n e le = unfold expected_fn in ground arith
expected_front acls (a ∷ []) more n e le = unfold expected_fn in ground arith
expected_front acls (a ∷ b ∷ []) more n e le = unfold expected_fn in ground arith
expected_front acls (a ∷ b ∷ c ∷ []) more n e le = unfold expected_fn in ground arith
expected_front acls (a ∷ b ∷ c ∷ d ∷ t) more n e le = unfold expected_fn in ground arith

-- Octets whose own header gives their length parse.
parser-is_ok :
    (r : Reader) (bs : List ℕ)
    → expected_fn r bs ≡ ok (some (length bs))
    → is_ok (parser r bs) ≡ true
unfolding expected_fn parser
parser-is_ok serialized [] e = cc
parser-is_ok serialized (x ∷ bs) e = ground arith
parser-is_ok events bs e = ground arith
parser-is_ok acls bs e = ground arith

-- How `_take_complete` comes to return octets.
taken :
    (r : Reader) (buffer octets rest : List ℕ)
    → take_complete r buffer ≡ (ok (some octets), rest)
    → (n : ℕ) × (expected_fn r buffer ≡ ok (some n))
      × (n ≤ length buffer)
      × (n ≤ maximum r)
      × (octets ≡ take n buffer)
      × (rest ≡ drop n buffer)
unfolding take_complete
taken r buffer octets rest e = elim (expected_cases (expected_fn r buffer)) [
  | inl (x, f) ↦ cc (rw (f, take_complete) at e)
  | inr (inl f) ↦ cc (rw (f, take_complete) at e)
  | inr (inr (n, f)) ↦
      (n, f, ground (arith, f, e), ground (arith, f, e), ground (arith, f, e), ground (arith, f, e))
]
  where
    expected_cases :
        (o : Result (Option ℕ))
        → ((x : Exn) × (o ≡ err x)) ⊎ ((o ≡ ok none) ⊎ ((n : ℕ) × (o ≡ ok (some n))))
    expected_cases (err x) = inl (x, refl)
    expected_cases (ok none) = inr (inl refl)
    expected_cases (ok (some n)) = inr (inr (n, refl))

-- Whatever the buffer holds, octets that `_take_complete` returns are the front of the buffer, no
-- longer than the reader's maximum, the rest of it is kept, and the reader's parser does not raise on
-- them.
pub take_complete_parses :
    (r : Reader) (buffer octets rest : List ℕ)
    → take_complete r buffer ≡ (ok (some octets), rest)
    → (octets ++ rest ≡ buffer)
      × (length octets ≤ maximum r)
      × ((p : Packet) × (parser r octets ≡ ok p))
take_complete_parses r buffer octets rest e =
    let (n, f, fits, small, eo, er) = taken r buffer octets rest e in
    let size : length (take n buffer) ≡ n = omega (arith, length-take n buffer) in
    let front : expected_fn r (take n buffer) ≡ ok (some n) =
      expected_front r (take n buffer) (drop n buffer) n (rw (take-append-drop n buffer) f)
        (omega (arith, size)) in
    rw (eo, er)
      (
        take-append-drop n buffer,
        omega (arith, size),
        is_ok→ok (parser r (take n buffer))
            (parser-is_ok r (take n buffer) (front ∙ ap (λ m. ok (some m)) (sym size))),
      )
