-- ===== src/Transport/Serial/Framing.antt =====
-- `_take_packet` against the packets of the specification, in a buffer that holds more or less than
-- one.
use hci_controller.Base.{
  lt→ltb, le→ltb, length, length-append, take-length_append, drop-length_append, ok, ℕ, ◌≡◌, refl,
  sym, subst, ◌∙◌, ◌⊎◌, inl, inr, none, some, List, [], ◌∷◌, ◌++◌, append-nil, arith,
}
use hci_controller.Transport.Packet.{Frame, event, acl, iso, IsFrame, wire, packet_of}
use hci_controller.Transport.Serial.{expected_length, take_expected, unpack, take_packet}

pub expected_length-wire :
    (f : Frame) (rest : List ℕ)
    → IsFrame f
    → expected_length (wire f ++ rest) ≡ ok (some (length (wire f)))
unfolding expected_length
expected_length-wire (event c ps) rest h = ground arith
expected_length-wire (acl c ps) rest h = ground arith
expected_length-wire (iso c r ps) rest h = ground arith

unpack-wire : (f : Frame) → unpack (wire f) ≡ packet_of f
unfolding unpack
unpack-wire (event c ps) = refl
unpack-wire (acl c ps) = refl
unpack-wire (iso c r ps) = refl

take_expected_exact :
    (w rest : List ℕ) → take_expected (w ++ rest) (some (length w)) ≡ ok (some (unpack w), rest)
unfolding take_expected
take_expected_exact w rest = rw (
  le→ltb (length (w ++ rest)) (length w) (omega (arith, length-append w rest)),
  take-length_append w rest,
  drop-length_append w rest,
)

take_expected_short :
    (front back : List ℕ) (x : ℕ)
    → take_expected front (some (length (front ++ (x ∷ back)))) ≡ ok (none, front)
unfolding take_expected
take_expected_short front back x = rw (
    lt→ltb (length front) (length (front ++ (x ∷ back)))
      (omega (arith, length-append front (x ∷ back))))

-- More input does not change a length that is known.
pub expected_length_stable :
    (front more : List ℕ)
    → (expected_length front ≡ ok none) ⊎ (expected_length (front ++ more) ≡ expected_length front)
unfolding expected_length
expected_length_stable [] more = inl refl
expected_length_stable (a ∷ []) more = ground arith
expected_length_stable (a ∷ b ∷ []) more = ground arith
expected_length_stable (a ∷ b ∷ c ∷ []) more = ground arith
expected_length_stable (a ∷ b ∷ c ∷ d ∷ []) more = ground arith
expected_length_stable (a ∷ b ∷ c ∷ d ∷ e ∷ r) more = ground arith

-- A buffer that begins with the H:4 octets of a well-formed packet gives that packet and keeps what
-- follows it.
pub take_packet-wire :
    (f : Frame) (rest : List ℕ)
    → IsFrame f
    → take_packet (wire f ++ rest) ≡ ok (some (packet_of f), rest)
unfolding take_packet
take_packet-wire f rest h =
    rw (expected_length-wire f rest h) (take_expected_exact (wire f) rest ∙ rw (unpack-wire f))

-- A buffer that holds only a proper front part of a well-formed packet's H:4 octets gives nothing yet
-- and is kept.
pub take_packet_partial :
    (f : Frame) (front back : List ℕ) (x : ℕ)
    → IsFrame f
    → wire f ≡ front ++ (x ∷ back)
    → take_packet front ≡ ok (none, front)
unfolding take_packet
take_packet_partial f front back x h e = elim (expected_length_stable front (x ∷ back)) [
  | inl unknown ↦ rw unknown refl
  | inr same ↦
      let whole : expected_length (front ++ (x ∷ back)) ≡ ok (some (length (front ++ (x ∷ back)))) =
        subst (λ w. expected_length w ≡ ok (some (length w))) e
          (rw append-nil at (expected_length-wire f [] h)) in
      rw (sym same, whole) (take_expected_short front back x)
]
