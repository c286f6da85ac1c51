-- ===== src/Transport/Usb/Framing.antt =====
-- `_take_complete` and the parsers against the packets of the specification.
use hci_controller.Base.{
  lt→ltb, le→ltb, length, length-append, take-length_append, drop-length_append, ok, ℕ, ◌≤◌, ◌<◌,
  ◌≡◌, refl, sym, subst, ◌∙◌, ◌⊎◌, inl, inr, none, some, List, [], ◌∷◌, ◌++◌, append-nil, arith,
}
use hci_controller.Transport.Packet.{Frame, event, acl, iso, IsFrame, octets, wire, packet_of}
use hci_controller.Transport.Usb.{
  Reader, serialized, events, acls, expected_fn, maximum, take_complete, parser,
}

-- The octets of a packet on the endpoint that a reader polls.
abbrev pub sent : Reader → Frame → List ℕ
sent serialized f = wire f
sent events f = octets f
sent acls f = octets f

-- The endpoint carries such packets, and the packet is no longer than the reader accepts.
abbrev pub Carries : Reader → Frame → Type 0
Carries serialized f = IsFrame f × (length (wire f) ≤ 1025)
Carries events (event c ps) = length ps < 256
Carries events _ = ⊥
Carries acls (acl h ps) = length ps ≤ 1020
Carries acls _ = ⊥

expected_fn-sent :
    (r : Reader) (f : Frame) (rest : List ℕ)
    → Carries r f
    → expected_fn r (sent r f ++ rest) ≡ ok (some (length (sent r f)))
unfolding expected_fn
expected_fn-sent serialized (event c ps) rest h = ground arith
expected_fn-sent serialized (acl c ps) rest h = ground arith
expected_fn-sent serialized (iso c r ps) rest h = ground arith
expected_fn-sent events (event c ps) rest h = ground arith
expected_fn-sent acls (acl c ps) rest h = ground arith
expected_fn-sent events (acl c ps) rest h = absurd h
expected_fn-sent events (iso c r ps) rest h = absurd h
expected_fn-sent acls (event c ps) rest h = absurd h
expected_fn-sent acls (iso c r ps) rest h = absurd h

sent-le-maximum : (r : Reader) (f : Frame) → Carries r f → length (sent r f) ≤ maximum r
sent-le-maximum serialized f h = h.1
sent-le-maximum events (event c ps) h = omega arith
sent-le-maximum acls (acl c ps) h = omega arith
sent-le-maximum events (acl c ps) h = absurd h
sent-le-maximum events (iso c r ps) h = absurd h
sent-le-maximum acls (event c ps) h = absurd h
sent-le-maximum acls (iso c r ps) h = absurd h

-- The parser of a reader reads a packet that its endpoint carries.
pub parser-sent : (r : Reader) (f : Frame) → Carries r f → parser r (sent r f) ≡ ok (packet_of f)
unfolding parser
parser-sent serialized (event c ps) h = ground arith
parser-sent serialized (acl c ps) h = ground arith
parser-sent serialized (iso c r ps) h = ground arith
parser-sent events (event c ps) h = ground arith
parser-sent acls (acl c ps) h = ground arith
parser-sent events (acl c ps) h = absurd h
parser-sent events (iso c r ps) h = absurd h
parser-sent acls (event c ps) h = absurd h
parser-sent acls (iso c r ps) h = absurd h

-- More input does not change a length that is known.
expected_fn_stable :
    (r : Reader) (front more : List ℕ)
    → (expected_fn r front ≡ ok none) ⊎ (expected_fn r (front ++ more) ≡ expected_fn r front)
unfolding expected_fn
expected_fn_stable serialized [] more = inl refl
expected_fn_stable serialized (a ∷ []) more = ground arith
expected_fn_stable serialized (a ∷ b ∷ []) more = ground arith
expected_fn_stable serialized (a ∷ b ∷ c ∷ []) more = ground arith
expected_fn_stable serialized (a ∷ b ∷ c ∷ d ∷ []) more = ground arith
expected_fn_stable serialized (a ∷ b ∷ c ∷ d ∷ e ∷ t) more = ground arith
expected_fn_stable events [] more = inl refl
expected_fn_stable events (a ∷ []) more = inl refl
expected_fn_stable events (a ∷ b ∷ t) more = ground arith
expected_fn_stable acls [] more = inl refl
expected_fn_stable acls (a ∷ []) more = inl refl
expected_fn_stable acls (a ∷ b ∷ []) more = inl refl
expected_fn_stable acls (a ∷ b ∷ c ∷ []) more = inl refl
expected_fn_stable acls (a ∷ b ∷ c ∷ d ∷ t) more = ground arith

-- A buffer that begins with a packet gives its octets and keeps what follows.
pub take_complete-sent :
    (r : Reader) (f : Frame) (rest : List ℕ)
    → Carries r f
    → take_complete r (sent r f ++ rest) ≡ (ok (some (sent r f)), rest)
unfolding take_complete
take_complete-sent r f rest h =
    rw (expected_fn-sent r f rest h, take_complete)
      (rw (
        le→ltb (maximum r) (length (sent r f)) (sent-le-maximum r f h),
        le→ltb (length (sent r f ++ rest)) (length (sent r f))
            (omega (arith, length-append (sent r f) rest)),
        take-length_append (sent r f) rest,
        drop-length_append (sent r f) rest,
      ))

-- A proper part of a packet's front gives nothing yet and is kept.
pub take_complete_partial :
    (r : Reader) (f : Frame) (front back : List ℕ) (x : ℕ)
    → Carries r f
    → sent r f ≡ front ++ (x ∷ back)
    → take_complete r front ≡ (ok none, front)
unfolding take_complete
take_complete_partial r f front back x h e = elim (expected_fn_stable r front (x ∷ back)) [
  | inl unknown ↦ rw (unknown, take_complete) refl
  | inr same ↦
      let whole : expected_fn r (front ++ (x ∷ back)) ≡ ok (some (length (front ++ (x ∷ back)))) =
        subst (λ w. expected_fn r w ≡ ok (some (length w))) e
          (rw append-nil at (expected_fn-sent r f [] h)) in
      let fits : length (front ++ (x ∷ back)) ≤ maximum r =
        subst (λ w. length w ≤ maximum r) e (sent-le-maximum r f h) in
      rw (sym same ∙ whole, take_complete)
        (rw (
          le→ltb (maximum r) (length (front ++ (x ∷ back))) fits,
          lt→ltb (length front) (length (front ++ (x ∷ back)))
              (omega (arith, length-append front (x ∷ back))),
        ))
]
