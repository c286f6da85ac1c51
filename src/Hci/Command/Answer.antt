-- ===== src/Hci/Command/Answer.antt =====
-- The packets that `Hci.command` takes for an answer, described without the code.
use hci_controller.Base.{
  ltb, ◌==◌, if◌then◌else◌, lt→ltb, le→ltb, ==→eq, Bool-cases, Option-cases, length, get_or, drop,
  slice, from_little, Result, ok, err, struct_error, ℕ, ◌+◌, ◌*◌, ◌≤◌, ◌≡◌, refl, sym, ap, ◌∙◌, ◌⊎◌,
  inl, inr, true, false, ◌&&◌, Option, none, some, List, [], ◌∷◌, arith,
}
use hci_controller.Transport.Packet.{Packet, h4_event}
use hci_controller.Hci.{evt_command_complete, evt_command_status}
use hci_controller.Hci.Command.{answer, is_event}

-- The octets of a Command Complete for the opcode, which gives the status behind it, or 0 where there is
-- none, and the return parameters.
abbrev pub Completes : ℕ → List ℕ → ℕ × List ℕ → Type 0
Completes opcode body (status, rest) =
    (slots low high : ℕ) × (tail : List ℕ) × (body ≡ slots ∷ low ∷ high ∷ tail)
    × (low + 256 * high ≡ opcode)
    × (((tail ≡ []) × (status ≡ 0) × (rest ≡ [])) ⊎ (tail ≡ status ∷ rest))

-- Those of a Command Status, which has no return parameters.
abbrev pub Starts : ℕ → List ℕ → ℕ × List ℕ → Type 0
Starts opcode body (status, rest) =
    (slots low high : ℕ) × (tail : List ℕ) × (body ≡ status ∷ slots ∷ low ∷ high ∷ tail)
    × (low + 256 * high ≡ opcode)
    × (rest ≡ [])

abbrev pub Answers : ℕ → Packet → ℕ × List ℕ → Type 0
Answers opcode p a =
    (p.kind ≡ h4_event)
    × (((p.code ≡ some 0x0E) × Completes opcode p.body a)
        ⊎ ((p.code ≡ some 0x0F) × Starts opcode p.body a))

event_fields :
    (code : ℕ) (p : Packet) → is_event code p ≡ true → (p.kind ≡ h4_event) × (p.code ≡ some code)
event_fields code p h = elim (Option-cases p.code) [
  | inl e ↦ absurd (cc (rw e at h))
  | inr (c, e) ↦
      let both : ((p.kind == h4_event) && (c == code)) ≡ true = rw e at h in
      let (k, same) = halves p.kind h4_event c code both in (k, e ∙ ap some same)
]
  where
    halves : (a b c d : ℕ) → ((a == b) && (c == d)) ≡ true → (a ≡ b) × (c ≡ d)
    halves a b c d h = (ground arith, ground arith)

picked_value :
    (a b : ℕ × List ℕ)
    → (let r : Result (Option (ℕ × List ℕ)) = ok (some a) in
        let picked : Result (Option (ℕ × List ℕ)) = ok (some b) in r ≡ picked)
    → a ≡ b
picked_value a b h = cc

long : (k : ℕ) (b : List ℕ) → k ≤ length b → ltb (length b) k ≡ false
long k b h = le→ltb (length b) k h

of_two : (low high n : ℕ) → ((low + 256 * (high + 256 * 0)) == n) ≡ true → low + 256 * high ≡ n
of_two low high n h = let e = ==→eq (low + 256 * (high + 256 * 0)) n h in omega (arith, e)

complete_fields :
    (opcode : ℕ) (b : List ℕ) (a : ℕ × List ℕ)
    → (let r : Result (Option (ℕ × List ℕ)) =
          if ltb (length b) 3
          then err struct_error
          else if from_little (slice b 1 3) == opcode
          then ok (some ((if ltb 3 (length b) then get_or b 3 0 else 0), drop 4 b))
          else ok none in
        let picked : Result (Option (ℕ × List ℕ)) = ok (some a) in r ≡ picked)
    → Completes opcode b a
complete_fields opcode [] a h = cc
complete_fields opcode (slots ∷ []) a h = cc
complete_fields opcode (slots ∷ low ∷ []) a h = cc
complete_fields opcode (slots ∷ low ∷ high ∷ []) a h =
    elim (Bool-cases ((low + 256 * (high + 256 * 0)) == opcode)) [
      | inr e ↦ absurd (cc (rw e at h))
      | inl e ↦
          let v = picked_value (0, []) a (rw e at h) in
          (
            slots,
            low,
            high,
            [],
            refl,
            of_two low high opcode e,
            inl (refl, ap (λ x. x.0) (sym v), ap (λ x. x.1) (sym v)),
          )
    ]
complete_fields opcode (slots ∷ low ∷ high ∷ status ∷ rest) a h =
    let fits = long 3 (slots ∷ low ∷ high ∷ status ∷ rest) (omega arith) in
    let more : ltb 3 (length (slots ∷ low ∷ high ∷ status ∷ rest)) ≡ true =
      lt→ltb 3 (length (slots ∷ low ∷ high ∷ status ∷ rest)) (omega arith) in
    elim (Bool-cases ((low + 256 * (high + 256 * 0)) == opcode)) [
      | inr e ↦ absurd (cc (rw (fits, e) at h))
      | inl e ↦
          let v = picked_value (status, rest) a (rw (fits, e, more) at h) in
          (
            slots,
            low,
            high,
            status ∷ rest,
            refl,
            of_two low high opcode e,
            inr (ap (λ x. x.0 ∷ x.1) v),
          )
    ]

status_fields :
    (opcode : ℕ) (b : List ℕ) (a : ℕ × List ℕ)
    → (let r : Result (Option (ℕ × List ℕ)) =
          if ltb (length b) 4
          then err struct_error
          else if from_little (slice b 2 4) == opcode
          then ok (some (get_or b 0 0, []))
          else ok none in
        let picked : Result (Option (ℕ × List ℕ)) = ok (some a) in r ≡ picked)
    → Starts opcode b a
status_fields opcode [] a h = cc
status_fields opcode (status ∷ []) a h = cc
status_fields opcode (status ∷ slots ∷ []) a h = cc
status_fields opcode (status ∷ slots ∷ low ∷ []) a h = cc
status_fields opcode (status ∷ slots ∷ low ∷ high ∷ tail) a h =
    let fits = long 4 (status ∷ slots ∷ low ∷ high ∷ tail) (omega arith) in
    elim (Bool-cases ((low + 256 * (high + 256 * 0)) == opcode)) [
      | inr e ↦ absurd (cc (rw (fits, e) at h))
      | inl e ↦
          let v = picked_value (status, []) a (rw (fits, e) at h) in
          (
            slots,
            low,
            high,
            tail,
            ap (λ x. x.0 ∷ slots ∷ low ∷ high ∷ tail) v,
            of_two low high opcode e,
            ap (λ x. x.1) (sym v),
          )
    ]

pub answer-Answers :
    (opcode : ℕ) (p : Packet) (a : ℕ × List ℕ) → answer opcode p ≡ ok (some a) → Answers opcode p a
unfolding answer
answer-Answers opcode p a h = elim (Bool-cases (is_event evt_command_complete p)) [
  | inl e ↦
      let (kind, code) = event_fields evt_command_complete p e in
      (kind, inl (code, complete_fields opcode p.body a (rw e at h)))
  | inr e ↦ elim (Bool-cases (is_event evt_command_status p)) [
    | inl f ↦
        let (kind, code) = event_fields evt_command_status p f in
        (kind, inr (code, status_fields opcode p.body a (rw (e, f) at h)))
    | inr f ↦ absurd (cc (rw (e, f) at h))
  ]
]
