-- ===== src/Hci/Raises.antt =====
-- What the methods of `Hci` raise: no exception of the transport, which they translate.
use hci_controller.Base.{
  ltb, ◌==◌, if◌then◌else◌, Bool-cases, Option-cases, length, get_or, drop, slice, u16, from_little,
  Result-cases, Exn, Result, ok, err, transport_error, transport_gone, selection_error, hci_error,
  hci_gone, struct_error, index_error, key_error, value_error, pairing_error, runtime_error, ℕ,
  zero, suc, ◌≡◌, refl, ◌⊎◌, inl, inr, Bool, true, false, not, ◌&&◌, Option, none, some, List, [],
  ◌∷◌, ◌++◌,
}
use hci_controller.Transport.Packet.{Packet, h4_event, h4_command}
use hci_controller.Hci.{
  Hci, read_wire, on_event, count_completed, translate, evt_num_completed_packets,
  evt_command_complete, evt_command_status,
}
use hci_controller.Hci.Search.{search}
use hci_controller.Hci.Command.{answer, judge, finish, command, command_octets, is_event}

-- The exceptions that a transport raises.
abbrev pub is_wire : Exn → Bool
is_wire transport_error = true
is_wire transport_gone = true
is_wire selection_error = true
is_wire e = false

-- A result that is none of the transport's exceptions.
abbrev pub Translated {ℓ} : {A : Type ℓ} → Result A → Type 0
Translated r = elim r [ err x ↦ is_wire x ≡ false | ok a ↦ Unit {0} ]

translate-is_wire : (x : Exn) → is_wire (translate x) ≡ false
translate-is_wire transport_error = refl
translate-is_wire transport_gone = refl
translate-is_wire selection_error = refl
translate-is_wire hci_error = refl
translate-is_wire hci_gone = refl
translate-is_wire struct_error = refl
translate-is_wire index_error = refl
translate-is_wire key_error = refl
translate-is_wire value_error = refl
translate-is_wire pairing_error = refl
translate-is_wire runtime_error = refl

count_completed-Translated :
    (n : ℕ) (rest : List ℕ) (h : Hci) → Translated (count_completed n rest h).result
unfolding count_completed
count_completed-Translated zero rest h = tt
count_completed-Translated (suc n) rest h = elim (Bool-cases (ltb (length rest) 4)) [
  | inl e ↦ rw (count_completed, e) refl
  | inr e ↦ rw (count_completed, e) (count_completed-Translated n (drop 4 rest) _)
]

on_event-Translated :
    (code : ℕ) (body : List ℕ) (h : Hci) → Translated (on_event code body h).result
unfolding on_event
on_event-Translated code body h =
    elim (Bool-cases ((code == evt_num_completed_packets) && not (ltb (length body) 1))) [
      | inl e ↦ rw (on_event, e) (count_completed-Translated (get_or body 0 0) (drop 1 body) _)
      | inr e ↦ rw (on_event, e) tt
    ]

pub read_wire-Translated :
    (r : Result (Option Packet)) (h : Hci) → Translated (read_wire r h).result
unfolding read_wire
read_wire-Translated (err x) h = translate-is_wire x
read_wire-Translated (ok none) h = tt
read_wire-Translated (ok (some p)) h = elim (Option-cases p.code) [
  | inl e ↦ rw e tt
  | inr (c, e) ↦ elim (Bool-cases (p.kind == h4_event)) [
    | inl f ↦ elim (Result-cases (on_event c p.body h).result) [
      | inl (x, g) ↦ rw (e, f, g) (rw g at (on_event-Translated c p.body h))
      | inr (u, g) ↦ rw (e, f, g) tt
    ]
    | inr f ↦ rw (e, f) tt
  ]
]

module _ {A : Type 0} (pick : Packet → Result (Option A))
    (fine : (p : Packet) → Translated (pick p)) where
  from_pending :
      (turns : ℕ) (reads : List (Result (Option Packet))) (ds q : List Packet) (h : Hci)
      → Translated (search pick turns reads ds (record h { pending = q })).result
  unfolding search
  from_pending zero reads ds q h = tt
  from_pending (suc turns) reads ds (p ∷ ps) h = elim (Result-cases (pick p)) [
    | inl (x, f) ↦ rw (search, f) (rw f at (fine p))
    | inr (none, f) ↦ rw (search, f) (from_pending turns reads (ds ++ (p ∷ [])) ps h)
    | inr (some a, f) ↦ rw (search, f) tt
  ]
  from_pending (suc turns) [] ds [] h = from_pending turns [] ds [] h
  from_pending (suc turns) (r ∷ rs) ds [] h =
      let h0 : Hci = record h { pending = [] } in
      let o = read_wire r h0 in
      elim (Result-cases o.result) [
        | inl (x, f) ↦ rw (search, f) (rw f at (read_wire-Translated r h0))
        | inr (none, f) ↦ rw (search, f) (from_pending turns rs ds o.hci.pending o.hci)
        | inr (some p, f) ↦ elim (Result-cases (pick p)) [
          | inl (x, g) ↦ rw (search, f, g) (rw g at (fine p))
          | inr (none, g) ↦
              rw (search, f, g) (from_pending turns rs (ds ++ (p ∷ [])) o.hci.pending o.hci)
          | inr (some a, g) ↦ rw (search, f, g) tt
        ]
      ]

  pub search-Translated :
      (turns : ℕ) (reads : List (Result (Option Packet))) (h : Hci)
      → Translated (search pick turns reads [] h).result
  search-Translated turns reads h = from_pending turns reads [] h.pending h

pub if-Translated :
    {A : Type 0} (b : Bool) (r s : Result A)
    → Translated r
    → Translated s
    → Translated (if b then r else s)
if-Translated true r s t u = t
if-Translated false r s t u = u

answer-Translated : (opcode : ℕ) (p : Packet) → Translated (answer opcode p)
unfolding answer
answer-Translated opcode p =
    if-Translated (is_event evt_command_complete p) _ _
      (if-Translated (ltb (length p.body) 3) _ _ refl
        (if-Translated (from_little (slice p.body 1 3) == opcode) _ _ tt tt))
      (if-Translated (is_event evt_command_status p) _ _
        (if-Translated (ltb (length p.body) 4) _ _ refl
          (if-Translated (from_little (slice p.body 2 4) == opcode) _ _ tt tt))
        tt)

judge-Translated : (allow_fail : Bool) (a : ℕ × List ℕ) → Translated (judge allow_fail a)
judge-Translated allow_fail (status, octets) =
    elim (Bool-cases (not (status == 0) && not allow_fail)) [ inl e ↦ rw e refl | inr e ↦ rw e tt ]

finish-Translated :
    (allow_fail : Bool) (r : Result (Option (ℕ × List ℕ))) (ds : List Packet) (h : Hci)
    (reads : List (Result (Option Packet)))
    → Translated r
    → Translated
        (finish allow_fail (record { result = r; deferred = ds; hci = h; reads = reads })).result
unfolding finish
finish-Translated allow_fail (err x) ds h reads t = t
finish-Translated allow_fail (ok none) ds h reads t = refl
finish-Translated allow_fail (ok (some a)) ds h reads t = judge-Translated allow_fail a

command_octets-cases :
    (opcode : ℕ) (payload : List ℕ)
    → (command_octets opcode payload ≡ err struct_error)
      ⊎ ((octets : List ℕ) × (command_octets opcode payload ≡ ok octets))
unfolding command_octets
command_octets-cases opcode payload =
    elim (Bool-cases (ltb opcode 65536 && ltb (length payload) 256)) [
      | inl e ↦ inr (h4_command ∷ (u16 opcode ++ (length payload ∷ payload)), rw e refl)
      | inr e ↦ inl (rw e refl)
    ]

pub command-Translated :
    (write : List ℕ → Option Exn) (turns : ℕ) (reads : List (Result (Option Packet))) (opcode : ℕ)
    (payload : List ℕ) (allow_fail : Bool) (h : Hci)
    → Translated (command write turns reads opcode payload allow_fail h).result
unfolding command
command-Translated write turns reads opcode payload allow_fail h =
    elim (command_octets-cases opcode payload) [
      | inl e ↦ rw (command, e) refl
      | inr (octets, e) ↦ elim (Option-cases (write octets)) [
        | inr (x, f) ↦ rw (command, e, f) (translate-is_wire x)
        | inl f ↦
            let o = search (answer opcode) turns reads [] h in
            rw (command, e, f)
              (finish-Translated allow_fail o.result o.deferred o.hci o.reads
                (search-Translated (answer opcode) (answer-Translated opcode) turns reads h))
      ]
    ]
