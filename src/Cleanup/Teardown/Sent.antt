-- ===== src/Cleanup/Teardown/Sent.antt =====
-- What a teardown has sent.
use hci_controller.Base.{
  ltb, ◌==◌, length, slice, from_little, Result-cases, Exn, Result, ok, err, hci_error, hci_gone, ℕ,
  zero, suc, ◌%◌, ◌≡◌, refl, sym, ap, ◌∙◌, inl, inr, Bool, true, false, not, Option, none, some,
  List, [], ◌∷◌, ◌++◌, append-nil, append_assoc,
}
use hci_controller.Script.{Script, Ran, ◌>>=◌, ◌>>◌, done, rescue, within}
use hci_controller.Hci.Calls.{Device, call, read_packet, next_turns}
use hci_controller.Transport.Packet.{Packet}
use hci_controller.Hci.{Hci, read_wire, evt_disconnection_complete}
use hci_controller.Hci.Search.{Found, search}
use hci_controller.Hci.Raises.{
  is_wire, Translated, if-Translated, read_wire-Translated, search-Translated, command-Translated,
}
use hci_controller.Hci.Command.{is_event}
use hci_controller.Cleanup.{conclude, disconnected, wait_disconnected}
use hci_controller.Cleanup.Teardown.{Pair, wait_link_down, read_away, drain}

-- The exceptions of a transport, and those that `Hci` makes of them.
abbrev pub is_transport : Exn → Bool
is_transport hci_error = true
is_transport hci_gone = true
is_transport e = is_wire e

-- A result that is none of them.
abbrev pub Quiet {ℓ} : {A : Type ℓ} → Result A → Type 0
Quiet r = elim r [ err x ↦ is_transport x ≡ false | ok a ↦ Unit {0} ]

-- A part of the teardown that does not end in an exception of the transport and that, where it ends in
-- none, has sent the commands `xs` to the central and `ys` to the peripheral.
unfoldable pub Sends : Script Pair (Unit {0}) → List (ℕ × List ℕ) → List (ℕ × List ℕ) → Type 0
Sends m xs ys =
    (p : Pair)
    → Quiet (m p).result
      × ((m p).result ≡ ok tt
          → ((m p).state.central.sent ≡ p.central.sent ++ xs)
            × ((m p).state.peripheral.sent ≡ p.peripheral.sent ++ ys))

pub done-Sends : Sends done [] []
unfolding Sends
done-Sends p = (tt, λ e. (sym (append-nil p.central.sent), sym (append-nil p.peripheral.sent)))

pub >>-Sends :
    (m n : Script Pair (Unit {0})) (xs ys xs' ys' : List (ℕ × List ℕ))
    → Sends m xs ys
    → Sends n xs' ys'
    → Sends (m >> n) (xs ++ xs') (ys ++ ys')
unfolding Sends ◌>>=◌
>>-Sends m n xs ys xs' ys' hm hn p = elim (Result-cases (m p).result) [
  | inl (x, e) ↦ rw (◌>>=◌, e) (rw e at (hm p).0, λ f. absurd (cc f))
  | inr (u, e) ↦
      let (central, peripheral) = (hm p).1 e in
      let next = hn (m p).state in
      rw (◌>>=◌, e)
        (
          next.0,
          λ f.
              let (central', peripheral') = next.1 f in
              (
                central' ∙ ap (λ l. l ++ xs') central ∙ append_assoc p.central.sent xs xs',
                peripheral' ∙ ap (λ l. l ++ ys') peripheral ∙ append_assoc p.peripheral.sent ys ys',
              ),
        )
]

-- The same of a part that has to do with one controller.
abbrev pub Tells : Script Device (Unit {0}) → List (ℕ × List ℕ) → Type 0
Tells m xs =
    (d : Device) → Quiet (m d).result × ((m d).result ≡ ok tt → (m d).state.sent ≡ d.sent ++ xs)

pub central-Sends :
    (m : Script Device (Unit {0})) (xs : List (ℕ × List ℕ))
    → Tells m xs
    → Sends (within (λ p. p.central) (λ d p. record p { central = d }) m) xs []
unfolding Sends
central-Sends m xs h p =
    let one = h p.central in (one.0, λ e. (one.1 e, sym (append-nil p.peripheral.sent)))

pub peripheral-Sends :
    (m : Script Device (Unit {0})) (xs : List (ℕ × List ℕ))
    → Tells m xs
    → Sends (within (λ p. p.peripheral) (λ d p. record p { peripheral = d }) m) [] xs
unfolding Sends
peripheral-Sends m xs h p =
    let one = h p.peripheral in (one.0, λ e. (sym (append-nil p.central.sent), one.1 e))

-- A `try` around a part that has sent `xs` whether it raises or not, and that raises no exception that
-- only a transport raises.
rescue-Tells :
    (m : Script Device (Unit {0})) (xs : List (ℕ × List ℕ))
    → ((d : Device) → Translated (m d).result × ((m d).state.sent ≡ d.sent ++ xs))
    → Tells (rescue m done) xs
rescue-Tells m xs logged d = settled (m d).result (m d).state (logged d).0 (logged d).1
  where
    settled :
        (r : Result (Unit {0})) (v : Device)
        → Translated r
        → v.sent ≡ d.sent ++ xs
        → let o : Ran Device (Unit {0}) = elim r [
          | ok a ↦ record { result = ok a; state = v }
          | err hci_error ↦ record { result = ok tt; state = v }
          | err hci_gone ↦ record { result = ok tt; state = v }
          | err x ↦ record { result = err x; state = v }
        ] in
          Quiet o.result × (o.result ≡ ok tt → o.state.sent ≡ d.sent ++ xs)
    settled (ok u) v t h = (tt, λ f. h)
    settled (err hci_error) v t h = (tt, λ f. h)
    settled (err hci_gone) v t h = (tt, λ f. h)
    settled (err x) v t h = (t, λ f. h)

-- The answer is not looked at.
answer_dropped :
    {A : Type 0} (m : Script Device A) (d : Device) → ((m >>= λ a. done) d).state ≡ (m d).state
unfolding ◌>>=◌
answer_dropped m d = elim (Result-cases (m d).result) [
  | inl (x, e) ↦ rw (◌>>=◌, e) refl
  | inr (a, e) ↦ rw (◌>>=◌, e) refl
]

answer_dropped-Translated :
    {A : Type 0} (m : Script Device A) (d : Device)
    → Translated (m d).result
    → Translated ((m >>= λ a. done) d).result
unfolding ◌>>=◌
answer_dropped-Translated m d t = elim (Result-cases (m d).result) [
  | inl (x, e) ↦ rw (◌>>=◌, e) (rw e at t)
  | inr (a, e) ↦ rw (◌>>=◌, e) tt
]

pub call-Tells :
    (write : List ℕ → Option Exn) (opcode : ℕ) (payload : List ℕ)
    → Tells (rescue (call write opcode payload true >>= λ a. done) done) ((opcode, payload) ∷ [])
unfolding call
call-Tells write opcode payload =
    rescue-Tells (call write opcode payload true >>= λ a. done) ((opcode, payload) ∷ []) (λ d. (
      answer_dropped-Translated (call write opcode payload true) d
          (command-Translated write (next_turns d.turns) d.reads opcode payload true d.hci),
      ap (λ v. v.sent) (answer_dropped (call write opcode payload true) d),
    ))

read_packet_sent : (d : Device) → (read_packet d).state.sent ≡ d.sent
unfolding read_packet
read_packet_sent d = by_pending d.hci.pending d.reads
  where
    by_pending :
        (ps : List Packet) (rs : List (Result (Option Packet)))
        → let o : Ran Device (Option Packet) = elim ps [
          | p ∷ rest ↦ record {
            result = ok (some p);
            state = record d { hci = record d.hci { pending = rest } };
          }
          | [] ↦ elim rs [
            | [] ↦ record { result = ok none; state = d }
            | r ∷ more ↦
                let o = read_wire r d.hci in
                record { result = o.result; state = record d { hci = o.hci; reads = more } }
          ]
        ] in
          o.state.sent ≡ d.sent
    by_pending (p ∷ ps) rs = refl
    by_pending [] [] = refl
    by_pending [] (r ∷ rs) = refl

read_packet-Translated : (d : Device) → Translated (read_packet d).result
unfolding read_packet
read_packet-Translated d = by_pending d.hci.pending d.reads
  where
    by_pending :
        (ps : List Packet) (rs : List (Result (Option Packet)))
        → let o : Ran Device (Option Packet) = elim ps [
          | p ∷ rest ↦ record {
            result = ok (some p);
            state = record d { hci = record d.hci { pending = rest } };
          }
          | [] ↦ elim rs [
            | [] ↦ record { result = ok none; state = d }
            | r ∷ more ↦
                let o = read_wire r d.hci in
                record { result = o.result; state = record d { hci = o.hci; reads = more } }
          ]
        ] in
          Translated o.result
    by_pending (p ∷ ps) rs = tt
    by_pending [] [] = tt
    by_pending [] (r ∷ rs) = read_wire-Translated r d.hci

read_away-Tells : Tells read_away []
unfolding read_away
read_away-Tells = rescue-Tells (read_packet >>= λ p. done) [] (λ d. (
  answer_dropped-Translated read_packet d (read_packet-Translated d),
  ap (λ v. v.sent) (answer_dropped read_packet d) ∙ read_packet_sent d ∙ sym (append-nil d.sent),
))

-- `wait_disconnected` turns the exceptions of the transport into its result.
conclude-Quiet : (o : Found (Unit {0})) → Translated o.result → Quiet (conclude o).result
unfolding conclude
conclude-Quiet o t = by_result o.result t
  where
    by_result :
        (r : Result (Option (Unit {0})))
        → Translated r
        → let b : Result Bool = elim r [
          | err hci_error ↦ ok false
          | err hci_gone ↦ ok false
          | err e ↦ err e
          | ok none ↦ ok false
          | ok (some u) ↦ ok true
        ] in
          Quiet b
    by_result (ok none) t = tt
    by_result (ok (some u)) t = tt
    by_result (err hci_error) t = tt
    by_result (err hci_gone) t = tt
    by_result (err x) t = t

disconnected-Translated : (handle : ℕ) (p : Packet) → Translated (disconnected handle p)
unfolding disconnected
disconnected-Translated handle p =
    if-Translated (not (is_event evt_disconnection_complete p)) _ _ tt (
      if-Translated (ltb (length p.body) 3) _ _ tt
        (if-Translated (from_little (slice p.body 1 3) % 0x1000 == handle) _ _ tt tt))

wait-Quiet :
    (handle turns : ℕ) (reads : List (Result (Option Packet))) (h : Hci)
    → Quiet (wait_disconnected handle turns reads h).result
unfolding wait_disconnected
wait-Quiet handle turns reads h =
    conclude-Quiet (search (disconnected handle) turns reads [] h)
      (search-Translated (disconnected handle) (disconnected-Translated handle) turns reads h)

pub wait_link_down-Tells : (handle : ℕ) → Tells (wait_link_down handle) []
unfolding wait_link_down
wait_link_down-Tells handle d =
    let quiet = wait-Quiet handle (next_turns d.turns) d.reads d.hci in
    elim (Result-cases (wait_disconnected handle (next_turns d.turns) d.reads d.hci).result) [
      | inr (b, e) ↦ rw (wait_link_down, e) (tt, λ f. sym (append-nil d.sent))
      | inl (x, e) ↦ rw (wait_link_down, e) (rw e at quiet, λ f. sym (append-nil d.sent))
    ]

pub drain-Sends : (rounds : ℕ) → Sends (drain rounds) [] []
unfolding drain
drain-Sends zero = done-Sends
drain-Sends (suc n) =
    >>-Sends _ _ [] [] [] [] (central-Sends read_away [] read_away-Tells)
      (>>-Sends _ _ [] [] [] [] (peripheral-Sends read_away [] read_away-Tells) (drain-Sends n))

-- What a statement under `if x is not None` sends.
abbrev pub if_given : Option ℕ → (ℕ → ℕ × List ℕ) → List (ℕ × List ℕ)
if_given none f = []
if_given (some x) f = f x ∷ []
