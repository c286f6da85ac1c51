-- ===== src/Transport/Usb/Queue/Order.antt =====
-- Packets come out of the mailbox as they went in, whatever calls are made in between.
use hci_controller.Base.{
  Option-cases, List-cases, Result, ok, err, ◌≡◌, refl, sym, ap, ◌∙◌, inl, inr, Bool, false, Option,
  none, some, List, [], ◌∷◌, ◌++◌, append-nil, append_assoc, arith,
}
use hci_controller.Transport.Packet.{Packet}
use hci_controller.Transport.Usb.Queue.{
  Mailbox, is_late, Wake, queued, reader_failed, woken, notify, Outcome, look, wait_packet,
  read_packet, probe_end, has_pending_input,
}

-- What a caller or a reader does.
pub data Operation : Type 0 where
  arrive : Wake → Operation
  read : Bool → List Wake → Operation
  probe : List Wake → Operation

-- The packets that the readers queue, in order.
abbrev pub arrivals : List Wake → List Packet
arrivals [] = []
arrivals (queued p ∷ ws) = p ∷ arrivals ws
arrivals (reader_failed e ∷ ws) = arrivals ws
arrivals (woken l ∷ ws) = arrivals ws

abbrev pub all_arrivals : List Operation → List Packet
all_arrivals [] = []
all_arrivals (arrive w ∷ os) = arrivals (w ∷ []) ++ all_arrivals os
all_arrivals (read t ws ∷ os) = arrivals ws ++ all_arrivals os
all_arrivals (probe ws ∷ os) = arrivals ws ++ all_arrivals os

abbrev pub absorb : List Wake → Mailbox → Mailbox
absorb [] m = m
absorb (w ∷ ws) m = absorb ws (notify w m)

abbrev pub given : Result (Option Packet) → List Packet
given (ok (some p)) = p ∷ []
given (ok none) = []
given (err e) = []

-- The packets that the `read_packet` calls return, in order, and the mailbox at the end.
pub run : List Operation → Mailbox → List Packet × Mailbox
run [] m = ([], m)
run (arrive w ∷ os) m = run os (notify w m)
run (read t ws ∷ os) m =
    let o = read_packet t ws m in
    let (out, m') = run os (absorb o.later o.mailbox) in (given o.result ++ out, m')
run (probe ws ∷ os) m = let o = has_pending_input ws m in run os (absorb o.later o.mailbox)

abbrev pub held : Mailbox → List Packet
held m = m.prefetched ++ m.packets

arrivals-cons : (w : Wake) (ws : List Wake) → arrivals (w ∷ ws) ≡ arrivals (w ∷ []) ++ arrivals ws
arrivals-cons (queued p) ws = refl
arrivals-cons (reader_failed e) ws = refl
arrivals-cons (woken l) ws = refl

held-notify : (w : Wake) (m : Mailbox) → held (notify w m) ≡ held m ++ arrivals (w ∷ [])
unfolding notify
held-notify (queued p) m = sym (append_assoc m.prefetched m.packets (p ∷ []))
held-notify (reader_failed e) m = ground (arith, append-nil (held m))
held-notify (woken l) m = sym (append-nil (held m))

held-wake :
    (w : Wake) (ws : List Wake) (m : Mailbox)
    → held m ++ arrivals (w ∷ ws) ≡ held (notify w m) ++ arrivals ws
held-wake w ws m =
    rw (held-notify w m, arrivals-cons w ws)
      (sym (append_assoc (held m) (arrivals (w ∷ [])) (arrivals ws)))

held-absorb : (ws : List Wake) (m : Mailbox) → held (absorb ws m) ≡ held m ++ arrivals ws
held-absorb [] m = sym (append-nil (held m))
held-absorb (w ∷ ws) m = held-absorb ws (notify w m) ∙ sym (held-wake w ws m)

-- A call that ends with `o` has given or kept the packets `before`, and nothing stands in front of
-- the queue.
record Keeps (before : List Packet) (o : Outcome) : Type 0 where
  all : given o.result ++ (held o.mailbox ++ arrivals o.later) ≡ before
  clear : o.mailbox.prefetched ≡ []

look-held :
    (t : Bool) (m m' : Mailbox) (r : Result (Option Packet))
    → m.prefetched ≡ []
    → look t m ≡ some (r, m')
    → (given r ++ held m' ≡ held m) × (m'.prefetched ≡ [])
unfolding look
look-held t m m' r e l = ground arith

notify-prefetched : (w : Wake) (m : Mailbox) → (notify w m).prefetched ≡ m.prefetched
unfolding notify
notify-prefetched (queued p) m = refl
notify-prefetched (reader_failed e) m = ground arith
notify-prefetched (woken l) m = refl

wait_packet-Keeps :
    (t : Bool) (ws : List Wake) (m : Mailbox)
    → m.prefetched ≡ []
    → Keeps (held m ++ arrivals ws) (wait_packet t ws m)
unfolding wait_packet
wait_packet-Keeps t [] m e = elim (Option-cases (look t m)) [
  | inl wait ↦ rw (wait, wait_packet) (record { all = refl; clear = e })
  | inr ((r, m'), l) ↦
      let (kept, front) = look-held t m m' r e l in
      rw (l, wait_packet)
        (record {
          all = sym (append_assoc (given r) (held m') []) ∙ ap (λ p. p ++ []) kept;
          clear = front;
        })
]
wait_packet-Keeps t (w ∷ ws) m e = elim (Option-cases (look t m)) [
  | inl wait ↦
      let rest = wait_packet-Keeps (is_late w) ws (notify w m) (notify-prefetched w m ∙ e) in
      rw (wait, wait_packet)
        (record { all = rest.all ∙ sym (held-wake w ws m); clear = rest.clear })
  | inr ((r, m'), l) ↦
      let (kept, front) = look-held t m m' r e l in
      rw (l, wait_packet)
        (record {
          all =
              sym (append_assoc (given r) (held m') (arrivals (w ∷ ws)))
              ∙ ap (λ p. p ++ arrivals (w ∷ ws)) kept;
          clear = front;
        })
]

module _ (t : Bool) (ws : List Wake) (m : Mailbox) where
  read_packet_wait : m.prefetched ≡ [] → read_packet t ws m ≡ wait_packet t ws m
  unfolding read_packet
  read_packet_wait e = simp (e, read_packet)

  -- What `read_packet` gives, what it leaves and what arrives afterwards is what was held and what
  -- arrives.
  read_packet-held :
      given (read_packet t ws m).result
        ++ (held (read_packet t ws m).mailbox ++ arrivals (read_packet t ws m).later)
      ≡ held m ++ arrivals ws
  unfolding read_packet
  read_packet-held = elim (List-cases m.prefetched) [
    | inl e ↦ rw (read_packet_wait e) ((wait_packet-Keeps t ws m e).all)
    | inr (p, ps, e) ↦ rw (e, read_packet) refl
  ]

probe_end-held :
    (o : Outcome) {before : List Packet}
    → Keeps before o
    → held (probe_end o).mailbox ++ arrivals (probe_end o).later ≡ before
unfolding probe_end
probe_end-held o k = ground (arith, k.all, k.clear)

has_pending_input_wait :
    (ws : List Wake) (m : Mailbox)
    → m.prefetched ≡ []
    → has_pending_input ws m ≡ probe_end (read_packet false ws m)
unfolding has_pending_input
has_pending_input_wait ws m e = simp (e, has_pending_input)

probe-held :
    (ws : List Wake) (m : Mailbox)
    → held (has_pending_input ws m).mailbox ++ arrivals (has_pending_input ws m).later
      ≡ held m ++ arrivals ws
unfolding has_pending_input
probe-held ws m = elim (List-cases m.prefetched) [
  | inl e ↦
      rw (has_pending_input_wait ws m e)
        (rw (read_packet_wait false ws m e) (probe_end-held _ (wait_packet-Keeps false ws m e)))
  | inr (p, ps, e) ↦ rw (e, has_pending_input) (rw e refl)
]

-- In any order of arrivals, reads and probes, the packets that the reads return and those that are
-- still held are the packets that were held and that arrived, each once and in order.
pub run-order :
    (os : List Operation) (m : Mailbox)
    → (run os m).0 ++ ((run os m).1.prefetched ++ (run os m).1.packets)
      ≡ (m.prefetched ++ m.packets) ++ all_arrivals os
unfolding run
run-order [] m = sym (append-nil (held m))
run-order (arrive w ∷ os) m =
    run-order os (notify w m)
    ∙ ap (λ h. h ++ all_arrivals os) (held-notify w m)
    ∙ append_assoc (held m) (arrivals (w ∷ [])) (all_arrivals os)
run-order (read t ws ∷ os) m =
    let o = read_packet t ws m in
    let later = run os (absorb o.later o.mailbox) in
    append_assoc (given o.result) later.0 (held later.1)
    ∙ ap (λ h. given o.result ++ h)
        (run-order os (absorb o.later o.mailbox)
          ∙ ap (λ h. h ++ all_arrivals os) (held-absorb o.later o.mailbox))
    ∙ sym (append_assoc (given o.result) (held o.mailbox ++ arrivals o.later) (all_arrivals os))
    ∙ ap (λ h. h ++ all_arrivals os) (read_packet-held t ws m)
    ∙ append_assoc (held m) (arrivals ws) (all_arrivals os)
run-order (probe ws ∷ os) m =
    let o = has_pending_input ws m in
    run-order os (absorb o.later o.mailbox)
    ∙ ap (λ h. h ++ all_arrivals os) (held-absorb o.later o.mailbox ∙ probe-held ws m)
    ∙ append_assoc (held m) (arrivals ws) (all_arrivals os)
