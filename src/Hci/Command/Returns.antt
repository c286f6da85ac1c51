-- ===== src/Hci/Command/Returns.antt =====
-- How `Hci.command` ends, and where it leaves the packets that it does not take.
use hci_controller.Base.{
  Option-cases, length, All, Result-cases, Exn, Result, ok, err, ℕ, ◌+◌, ◌<◌, ◌≡◌, refl, sym, ap,
  ◌∙◌, inl, inr, Bool, Option, none, some, List, [], ◌∷◌, ◌++◌, arith,
}
use hci_controller.Transport.Packet.{Packet, packet_of}
use hci_controller.Hci.{Hci}
use hci_controller.Hci.Steps.{packets_of}
use hci_controller.Hci.Search.{Found, search, IsOther}
use hci_controller.Hci.Search.Conserve.{Account, search-Conserves}
use hci_controller.Hci.Search.Reach.{IsQuiet, search_wire, search_pending}
use hci_controller.Hci.Command.{Ended, answer, judge, finish, command, command_octets}
use hci_controller.Hci.Command.Answer.{Answers, answer-Answers}
use hci_controller.Hci.Command.Reply.{Reply, frame_of, value_of, answer-frame_of, reply-IsSound}

-- The transport takes the command.
abbrev pub Sends : (List ℕ → Option Exn) → ℕ → List ℕ → Type 0
Sends write opcode payload =
    (octets : List ℕ) × (command_octets opcode payload ≡ ok octets) × (write octets ≡ none)

module _ (write : List ℕ → Option Exn) (opcode : ℕ) (payload : List ℕ) (allow_fail : Bool) where
  sent_lem :
      (turns : ℕ) (reads : List (Result (Option Packet))) (h : Hci)
      → Sends write opcode payload
      → command write turns reads opcode payload allow_fail h
        ≡ finish allow_fail (search (answer opcode) turns reads [] h)
  unfolding command
  sent_lem turns reads h (octets, fits, taken) = rw (command, fits, taken) refl

  command-Sends :
      (turns : ℕ) (reads : List (Result (Option Packet))) (h : Hci) (a : ℕ × List ℕ)
      → (command write turns reads opcode payload allow_fail h).result ≡ ok a
      → Sends write opcode payload
  unfolding command
  command-Sends turns reads h a e = elim (Result-cases (command_octets opcode payload)) [
    | inl (x, f) ↦ absurd (cc (rw (command, f) at e))
    | inr (octets, f) ↦ elim (Option-cases (write octets)) [
      | inl g ↦ (octets, f, g)
      | inr (x, g) ↦ absurd (cc (rw (command, f, g) at e))
    ]
  ]

  judge_ok : (a b : ℕ × List ℕ) → judge allow_fail a ≡ ok b → a ≡ b
  judge_ok a b e = ground arith

  -- Where a call with `before` pending that returns `a` has left the packets.
  abbrev pub Took :
      List Packet → List (Result (Option Packet)) → ℕ × List ℕ → Ended (ℕ × List ℕ) → Type 0
  Took before reads a o =
      (used : List (Result (Option Packet))) × (pre : List Packet) × (x : Packet) × (post : List
        Packet)
      × (reads ≡ used ++ o.reads)
      × (before ++ packets_of used ≡ pre ++ (x ∷ post))
      × All (IsOther (answer opcode)) pre
      × (answer opcode x ≡ ok (some a))
      × Answers opcode x a
      × (o.hci.pending ≡ post ++ pre)

  took :
      (r : Result (Option (ℕ × List ℕ))) (ds : List Packet) (h : Hci)
      (left : List (Result (Option Packet))) (before : List Packet)
      (reads used : List (Result (Option Packet)))
      → let f : Found (ℕ × List ℕ) = record { result = r; deferred = ds; hci = h; reads = left } in
        (reads ≡ used ++ left)
        → All (IsOther (answer opcode)) ds
        → Account (answer opcode) (before ++ packets_of used) f
        → (a : ℕ × List ℕ) → (finish allow_fail f).result ≡ ok a
        → Took before reads a (finish allow_fail f)
  unfolding finish
  took (err x) ds h left before reads used split others account a e = cc
  took (ok none) ds h left before reads used split others account a e = cc
  took (ok (some b)) ds h left before reads used split others (x, right, all) a e = (
    used,
    ds,
    x,
    h.pending,
    split,
    all,
    others,
    right ∙ ap (λ c. ok (some c)) (judge_ok b a e),
    answer-Answers opcode x a (right ∙ ap (λ c. ok (some c)) (judge_ok b a e)),
    refl,
  )

  -- Where the transport takes a command whose opcode and payload fit, no pending packet answers it,
  -- and the wire gives an answer behind reads of other packets, none of which makes `on_event` raise,
  -- a command with time for all of them gives the answer's status and data, or raises for a status
  -- that is not 0 and is not allowed; it leaves the packets that were pending and those before the
  -- answer pending in order, and what follows unread.
  pub command_answered :
      (turns : ℕ) (rs more : List (Result (Option Packet))) (r : Reply) (h : Hci)
      → opcode < 65536
      → Sends write opcode payload
      → All (IsOther (answer opcode)) h.pending
      → All (IsQuiet (answer opcode)) rs
      → length h.pending + length rs < turns
      → let o =
          command write turns
            (rs ++ (ok (some (packet_of (frame_of opcode r))) ∷ more))
            opcode
            payload
            allow_fail
            h in
        (o.result ≡ judge allow_fail (value_of r))
        × (o.hci.pending ≡ h.pending ++ packets_of rs)
        × (o.reads ≡ more)
  unfolding finish
  command_answered turns rs more r h small sends others quiet lt =
      let x = packet_of (frame_of opcode r) in
      let (found, aside, empty, unread) =
        search_wire (answer opcode) x (value_of r) (answer-frame_of opcode r small) turns rs more []
          h.pending h others quiet (reply-IsSound opcode r) lt in
      rw (sent_lem turns (rs ++ (ok (some x) ∷ more)) h sends, found, aside, empty, unread)
        (refl, refl, refl)

  -- Where an answer is among the packets that were pending when the command was sent, a command with
  -- time for those before it gives its status and data, or raises for a status that is not 0 and is
  -- not allowed, and leaves the packets before the answer behind those that followed it.
  pub command_answer_pending :
      (turns : ℕ) (reads : List (Result (Option Packet))) (pre post : List Packet) (r : Reply)
      (h : Hci)
      → opcode < 65536
      → Sends write opcode payload
      → All (IsOther (answer opcode)) pre
      → length pre < turns
      → command write turns reads opcode payload allow_fail
          (record h { pending = pre ++ (packet_of (frame_of opcode r) ∷ post) })
        ≡ record {
          result = judge allow_fail (value_of r);
          hci = record h { pending = post ++ pre };
          reads = reads;
        }
  unfolding finish
  command_answer_pending turns reads pre post r h small sends others lt =
      let x = packet_of (frame_of opcode r) in
      let found =
        search_pending (answer opcode) x (value_of r) (answer-frame_of opcode r small) turns reads
          [] pre post h others lt in
      rw (sent_lem turns reads (record h { pending = pre ++ (x ∷ post) }) sends, found) refl

  -- A command that returns has made some of the reads and taken the first answer among the packets
  -- that were pending and that the reads gave: an event that the specification lays out as a Command
  -- Complete or a Command Status for the opcode, with the status and the data that are returned. Every
  -- other of the packets is pending, those after the answer first.
  pub command_returned :
      (turns : ℕ) (reads : List (Result (Option Packet))) (h : Hci) (a : ℕ × List ℕ)
      → let o = command write turns reads opcode payload allow_fail h in
        o.result ≡ ok a → Took h.pending reads a o
  command_returned turns reads h a e =
      let f = search (answer opcode) turns reads [] h in
      let sent = sent_lem turns reads h (command-Sends turns reads h a e) in
      let (used, split, others, account) = search-Conserves (answer opcode) turns reads h in
      rw sent (
        took f.result f.deferred f.hci f.reads h.pending reads used split others account a
          (ap (λ o. o.result) (sym sent) ∙ e))
