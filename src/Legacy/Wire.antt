-- ===== src/Legacy/Wire.antt =====
-- Legacy pairing over the `Hci` of Hci/Command: the two methods that `SmpPeripheral` calls are `command`
-- and `send_acl` as they are modelled there, and a controller answers each command that is sent.
use hci_controller.Base.{
  ltb, ltb→lt, lt→ltb, Bool-cases, Option-cases, length, All, length-append, u16, Result-cases, Exn,
  Result, ok, ℕ, suc, ◌+◌, ◌<◌, ◌≡◌, refl, sym, ap, subst, ◌∙◌, inl, inr, true, false, ◌&&◌, Option,
  none, some, List, [], ◌∷◌, ◌++◌, arith,
}
use hci_controller.Transport.Packet.{Packet, packet_of, h4_command, h4_acl}
use hci_controller.Hci.{Hci}
use hci_controller.Hci.Command.{answer, command, command_octets, send_acl, acl_octets}
use hci_controller.Hci.Search.{IsOther}
use hci_controller.Hci.Command.Reply.{completed, frame_of}
use hci_controller.Hci.Command.Returns.{command_answered}
use hci_controller.Legacy.{Link, op_le_encrypt, op_le_rand}
use hci_controller.Legacy.Reference.{Works}
use hci_controller.Legacy.Agreement.{Served, legacy_pairing_agrees}

-- A controller: the return parameters with which it completes a command, and its state afterwards.
pub record Chip (C : Type 0) : Type 0 where
  pub reply : C → ℕ → List ℕ → List ℕ
  pub after : C → ℕ → List ℕ → C

-- The object with nothing pending, and the controller's state.
pub record Host (C : Type 0) : Type 0 where
  pub hci : Hci
  pub idle : hci.pending ≡ []
  pub chip : C

-- What the transport's reads give after a command.
abbrev pub completion : ℕ → List ℕ → List (Result (Option Packet))
completion opcode octets = ok (some (packet_of (frame_of opcode (completed 1 0 octets)))) ∷ []

sent_opcode :
    (opcode : ℕ) (payload octets : List ℕ)
    → command_octets opcode payload ≡ ok octets
    → opcode < 65536
unfolding command_octets
sent_opcode opcode payload octets h =
    elim (Bool-cases (ltb opcode 65536 && ltb (length payload) 256)) [
      | inl e ↦ ltb→lt opcode 65536 (ground arith)
      | inr e ↦ absurd (cc (rw e at h))
    ]

module _ (write : List ℕ → Option Exn) (turns : ℕ) where
  -- With nothing pending, a command that the transport takes is answered by the controller.
  answered :
      (opcode : ℕ) (payload octets wire : List ℕ) (h : Hci)
      → h.pending ≡ []
      → command_octets opcode payload ≡ ok wire
      → write wire ≡ none
      → let o = command write (suc turns) (completion opcode octets) opcode payload false h in
        (o.result ≡ ok (0, octets)) × (o.hci.pending ≡ [])
  answered opcode payload octets wire h idle fits taken =
      let o =
        command_answered write opcode payload false (suc turns) [] [] (completed 1 0 octets) h
          (sent_opcode opcode payload wire fits) (wire, fits, taken)
          (subst (All (IsOther (answer opcode))) (sym idle) tt) tt
          (omega (arith, ap length idle)) in
      (o.0, o.1 ∙ ap (λ l. l ++ []) idle)

  -- The answer is taken, and nothing is left pending; a command that is not sent leaves the object.
  pub command_idle :
      (opcode : ℕ) (payload octets : List ℕ) (h : Hci)
      → h.pending ≡ []
      → (command write (suc turns) (completion opcode octets) opcode payload false h).hci.pending
        ≡ []
  unfolding command
  command_idle opcode payload octets h e = elim (Result-cases (command_octets opcode payload)) [
    | inl (x, f) ↦ rw (command, f) e
    | inr (wire, f) ↦ elim (Option-cases (write wire)) [
      | inr (x, g) ↦ rw (command, f, g) e
      | inl g ↦ (answered opcode payload octets wire h e f g).1
    ]
  ]

  pub send_acl_idle :
      (handle cid : ℕ) (payload : List ℕ) (h : Hci)
      → h.pending ≡ []
      → (send_acl write handle cid payload h).hci.pending ≡ []
  unfolding send_acl
  send_acl_idle handle cid payload h e = elim (Result-cases (acl_octets handle cid payload)) [
    | inl (x, f) ↦ rw (send_acl, f) e
    | inr (octets, f) ↦ elim (Option-cases (write octets)) [
      | inl g ↦ rw (send_acl, f, g) e
      | inr (x, g) ↦ rw (send_acl, f, g) e
    ]
  ]

  -- The methods of the object.
  abbrev pub hci_link : {C : Type 0} → Chip C → Link (Host C)
  hci_link chip = record {
    command = λ opcode payload w.
        let octets = chip.reply w.chip opcode payload in
        let o = command write (suc turns) (completion opcode octets) opcode payload false w.hci in
        record {
          result = o.result;
          state = record {
            hci = o.hci;
            idle = command_idle opcode payload octets w.hci w.idle;
            chip = chip.after w.chip opcode payload;
          };
        };
    send_acl = λ handle cid payload w.
        let o = send_acl write handle cid payload w.hci in
        record {
          result = o.result;
          state = record {
            hci = o.hci;
            idle = send_acl_idle handle cid payload w.hci w.idle;
            chip = w.chip;
          };
        };
  }

  module _ (takes : (octets : List ℕ) → write octets ≡ none) where
    command_taken :
        (opcode : ℕ) (payload octets : List ℕ) (h : Hci)
        → h.pending ≡ []
        → opcode < 65536
        → length payload < 256
        → (command write (suc turns) (completion opcode octets) opcode payload false h).result
          ≡ ok (0, octets)
    unfolding command_octets
    command_taken opcode payload octets h idle small short =
        let wire = h4_command ∷ (u16 opcode ++ (length payload ∷ payload)) in
        (answered opcode payload octets wire h idle
          (rw (command_octets, lt→ltb opcode 65536 small, lt→ltb (length payload) 256 short) refl)
          (takes wire)).0

    send_acl_taken :
        (handle cid : ℕ) (payload : List ℕ) (h : Hci)
        → handle < 65536
        → cid < 65536
        → length payload + 4 < 65536
        → (send_acl write handle cid payload h).result ≡ ok tt
    unfolding send_acl acl_octets
    send_acl_taken handle cid payload h hh hc hl =
        let fits : ltb (length (u16 (length payload) ++ (u16 cid ++ payload))) 65536 ≡ true =
          lt→ltb _ 65536 (omega (arith, hl)) in
        rw (send_acl, acl_octets, fits, lt→ltb cid 65536 hc, lt→ltb handle 65536 hh)
          (rw
            (takes (
              h4_acl
              ∷ (u16 handle
                  ++ (u16 (length (u16 (length payload) ++ (u16 cid ++ payload)))
                      ++ (u16 (length payload) ++ (u16 cid ++ payload))))))
            refl)

    module _ {C : Type 0} (chip : Chip C) (e : List ℕ → List ℕ → List ℕ)
        (block : (k b : List ℕ) → length (e k b) ≡ 16)
        (encrypts : (c : C) (k b : List ℕ)
          → length k ≡ 16
          → length b ≡ 16
          → chip.reply c op_le_encrypt (k ++ b) ≡ e k b)
        (brings : (c : C) → length (chip.reply c op_le_rand []) ≡ 8) where
      hci_link-Works : Works (hci_link chip) e
      hci_link-Works = record {
        block = block;
        encrypts = λ k b w hk hb.
            command_taken op_le_encrypt (k ++ b) (chip.reply w.chip op_le_encrypt (k ++ b)) w.hci
              w.idle (omega arith) (omega (arith, length-append k b, hk, hb))
            ∙ ap (λ o. ok (0, o)) (encrypts w.chip k b hk hb);
        brings = λ w. (
          chip.reply w.chip op_le_rand [],
          command_taken op_le_rand [] (chip.reply w.chip op_le_rand []) w.hci w.idle (omega arith)
              (omega arith),
          brings w.chip,
        );
        sends = λ handle cid payload w. send_acl_taken handle cid payload w.hci;
      }

      -- Over the program's own `command` and `send_acl`, with a transport that takes every packet and gives
      -- the controller's answer to each command, from an object with nothing pending; with a controller
      -- whose LE Encrypt is a block cipher and whose LE Rand brings eight octets, whatever its state: an
      -- initiator that follows the specification is served, for a connection handle of 16 bits, addresses of
      -- 6 octets, a Pairing Request of 7 and a random of 16. Its three PDUs are taken, what is sent is the
      -- Pairing Response, the confirm value of the random that follows it, computed as the specification
      -- computes c1, and that random; the short term key is s1 of the two randoms, and no failure is
      -- noted. The loop of `random16` has ended after two rounds.
      pub hci_pairing_agrees :
          (host : Host C) (conn lt pt : ℕ) (local_addr peer_addr params mrand : List ℕ) (n : ℕ)
          → conn < 65536
          → length local_addr ≡ 6
          → length peer_addr ≡ 6
          → length params ≡ 6
          → length mrand ≡ 16
          → Served (hci_link chip) e host conn lt pt local_addr peer_addr params mrand n
      hci_pairing_agrees = legacy_pairing_agrees (hci_link chip) e hci_link-Works
