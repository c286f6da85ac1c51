-- ===== src/Smp/Responder/Dispatch.antt =====
-- A rule for `feed` of the responder: what holds after each handler holds after a PDU.
use hci_controller.Base.{◌==◌, Bool-cases, get_elem?, ℕ, inl, inr, some, List, ◌∷◌}
use hci_controller.Smp.Pdu
use hci_controller.Smp.Toolbox.{Crypto, peer_failed}
use hci_controller.Smp.Responder.{
  Responder, is_done, fail_quietly, settle, on_request, on_public_key, on_random, on_dhkey_check,
  handle, feed,
}

module _ (C : Crypto) (r : Responder) (code : ℕ) (rest : List ℕ) (P : Responder → Type 0) where
  handle_cases :
      P r
      → P (settle C r (some (on_request r (code ∷ rest))))
      → P (settle C r (some (on_public_key C r (code ∷ rest))))
      → P (settle C r (some (on_random C r (code ∷ rest))))
      → P (settle C r (some (on_dhkey_check C r (code ∷ rest))))
      → P (settle C r (handle C r code (code ∷ rest)))
  unfolding handle
  handle_cases same a b d e = elim (Bool-cases (code == Pdu.request)) [
    | inl h ↦ rw h a
    | inr h ↦ rw h (elim (Bool-cases (code == Pdu.public_key)) [
      | inl h ↦ rw h b
      | inr h ↦ rw h (elim (Bool-cases (code == Pdu.random)) [
        | inl h ↦ rw h d
        | inr h ↦
            rw h
              (elim (Bool-cases (code == Pdu.dhkey_check)) [ inl h ↦ rw h e | inr h ↦ rw h same ])
      ])
    ])
  ]

  pub feed_cases :
      P r
      → P (
          fail_quietly
            (record r { peer_failure = get_elem? (code ∷ rest) 1 })
            (peer_failed (get_elem? (code ∷ rest) 1)))
      → P (settle C r (some (on_request r (code ∷ rest))))
      → P (settle C r (some (on_public_key C r (code ∷ rest))))
      → P (settle C r (some (on_random C r (code ∷ rest))))
      → P (settle C r (some (on_dhkey_check C r (code ∷ rest))))
      → P (feed C r (code ∷ rest))
  unfolding feed
  feed_cases same quiet a b d e = elim (Bool-cases (is_done r)) [
    | inl h ↦ rw h same
    | inr h ↦ rw h (elim (Bool-cases (code == Pdu.failed)) [
      | inl h ↦ rw h quiet
      | inr h ↦ rw h (handle_cases same a b d e)
    ])
  ]
