-- ===== src/Smp/Central/Dispatch.antt =====
-- A rule for `feed` of the initiator: what holds after each handler holds after a PDU.
use hci_controller.Base.{◌==◌, Bool-cases, get_elem?, ℕ, ◌≡◌, inl, inr, some, List, ◌∷◌, arith}
use hci_controller.Smp.Pdu
use hci_controller.Smp.Toolbox.{Crypto, peer_failed}
use hci_controller.Smp.Central.{
  Central, is_done, fail_quietly, settle, on_response, on_public_key, on_confirm, on_random,
  on_dhkey_check, handle, feed,
}

module _ (C : Crypto) (c : Central) (code : ℕ) (rest : List ℕ) (P : Central → Type 0) where
  handle_cases :
      P c
      → P (settle C c (some (on_response c (code ∷ rest))))
      → P (settle C c (some (on_public_key C c (code ∷ rest))))
      → P (settle C c (some (on_confirm C c (code ∷ rest))))
      → P (settle C c (some (on_random C c (code ∷ rest))))
      → (code ≡ Pdu.dhkey_check → P (settle C c (some (on_dhkey_check C c (code ∷ rest)))))
      → P (settle C c (handle C c code (code ∷ rest)))
  unfolding handle
  handle_cases same a b d e f = elim (Bool-cases (code == Pdu.response)) [
    | inl h ↦ rw h a
    | inr h ↦ rw h (elim (Bool-cases (code == Pdu.public_key)) [
      | inl h ↦ rw h b
      | inr h ↦ rw h (elim (Bool-cases (code == Pdu.confirm)) [
        | inl h ↦ rw h d
        | inr h ↦ rw h (elim (Bool-cases (code == Pdu.random)) [
          | inl h ↦ rw h e
          | inr h ↦ rw h (elim (Bool-cases (code == Pdu.dhkey_check)) [
            | inl h ↦ rw h (f (ground arith))
            | inr h ↦ rw h same
          ])
        ])
      ])
    ])
  ]

  pub feed_cases :
      P c
      → P (
          fail_quietly
            (record c { peer_failure = get_elem? (code ∷ rest) 1 })
            (peer_failed (get_elem? (code ∷ rest) 1)))
      → P (settle C c (some (on_response c (code ∷ rest))))
      → P (settle C c (some (on_public_key C c (code ∷ rest))))
      → P (settle C c (some (on_confirm C c (code ∷ rest))))
      → P (settle C c (some (on_random C c (code ∷ rest))))
      → (code ≡ Pdu.dhkey_check → P (settle C c (some (on_dhkey_check C c (code ∷ rest)))))
      → P (feed C c (code ∷ rest))
  unfolding feed
  feed_cases same quiet a b d e f = elim (Bool-cases (is_done c)) [
    | inl h ↦ rw h same
    | inr h ↦ rw h (elim (Bool-cases (code == Pdu.failed)) [
      | inl h ↦ rw h quiet
      | inr h ↦ rw h (handle_cases same a b d e f)
    ])
  ]
