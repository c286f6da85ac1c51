-- ===== src/Smp/Central/Moves.antt =====
-- How one input moves the state of the initiator.
use hci_controller.Base.{bytes_eq→eq, take, ℕ, ◌≤◌, ◌<◌, ◌≡◌, ◌⊎◌, Bool, some, List, [], ◌∷◌, arith}
use hci_controller.Smp.Toolbox.{Crypto}
use hci_controller.Smp.Pdu
use hci_controller.Smp.Central.{
  Central, wait_dhkey_check, complete, failed, on_response, on_public_key, on_confirm, on_random,
  on_dhkey_check, settle, feed, start, user_confirm,
}
use hci_controller.Smp.Central.Dispatch.{feed_cases}
use hci_controller.Smp.Central.Safety.{kept}

module _ (C : Crypto) (c : Central) where
  -- After one input: nothing has happened, or the pairing has failed, or it has moved forward short of
  -- the end, or the peer's check was waited for and was right.
  abbrev pub Moves : ℕ → List ℕ → Central → Type 0
  Moves code rest c' =
      (c' ≡ c)
      ⊎ (c'.state ≡ failed)
      ⊎ ((c.state < c'.state) × (c'.state ≤ wait_dhkey_check))
      ⊎ ((code ≡ Pdu.dhkey_check)
          × (c.state ≡ wait_dhkey_check)
          × (take 16 rest ≡ c.dhkey_check)
          × (c'.state ≡ complete))

  on_response-Moves :
      (code : ℕ) (rest : List ℕ) → Moves code rest (settle C c (some (on_response c (code ∷ rest))))
  unfolding on_response
  on_response-Moves code rest = ground arith

  on_public_key-Moves :
      (code : ℕ) (rest : List ℕ)
      → Moves code rest (settle C c (some (on_public_key C c (code ∷ rest))))
  unfolding on_public_key
  on_public_key-Moves code rest = ground arith

  on_confirm-Moves :
      (code : ℕ) (rest : List ℕ)
      → Moves code rest (settle C c (some (on_confirm C c (code ∷ rest))))
  unfolding on_confirm
  on_confirm-Moves code rest = ground arith

  on_random-Moves :
      (code : ℕ) (rest : List ℕ) → Moves code rest (settle C c (some (on_random C c (code ∷ rest))))
  unfolding on_random
  on_random-Moves code rest = ground arith

  on_dhkey_check-Moves :
      (code : ℕ) (rest : List ℕ)
      → code ≡ Pdu.dhkey_check
      → Moves code rest (settle C c (some (on_dhkey_check C c (code ∷ rest))))
  unfolding on_dhkey_check
  on_dhkey_check-Moves code rest e = ground (arith, bytes_eq→eq (take 16 rest) c.dhkey_check)

  pub feed-Moves : (code : ℕ) (rest : List ℕ) → Moves code rest (feed C c (code ∷ rest))
  feed-Moves code rest =
      feed_cases C c code rest (Moves code rest) (ground arith) (ground arith)
        (on_response-Moves code rest) (on_public_key-Moves code rest) (on_confirm-Moves code rest)
        (on_random-Moves code rest) (on_dhkey_check-Moves code rest)

  pub start-Moves : Moves 0 [] (kept C c (start c))
  unfolding start
  start-Moves = ground arith

  pub user_confirm-Moves : (b : Bool) → Moves 0 [] (kept C c (user_confirm C c b))
  unfolding user_confirm
  user_confirm-Moves b = ground arith
