-- ===== src/Smp/Central/Examples.antt =====
-- A run of the initiator against recorded PDUs, and its theorems at that run.
use hci_controller.Base.{
  bytes_eq, take, replicate, slice, ℕ, ◌≡◌, refl, true, false, some, List, [], ◌∷◌, ◌++◌, arith,
}
use hci_controller.Smp.Pdu
use hci_controller.Smp.Toolbox.{
  f4, f5, f6, g2, shared_secret, sc_method, address_form, method_numeric,
}
use hci_controller.Smp.Central.{
  Central, wait_user, wait_dhkey_check, complete, init, feed, start, user_confirm, a1, a2,
}
use hci_controller.Smp.Central.Outcome.{
  Input, begin, receive, answer, advance, run, keys_are_checked, completes_by_check,
  complete_is_accepted, run-done,
}
use hci_controller.Smp.Toy.{toy, central_config, keypair}

abbrev commitment : List ℕ
commitment = f4 toy (keypair 3).x (keypair 2).x (replicate 16 0xB2) (0 ∷ [])

-- The responder's half of a Numeric Comparison.
abbrev recorded : List Input
recorded =
    begin
    ∷ receive (Pdu.response ∷ 1 ∷ 0 ∷ 0x0D ∷ 16 ∷ 3 ∷ 0 ∷ [])
    ∷ receive (Pdu.public_key ∷ ((keypair 3).x ++ (keypair 3).y))
    ∷ receive (Pdu.confirm ∷ commitment)
    ∷ receive (Pdu.random ∷ replicate 16 0xB2)
    ∷ []

abbrev compared : Central
compared = run toy (init (central_config 1)) recorded

compared-state : compared.state ≡ wait_user
unfolding run advance start feed f4 f5 g2 shared_secret sc_method address_form bytes_eq
compared-state = refl

keys_are_checked_example :
    (shared_secret toy (keypair 2) compared.peer_x compared.peer_y ≡ some compared.dhkey)
    × (¬ ((compared.peer_x ≡ compared.keypair.x) × (compared.peer_y ≡ compared.keypair.y)))
    × (f4 toy compared.peer_x compared.keypair.x compared.nb (0 ∷ []) ≡ compared.confirm)
    × (compared.ltk
        ≡ some (f5 toy compared.dhkey compared.na compared.nb (a1 compared) (a2 compared)).1)
unfolding run advance start feed f4 f5 g2 shared_secret sc_method address_form bytes_eq
keys_are_checked_example =
    keys_are_checked toy (central_config 1) recorded (omega arith) (omega arith)

abbrev accepted : Central
accepted = advance toy compared (answer true)

abbrev ending : List Input
ending = answer true ∷ receive (Pdu.dhkey_check ∷ accepted.dhkey_check) ∷ []

abbrev finished : Central
finished = run toy (init (central_config 1)) (recorded ++ ending)

finished-state : finished.state ≡ complete
unfolding run advance start feed user_confirm f4 f5 f6 g2 shared_secret sc_method address_form
    bytes_eq
finished-state = refl

complete_is_accepted_example :
    (method_numeric finished.method ≡ true → finished.user_accepted ≡ some true)
    × (finished.dhkey_check
        ≡ f6 toy finished.mac_key finished.nb finished.na
            (replicate 16 0)
            (slice finished.pres 1 4)
            (a2 finished)
            (a1 finished))
complete_is_accepted_example =
    complete_is_accepted toy (central_config 1) (recorded ++ ending) finished-state

completes_by_check_example :
    (pdu : List ℕ) × (receive (Pdu.dhkey_check ∷ accepted.dhkey_check)
      ≡ receive (Pdu.dhkey_check ∷ pdu))
    × (accepted.state ≡ wait_dhkey_check)
    × (take 16 pdu ≡ accepted.dhkey_check)
unfolding run advance start feed user_confirm f4 f5 f6 g2 shared_secret sc_method address_form
    bytes_eq
completes_by_check_example =
    completes_by_check toy accepted (receive (Pdu.dhkey_check ∷ accepted.dhkey_check)) (omega arith)
      refl

run-done_example : run toy finished (begin ∷ answer false ∷ []) ≡ finished
run-done_example = run-done toy finished (begin ∷ answer false ∷ []) (rw finished-state)
