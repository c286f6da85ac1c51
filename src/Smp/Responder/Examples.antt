-- ===== src/Smp/Responder/Examples.antt =====
-- A run of the responder against recorded PDUs, and its theorem at that run.
use hci_controller.Base.{bytes_eq, replicate, slice, ℕ, ◌≡◌, refl, true, some, List, [], ◌∷◌, ◌++◌}
use hci_controller.Smp.Pdu
use hci_controller.Smp.Toolbox.{
  f4, f5, f6, g2, shared_secret, sc_method, address_form, method_numeric,
}
use hci_controller.Smp.Responder.{Responder, complete, init, feed, user_confirm, a1, a2}
use hci_controller.Smp.Responder.Outcome.{
  Input, receive, answer, accepts, advance, run, responder_complete,
}
use hci_controller.Smp.Toy.{toy, responder_config, keypair}

-- The initiator's half of a Numeric Comparison, up to its random.
abbrev recorded : List Input
recorded =
    receive (Pdu.request ∷ 1 ∷ 0 ∷ 0x0D ∷ 16 ∷ 3 ∷ 3 ∷ [])
    ∷ receive (Pdu.public_key ∷ ((keypair 2).x ++ (keypair 2).y))
    ∷ receive (Pdu.random ∷ replicate 16 0xA1)
    ∷ []

abbrev compared : Responder
compared = run toy (init (responder_config 1)) recorded

abbrev check_value : List ℕ
check_value =
    f6 toy compared.mac_key compared.na compared.nb (replicate 16 0) (slice compared.preq 1 4)
      (a1 compared) (a2 compared)

-- The check arrives before the user has answered.
abbrev whole : List Input
whole = recorded ++ (receive (Pdu.dhkey_check ∷ check_value) ∷ answer true ∷ [])

abbrev finished : Responder
finished = run toy (init (responder_config 1)) whole

finished-state : finished.state ≡ complete
unfolding run advance feed user_confirm f4 f5 f6 g2 shared_secret sc_method address_form bytes_eq
finished-state = refl

responder_complete_example :
    (shared_secret toy finished.keypair finished.peer_x finished.peer_y ≡ some finished.dhkey)
    × (finished.ltk
        ≡ some (f5 toy finished.dhkey finished.na finished.nb (a1 finished) (a2 finished)).1)
    × (finished.ea
        ≡ some (
            f6 toy finished.mac_key finished.na finished.nb
              (replicate 16 0)
              (slice finished.preq 1 4)
              (a1 finished)
              (a2 finished)))
    × (method_numeric finished.method ≡ true → accepts whole ≡ true)
responder_complete_example = responder_complete toy (responder_config 1) whole finished-state
