-- ===== src/Smp/Session/Examples.antt =====
-- The pairing theorem at two concrete peers that compare numbers.
use hci_controller.Base.{bytes_eq, replicate, ℕ, ◌≡◌, refl, some, List, [], ◌∷◌, arith}
use hci_controller.Smp.Toolbox.{f5, shared_secret, sc_method, address_form}
use hci_controller.Smp.Central
use hci_controller.Smp.Responder
use hci_controller.Smp.Session.{pairing}
use hci_controller.Smp.Session.Agreement.{Peers, pairing_agrees}
use hci_controller.Smp.Toy.{toy, toy_mac_size, central_config, responder_config}

peers : Peers toy (central_config 1) (responder_config 1) (6 ∷ [])
unfolding shared_secret sc_method address_form bytes_eq
peers = record {
  central_address = refl;
  responder_address = refl;
  secure = refl;
  central_io = omega arith;
  responder_io = omega arith;
  supported = refl;
  key_size = omega arith;
  central_x = refl;
  central_y = refl;
  responder_x = refl;
  responder_y = refl;
  central_random = refl;
  responder_random = refl;
  distinct = refl;
  central_secret = refl;
  responder_secret = refl;
  mac_size = toy_mac_size;
}

abbrev central_form : List ℕ
central_form = address_form (1 ∷ 1 ∷ 1 ∷ 1 ∷ 1 ∷ 1 ∷ []) 0

abbrev responder_form : List ℕ
responder_form = address_form (2 ∷ 2 ∷ 2 ∷ 2 ∷ 2 ∷ 2 ∷ []) 1

pairing_agrees_example :
    let s = pairing toy (central_config 1) (responder_config 1) in
    (s.central.state ≡ Central.complete)
    × (s.responder.state ≡ Responder.complete)
    × (s.central.method ≡ s.responder.method)
    × (s.central.numeric_value ≡ s.responder.numeric_value)
    × (s.central.ltk ≡ s.responder.ltk)
    × (s.central.ltk
        ≡ some
            (f5 toy (6 ∷ []) (replicate 16 0xA1) (replicate 16 0xB2) central_form responder_form).1)
pairing_agrees_example = pairing_agrees toy (central_config 1) (responder_config 1) (6 ∷ []) peers
