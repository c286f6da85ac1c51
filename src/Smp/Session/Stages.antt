-- ===== src/Smp/Session/Stages.antt =====
-- The two ends at each stage of a pairing that goes well, written out.
use hci_controller.Base.{drop, ℕ, true, some, List, [], ◌∷◌, ◌++◌}
use Prim.Native.Nat.{bit_and}
use hci_controller.Smp.Pdu
use hci_controller.Smp.Toolbox.{Crypto, Method, f4, g2}
use hci_controller.Smp.Central
use hci_controller.Smp.Central.{Central}
use hci_controller.Smp.Central.Steps.{chosen, request_of, keyed}
use hci_controller.Smp.Responder
use hci_controller.Smp.Responder.{Responder}
use hci_controller.Smp.Responder.Steps.{response_to, keyed as responder_keyed}

module _ (C : Crypto) (g : Central.Config) (h : Responder.Config) (key : List ℕ) where
  abbrev pub method : Method
  method = chosen g.io_cap g.auth_req h.io_cap h.auth_req

  abbrev pub request_pdu : List ℕ
  request_pdu = request_of (Central.init g)

  abbrev pub response_pdu : List ℕ
  response_pdu = response_to (Responder.init h) g.init_keys g.resp_keys

  abbrev pub central_asking : Central
  central_asking =
      Central.emit (record (Central.init g) { preq = request_pdu; state = Central.wait_response })
        request_pdu

  abbrev pub responder_answered : Responder
  responder_answered =
      Responder.emit
        (record (Responder.init h) {
          preq = request_pdu;
          request = drop 1 request_pdu;
          method = some method;
          agreed_init_keys = bit_and g.init_keys h.accept_init_keys;
          pres = response_pdu;
          state = Responder.wait_public_key;
        })
        response_pdu

  abbrev pub central_showing : Central
  central_showing =
      Central.emit
        (record central_asking {
          pres = response_pdu;
          peer_io_cap = h.io_cap;
          peer_auth_req = h.auth_req;
          method = some method;
          state = Central.wait_public_key;
        })
        (Pdu.public_key ∷ (g.keypair.x ++ g.keypair.y))

  abbrev pub commitment : List ℕ
  commitment = f4 C h.keypair.x g.keypair.x h.random (0 ∷ [])

  abbrev pub responder_committed : Responder
  responder_committed =
      Responder.emit
        (Responder.emit
          (record responder_answered {
            peer_x = g.keypair.x;
            peer_y = g.keypair.y;
            dhkey = key;
            state = Responder.wait_random;
          })
          (Pdu.public_key ∷ (h.keypair.x ++ h.keypair.y)))
        (Pdu.confirm ∷ commitment)

  abbrev pub central_agreed : Central
  central_agreed = record central_showing {
    peer_x = h.keypair.x;
    peer_y = h.keypair.y;
    dhkey = key;
    state = Central.wait_confirm;
  }

  abbrev pub central_revealed : Central
  central_revealed =
      Central.emit
        (record central_agreed { confirm = commitment; na = g.random; state = Central.wait_random })
        (Pdu.random ∷ g.random)

  -- With the responder's random, before the keys are derived.
  abbrev pub central_informed : Central
  central_informed = record central_revealed { nb = h.random }

  abbrev pub number : ℕ
  number = g2 C g.keypair.x h.keypair.x g.random h.random

  -- Numeric Comparison: both ends wait for their users.
  abbrev pub central_comparing : Central
  central_comparing = record (keyed C central_informed) {
    numeric_value = some number;
    state = Central.wait_user;
  }

  abbrev pub responder_comparing : Responder
  responder_comparing = record (responder_keyed C responder_committed g.random) {
    numeric_value = some number;
  }

  -- Just Works: the initiator has sent its check.
  abbrev pub responder_ready : Responder
  responder_ready = record (responder_keyed C responder_committed g.random) {
    user_accepted = some true;
  }
