-- ===== src/Smp/Session/Agreement.antt =====
-- Both ends of a pairing complete with the same key.
use hci_controller.Base.{
  Bool-cases, bytes_eq, length, replicate, slice, has_bit, ℕ, ◌≤◌, ◌≡◌, refl, ap, ap₂, ◌∙◌, inl,
  inr, Bool, true, false, ◌&&◌, Option, none, some, List, ◌∷◌, arith,
}
use Prim.Native.Nat.{bit_and, min}
use hci_controller.Smp.Pdu
use hci_controller.Smp.Toolbox.{
  length-f4, length-f6, Crypto, f5, f6, shared_secret, auth_sc, is_passkey, method_numeric,
  address_form,
}
use hci_controller.Smp.Central
use hci_controller.Smp.Central.{Central}
use hci_controller.Smp.Central.Steps
use hci_controller.Smp.Responder
use hci_controller.Smp.Responder.{Responder}
use hci_controller.Smp.Responder.Steps as ResponderSteps
use hci_controller.Smp.Session.{Session, to_responder, to_central, round, accept, begin, pairing}
use hci_controller.Smp.Session.Stages.{
  method, request_pdu, response_pdu, central_asking, responder_answered, central_showing, number,
  commitment, responder_committed, central_agreed, central_revealed, central_informed,
  central_comparing, responder_comparing, responder_ready,
}

-- What the two ends and the cryptography bring to a pairing that can go well: each knows the other's
-- address, both ask for Secure Connections, their features make a method that is implemented, public
-- keys and randoms have their sizes and the keys differ, both sides of the key exchange give `key`,
-- and AES-CMAC gives 16 octets.
pub record Peers (C : Crypto) (g : Central.Config) (h : Responder.Config) (key : List ℕ)
    : Type 0 where
  pub central_address :
      address_form g.local_address g.local_type ≡ address_form h.peer_address h.peer_type
  pub responder_address :
      address_form g.peer_address g.peer_type ≡ address_form h.local_address h.local_type
  pub secure : (has_bit g.auth_req auth_sc && has_bit h.auth_req auth_sc) ≡ true
  pub central_io : g.io_cap ≤ 4
  pub responder_io : h.io_cap ≤ 4
  pub supported : is_passkey (method C g h key) ≡ false
  pub key_size : 7 ≤ h.key_size
  pub central_x : length g.keypair.x ≡ 32
  pub central_y : length g.keypair.y ≡ 32
  pub responder_x : length h.keypair.x ≡ 32
  pub responder_y : length h.keypair.y ≡ 32
  pub central_random : length g.random ≡ 16
  pub responder_random : length h.random ≡ 16
  pub distinct : (bytes_eq h.keypair.x g.keypair.x && bytes_eq h.keypair.y g.keypair.y) ≡ false
  pub central_secret : shared_secret C g.keypair h.keypair.x h.keypair.y ≡ some key
  pub responder_secret : shared_secret C h.keypair g.keypair.x g.keypair.y ≡ some key
  pub mac_size : (k m : List ℕ) → length (C.aes_cmac k m) ≡ 16

abbrev at : Central → Responder → ℕ → ℕ → Session
at c r n m = record { central = c; responder = r; from_central = n; from_responder = m }

module _ {C : Crypto} {g : Central.Config} {h : Responder.Config} {key : List ℕ}
    (p : Peers C g h key) where
  begin_lem : begin C g h ≡ at (central_asking C g h key) (Responder.init h) 0 0
  unfolding begin
  begin_lem = rw (Steps.start-idle C (Central.init g) refl)

  features :
      round C (at (central_asking C g h key) (Responder.init h) 0 0)
      ≡ at (central_showing C g h key) (responder_answered C g h key) 1 1
  unfolding to_responder to_central
  features =
      rw
        (ResponderSteps.feed_request C (Responder.init h) g.io_cap g.auth_req g.key_size g.init_keys
          g.resp_keys refl p.secure p.central_io p.responder_io p.supported)
        (rw (
          Steps.feed-response C (central_asking C g h key) h.io_cap h.auth_req (min h.key_size 16)
            (bit_and g.init_keys h.accept_init_keys) (bit_and g.resp_keys h.resp_keys) refl p.secure
            (omega (arith, p.key_size)) (omega arith) p.central_io p.responder_io p.supported))

  public_keys :
      round C (at (central_showing C g h key) (responder_answered C g h key) 1 1)
      ≡ at (central_revealed C g h key) (responder_committed C g h key) 2 3
  unfolding to_responder to_central
  public_keys =
      rw
        (ResponderSteps.feed-public_key C (responder_answered C g h key) g.keypair.x g.keypair.y key
          refl p.central_x p.central_y p.responder_secret)
        (rw
          (Steps.feed-public_key C (central_showing C g h key) h.keypair.x h.keypair.y key refl
            p.responder_x p.responder_y p.distinct p.central_secret)
          (rw (
            Steps.feed_confirm C (central_agreed C g h key) (commitment C g h key) refl
              (length-f4 C p.mac_size _ _ _ _))))

  randoms_numeric :
      method_numeric (some (method C g h key)) ≡ true
      → round C (at (central_revealed C g h key) (responder_committed C g h key) 2 3)
        ≡ at (central_comparing C g h key) (responder_comparing C g h key) 3 4
  unfolding to_responder to_central
  randoms_numeric m =
      rw
        (ResponderSteps.feed_random_numeric C (responder_committed C g h key) g.random refl
          p.central_random m)
        (rw (Steps.feed_random C (central_revealed C g h key) h.random refl p.responder_random refl)
          (rw (Steps.derive_keys_numeric C (central_informed C g h key) m)))

  randoms_plain :
      method_numeric (some (method C g h key)) ≡ false
      → round C (at (central_revealed C g h key) (responder_committed C g h key) 2 3)
        ≡ at
            (Steps.checking C (Steps.keyed C (central_informed C g h key)))
            (responder_ready C g h key)
            3
            4
  unfolding to_responder to_central
  randoms_plain m =
      rw
        (ResponderSteps.feed_random_plain C (responder_committed C g h key) g.random refl
          p.central_random m)
        (rw (Steps.feed_random C (central_revealed C g h key) h.random refl p.responder_random refl)
          (rw (Steps.derive_keys_plain C (central_informed C g h key) m)
            (rw (Steps.send_dhkey_check_lem C (Steps.keyed C (central_informed C g h key))))))

  accept_numeric :
      accept C (at (central_comparing C g h key) (responder_comparing C g h key) 3 4)
      ≡ at
          (Steps.checking C (record (central_comparing C g h key) { user_accepted = some true }))
          (record (responder_comparing C g h key) { user_accepted = some true })
          3
          4
  unfolding accept
  accept_numeric = rw (Steps.user_confirm_accept C (central_comparing C g h key) refl) (
      rw (ResponderSteps.user_confirm_accept C (responder_comparing C g h key) refl refl) (
        rw (
          Steps.send_dhkey_check_lem C
            (record (central_comparing C g h key) { user_accepted = some true }))))

  accept_plain :
      accept C (
        at
          (Steps.checking C (Steps.keyed C (central_informed C g h key)))
          (responder_ready C g h key)
          3
          4)
      ≡ at
          (Steps.checking C (Steps.keyed C (central_informed C g h key)))
          (responder_ready C g h key)
          3
          4
  unfolding accept
  accept_plain = refl

  abbrev ready_central : Option ℕ → Option Bool → ℕ → Central
  ready_central v u st = record (Steps.keyed C (central_informed C g h key)) {
    numeric_value = v;
    user_accepted = u;
    state = st;
  }

  abbrev ready_responder : Option ℕ → Responder
  ready_responder v = record (ResponderSteps.keyed C (responder_committed C g h key) g.random) {
    numeric_value = v;
    user_accepted = some true;
  }

  abbrev central_keys : List ℕ × List ℕ
  central_keys =
      f5 C key g.random h.random (address_form g.local_address g.local_type)
        (address_form g.peer_address g.peer_type)

  abbrev responder_keys : List ℕ × List ℕ
  responder_keys =
      f5 C key g.random h.random (address_form h.peer_address h.peer_type)
        (address_form h.local_address h.local_type)

  same_keys : central_keys ≡ responder_keys
  same_keys = ap₂ (f5 C key g.random h.random) p.central_address p.responder_address

  -- The initiator's check, and the responder's, as each end computes them.
  abbrev central_value : List ℕ
  central_value =
      f6 C central_keys.0 g.random h.random (replicate 16 0) (slice (request_pdu C g h key) 1 4)
        (address_form g.local_address g.local_type) (address_form g.peer_address g.peer_type)

  abbrev responder_value : List ℕ
  responder_value =
      f6 C responder_keys.0 h.random g.random (replicate 16 0) (slice (response_pdu C g h key) 1 4)
        (address_form h.local_address h.local_type) (address_form h.peer_address h.peer_type)

  central_value_lem :
      central_value
      ≡ f6 C responder_keys.0 g.random h.random
          (replicate 16 0)
          (slice (request_pdu C g h key) 1 4)
          (address_form h.peer_address h.peer_type)
          (address_form h.local_address h.local_type)
  central_value_lem = cc (same_keys, p.central_address, p.responder_address)

  responder_value_lem :
      responder_value
      ≡ f6 C central_keys.0 h.random g.random
          (replicate 16 0)
          (slice (response_pdu C g h key) 1 4)
          (address_form g.peer_address g.peer_type)
          (address_form g.local_address g.local_type)
  responder_value_lem = cc (same_keys, p.central_address, p.responder_address)

  checks :
      (v : Option ℕ) (u : Option Bool) (st : ℕ)
      → round C (at (Steps.checking C (ready_central v u st)) (ready_responder v) 3 4)
        ≡ at
            (record (Steps.checking C (ready_central v u st)) { state = Central.complete })
            (record (Responder.emit
              (record (ready_responder v) { ea = some central_value })
              (Pdu.dhkey_check ∷ responder_value)) { state = Responder.complete })
            4
            5
  unfolding to_responder to_central
  checks v u st =
      rw
        (ResponderSteps.feed_dhkey_check C (ready_responder v) central_value refl
          (length-f6 C p.mac_size _ _ _ _ _ _ _) refl central_value_lem)
        (rw (
          Steps.feed_dhkey_check C (Steps.checking C (ready_central v u st)) responder_value refl
            (length-f6 C p.mac_size _ _ _ _ _ _ _) responder_value_lem))

  abbrev ended : Option ℕ → Option Bool → Session
  ended v u =
      at (record (Steps.checking C (ready_central v u 0)) { state = Central.complete })
        (record (Responder.emit (record (ready_responder v) { ea = some central_value })
          (Pdu.dhkey_check ∷ responder_value)) { state = Responder.complete })
        4 5

  to_randoms :
      pairing C g h
      ≡ round C
          (accept C (round C (at (central_revealed C g h key) (responder_committed C g h key) 2 3)))
  unfolding pairing
  to_randoms = rw begin_lem (rw features (rw public_keys))

  ends_numeric :
      method_numeric (some (method C g h key)) ≡ true
      → pairing C g h ≡ ended (some (number C g h key)) (some true)
  ends_numeric m =
      to_randoms
      ∙ ap (λ s. round C (accept C s)) (randoms_numeric m)
      ∙ ap (round C) accept_numeric
      ∙ checks (some (number C g h key)) (some true) Central.wait_user

  ends_plain : method_numeric (some (method C g h key)) ≡ false → pairing C g h ≡ ended none none
  ends_plain m =
      to_randoms
      ∙ ap (λ s. round C (accept C s)) (randoms_plain m)
      ∙ ap (round C) accept_plain
      ∙ checks none none Central.wait_random

-- Of an initiator and a responder that fit as `Peers` says, over a link that delivers every PDU and
-- with users who accept, both complete, with the same method, the same number on both displays and
-- the same key, which is f5 of the shared secret, the randoms and the addresses.
pub pairing_agrees :
    (C : Crypto) (g : Central.Config) (h : Responder.Config) (key : List ℕ)
    → Peers C g h key
    → ((pairing C g h).central.state ≡ Central.complete)
      × ((pairing C g h).responder.state ≡ Responder.complete)
      × ((pairing C g h).central.method ≡ (pairing C g h).responder.method)
      × ((pairing C g h).central.numeric_value ≡ (pairing C g h).responder.numeric_value)
      × ((pairing C g h).central.ltk ≡ (pairing C g h).responder.ltk)
      × ((pairing C g h).central.ltk
          ≡ some
              (f5 C key g.random h.random
                (address_form g.local_address g.local_type)
                (address_form g.peer_address g.peer_type)).1)
pairing_agrees C g h key p = elim (Bool-cases (method_numeric (some (method C g h key)))) [
  | inl m ↦ rw (ends_numeric p m) (refl, refl, refl, refl, ap (λ k. some k.1) (same_keys p), refl)
  | inr m ↦ rw (ends_plain p m) (refl, refl, refl, refl, ap (λ k. some k.1) (same_keys p), refl)
]
