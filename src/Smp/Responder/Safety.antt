-- ===== src/Smp/Responder/Safety.antt =====
-- What the responder has checked when it completes, whatever PDUs and answers reach it.
use hci_controller.Base.{
  bytes_eq, get_elem?, replicate, slice, Result, ok, err, ℕ, ◌≤◌, ◌≡◌, ◌≢◌, Bool, true, false, ◌||◌,
  Option, none, some, List, [], ◌∷◌, arith,
}
use hci_controller.Smp.Toolbox.{Crypto, f5, f6, shared_secret, method_numeric, peer_failed}
use hci_controller.Smp.Responder.{
  Responder, wait_random, wait_user_or_check, complete, a1, a2, fail_quietly, settle, on_request,
  on_public_key, on_random, on_dhkey_check, feed, user_confirm,
}
use hci_controller.Smp.Responder.Dispatch.{feed_cases}

abbrev pub Since : ℕ → Responder → Type 0
Since low r = (low ≤ r.state) × (r.state ≤ complete)

module _ (C : Crypto) where
  -- The initiator's check has arrived and is f6 of what the responder knows.
  abbrev pub checked : Responder → Bool
  checked r = elim r.ea [
    | none ↦ false
    | some ea ↦
        bytes_eq (f6 C r.mac_key r.na r.nb (replicate 16 0) (slice r.preq 1 4) (a1 r) (a2 r)) ea
  ]

  -- `asked` says whether the user has accepted a comparison so far.
  pub record IsSafe (asked : Bool) (r : Responder) : Type 0 where
    pub agreed : Since wait_random r → shared_secret C r.keypair r.peer_x r.peer_y ≡ some r.dhkey
    pub derived :
        Since wait_user_or_check r
        → (r.mac_key ≡ (f5 C r.dhkey r.na r.nb (a1 r) (a2 r)).0)
          × (r.ltk ≡ some (f5 C r.dhkey r.na r.nb (a1 r) (a2 r)).1)
    pub verified : r.state ≡ complete → checked r ≡ true
    pub unasked : r.state ≤ wait_random → r.user_accepted ≡ none
    pub permitted :
        Since wait_user_or_check r
        → method_numeric r.method ≡ true
        → asked ≡ false
        → r.user_accepted ≢ some true
    pub accepted : r.state ≡ complete → r.user_accepted ≡ some true

  on_request-IsSafe :
      (b : Bool) (r : Responder) (pdu : List ℕ)
      → IsSafe b r
      → IsSafe b (settle C r (some (on_request r pdu)))
  unfolding on_request
  on_request-IsSafe b r pdu h = record {
    agreed = ground (arith, h.agreed);
    derived = ground (arith, h.derived);
    verified = ground (arith, h.verified);
    unasked = ground (arith, h.unasked);
    permitted = ground (arith, h.permitted);
    accepted = ground (arith, h.accepted);
  }

  on_public_key-IsSafe :
      (b : Bool) (r : Responder) (pdu : List ℕ)
      → IsSafe b r
      → IsSafe b (settle C r (some (on_public_key C r pdu)))
  unfolding on_public_key
  on_public_key-IsSafe b r pdu h = record {
    agreed = ground (arith, h.agreed);
    derived = ground (arith, h.derived);
    verified = ground (arith, h.verified);
    unasked = ground (arith, h.unasked);
    permitted = ground (arith, h.permitted);
    accepted = ground (arith, h.accepted);
  }

  on_random-IsSafe :
      (b : Bool) (r : Responder) (pdu : List ℕ)
      → IsSafe b r
      → IsSafe b (settle C r (some (on_random C r pdu)))
  unfolding on_random
  on_random-IsSafe b r pdu h = record {
    agreed = ground (arith, h.agreed);
    derived = ground (arith, h.derived);
    verified = ground (arith, h.verified);
    unasked = ground (arith, h.unasked);
    permitted = ground (arith, h.permitted, h.unasked);
    accepted = ground (arith, h.accepted);
  }

  on_dhkey_check-IsSafe :
      (b : Bool) (r : Responder) (pdu : List ℕ)
      → IsSafe b r
      → IsSafe b (settle C r (some (on_dhkey_check C r pdu)))
  unfolding on_dhkey_check
  on_dhkey_check-IsSafe b r pdu h = record {
    agreed = ground (arith, h.agreed);
    derived = ground (arith, h.derived);
    verified = ground (arith, h.verified);
    unasked = ground (arith, h.unasked);
    permitted = ground (arith, h.permitted);
    accepted = ground (arith, h.accepted);
  }

  fail_quietly-IsSafe :
      (b : Bool) (r : Responder) (reason : Option ℕ)
      → IsSafe b (fail_quietly (record r { peer_failure = reason }) (peer_failed reason))
  fail_quietly-IsSafe b r reason = record {
    agreed = ground arith;
    derived = ground arith;
    verified = ground arith;
    unasked = ground arith;
    permitted = ground arith;
    accepted = ground arith;
  }

  pub feed-IsSafe : (b : Bool) (r : Responder) (pdu : List ℕ) → IsSafe b r → IsSafe b (feed C r pdu)
  feed-IsSafe b r [] h = unfold feed in h
  feed-IsSafe b r (code ∷ rest) h =
      feed_cases C r code rest (IsSafe b) h (fail_quietly-IsSafe b r (get_elem? (code ∷ rest) 1))
        (on_request-IsSafe b r (code ∷ rest) h) (on_public_key-IsSafe b r (code ∷ rest) h)
        (on_random-IsSafe b r (code ∷ rest) h) (on_dhkey_check-IsSafe b r (code ∷ rest) h)

  -- A call that raises changes nothing.
  abbrev pub kept : Responder → Result Responder → Responder
  kept r (ok r') = r'
  kept r (err e) = r

  pub user_confirm-IsSafe :
      (b a : Bool) (r : Responder) → IsSafe b r → IsSafe (b || a) (kept r (user_confirm C r a))
  unfolding user_confirm
  user_confirm-IsSafe b a r h = record {
    agreed = ground (arith, h.agreed);
    derived = ground (arith, h.derived);
    verified = ground (arith, h.verified);
    unasked = ground (arith, h.unasked);
    permitted = ground (arith, h.permitted);
    accepted = ground (arith, h.accepted);
  }
