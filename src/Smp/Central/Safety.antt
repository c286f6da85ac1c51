-- ===== src/Smp/Central/Safety.antt =====
-- What the initiator has checked when it derives a key and when it completes, whatever PDUs and
-- answers reach it.
use hci_controller.Base.{
  bytes_eq, get_elem?, replicate, slice, Result, ok, err, ℕ, ◌≤◌, ◌≡◌, Bool, true, false, ◌&&◌,
  Option, some, List, [], ◌∷◌, arith,
}
use hci_controller.Smp.Toolbox.{Crypto, f4, f5, f6, shared_secret, method_numeric, peer_failed}
use hci_controller.Smp.Central.{
  Central, wait_confirm, wait_user, wait_dhkey_check, complete, a1, a2, fail_quietly, start,
  on_response, on_public_key, on_confirm, on_random, on_dhkey_check, settle, feed, user_confirm,
}
use hci_controller.Smp.Central.Dispatch.{feed_cases}

-- From `low` to `complete`, so not in a pairing that failed.
abbrev pub Since : ℕ → Central → Type 0
Since low c = (low ≤ c.state) × (c.state ≤ complete)

module _ (C : Crypto) where
  pub record IsSafe (c : Central) : Type 0 where
    pub agreed : Since wait_confirm c → shared_secret C c.keypair c.peer_x c.peer_y ≡ some c.dhkey
    pub foreign :
        Since wait_confirm c
        → (bytes_eq c.peer_x c.keypair.x && bytes_eq c.peer_y c.keypair.y) ≡ false
    pub committed :
        Since wait_user c → bytes_eq (f4 C c.peer_x c.keypair.x c.nb (0 ∷ [])) c.confirm ≡ true
    pub derived :
        Since wait_user c
        → (c.mac_key ≡ (f5 C c.dhkey c.na c.nb (a1 c) (a2 c)).0)
          × (c.ltk ≡ some (f5 C c.dhkey c.na c.nb (a1 c) (a2 c)).1)
    pub accepted :
        Since wait_dhkey_check c → method_numeric c.method ≡ true → c.user_accepted ≡ some true
    pub expects :
        Since wait_dhkey_check c
        → c.dhkey_check ≡ f6 C c.mac_key c.nb c.na (replicate 16 0) (slice c.pres 1 4) (a2 c) (a1 c)

  on_confirm-IsSafe :
      (c : Central) (pdu : List ℕ) → IsSafe c → IsSafe (settle C c (some (on_confirm C c pdu)))
  unfolding on_confirm
  on_confirm-IsSafe c pdu h = record {
    agreed = ground (arith, h.agreed);
    foreign = ground (arith, h.foreign);
    committed = ground arith;
    derived = ground arith;
    accepted = ground arith;
    expects = ground arith;
  }

  on_response-IsSafe :
      (c : Central) (pdu : List ℕ) → IsSafe c → IsSafe (settle C c (some (on_response c pdu)))
  unfolding on_response
  on_response-IsSafe c pdu h = record {
    agreed = ground (arith, h.agreed);
    foreign = ground (arith, h.foreign);
    committed = ground arith;
    derived = ground arith;
    accepted = ground arith;
    expects = ground arith;
  }

  on_public_key-IsSafe :
      (c : Central) (pdu : List ℕ) → IsSafe c → IsSafe (settle C c (some (on_public_key C c pdu)))
  unfolding on_public_key
  on_public_key-IsSafe c pdu h = record {
    agreed = ground (arith, h.agreed);
    foreign = ground (arith, h.foreign);
    committed = ground arith;
    derived = ground arith;
    accepted = ground arith;
    expects = ground arith;
  }

  on_random-IsSafe :
      (c : Central) (pdu : List ℕ) → IsSafe c → IsSafe (settle C c (some (on_random C c pdu)))
  unfolding on_random
  on_random-IsSafe c pdu h = record {
    agreed = ground (arith, h.agreed);
    foreign = ground (arith, h.foreign);
    committed = ground arith;
    derived = ground arith;
    accepted = ground arith;
    expects = ground arith;
  }

  on_dhkey_check-IsSafe :
      (c : Central) (pdu : List ℕ) → IsSafe c → IsSafe (settle C c (some (on_dhkey_check C c pdu)))
  unfolding on_dhkey_check
  on_dhkey_check-IsSafe c pdu h = record {
    agreed = ground (arith, h.agreed);
    foreign = ground (arith, h.foreign);
    committed = ground (arith, h.committed);
    derived = ground (arith, h.derived);
    accepted = ground (arith, h.accepted);
    expects = ground (arith, h.expects);
  }

  fail_quietly-IsSafe :
      (c : Central) (reason : Option ℕ)
      → IsSafe (fail_quietly (record c { peer_failure = reason }) (peer_failed reason))
  fail_quietly-IsSafe c reason = record {
    agreed = ground arith;
    foreign = ground arith;
    committed = ground arith;
    derived = ground arith;
    accepted = ground arith;
    expects = ground arith;
  }

  pub feed-IsSafe : (c : Central) (pdu : List ℕ) → IsSafe c → IsSafe (feed C c pdu)
  feed-IsSafe c [] h = unfold feed in h
  feed-IsSafe c (code ∷ rest) h =
      feed_cases C c code rest (IsSafe) h (fail_quietly-IsSafe c (get_elem? (code ∷ rest) 1))
        (on_response-IsSafe c (code ∷ rest) h) (on_public_key-IsSafe c (code ∷ rest) h)
        (on_confirm-IsSafe c (code ∷ rest) h) (on_random-IsSafe c (code ∷ rest) h)
        (λ _. on_dhkey_check-IsSafe c (code ∷ rest) h)

  -- `start` and `user_confirm`; a call that raises changes nothing.
  abbrev pub kept : Central → Result Central → Central
  kept c (ok c') = c'
  kept c (err e) = c

  pub start-IsSafe : (c : Central) → IsSafe c → IsSafe (kept c (start c))
  unfolding start
  start-IsSafe c h = record {
    agreed = ground (arith, h.agreed);
    foreign = ground (arith, h.foreign);
    committed = ground (arith, h.committed);
    derived = ground (arith, h.derived);
    accepted = ground (arith, h.accepted);
    expects = ground (arith, h.expects);
  }

  pub user_confirm-IsSafe :
      (c : Central) (b : Bool) → IsSafe c → IsSafe (kept c (user_confirm C c b))
  unfolding user_confirm
  user_confirm-IsSafe c b h = record {
    agreed = ground (arith, h.agreed);
    foreign = ground (arith, h.foreign);
    committed = ground (arith, h.committed);
    derived = ground (arith, h.derived);
    accepted = ground (arith, h.accepted);
    expects = ground (arith, h.expects);
  }
