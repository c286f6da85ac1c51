-- ===== src/Smp/Responder/Outcome.antt =====
-- Whole runs of the responder, and what a completed one has established.
use hci_controller.Base.{
  Bool-cases, Option-cases, bytes_eq, bytes_eq→eq, replicate, slice, ℕ, ◌≡◌, refl, sym, ap, subst,
  ◌∙◌, inl, inr, Bool, true, false, ◌||◌, Option, none, some, List, [], ◌∷◌, arith,
}
use hci_controller.Smp.Toolbox.{Crypto, f5, f6, shared_secret, method_numeric}
use hci_controller.Smp.Responder.{Responder, Config, init, complete, a1, a2, feed, user_confirm}
use hci_controller.Smp.Responder.Safety.{IsSafe, checked, kept, feed-IsSafe, user_confirm-IsSafe}

-- What can happen to the responder: a PDU, or the user's answer.
pub data Input : Type 0 where
  receive : List ℕ → Input
  answer : Bool → Input

-- The user has accepted a comparison at some point.
abbrev pub accepts : List Input → Bool
accepts [] = false
accepts (receive pdu ∷ is) = accepts is
accepts (answer a ∷ is) = a || accepts is

module _ (C : Crypto) where
  unfoldable pub advance : Responder → Input → Responder
  advance r (receive pdu) = feed C r pdu
  advance r (answer a) = kept C r (user_confirm C r a)

  unfoldable pub run : Responder → List Input → Responder
  run r [] = r
  run r (i ∷ is) = run (advance r i) is

  or_assoc : (a b c : Bool) → ((a || b) || c) ≡ (a || (b || c))
  or_assoc true b c = refl
  or_assoc false b c = refl

  or_false : (a : Bool) → (a || false) ≡ a
  or_false true = refl
  or_false false = refl

  run-IsSafe :
      (b : Bool) (r : Responder) (is : List Input)
      → IsSafe C b r
      → IsSafe C (b || accepts is) (run r is)
  unfolding run advance
  run-IsSafe b r [] h = rw (or_false b) h
  run-IsSafe b r (receive pdu ∷ is) h = run-IsSafe b (feed C r pdu) is (feed-IsSafe C b r pdu h)
  run-IsSafe b r (answer a ∷ is) h =
      rw (← or_assoc b a (accepts is))
        (run-IsSafe (b || a) (kept C r (user_confirm C r a)) is (user_confirm-IsSafe C b a r h))

  init-IsSafe : (g : Config) → IsSafe C false (init g)
  init-IsSafe g = record {
    agreed = ground arith;
    derived = ground arith;
    verified = ground arith;
    unasked = ground arith;
    permitted = ground arith;
    accepted = ground arith;
  }

  checked_lem :
      (r : Responder)
      → checked C r ≡ true
      → r.ea ≡ some (f6 C r.mac_key r.na r.nb (replicate 16 0) (slice r.preq 1 4) (a1 r) (a2 r))
  checked_lem r e = elim (Option-cases r.ea) [
    | inl absent ↦ cc (subst (λ o. shown r o ≡ true) absent e)
    | inr (ea, there) ↦
        there ∙ ap some (sym (bytes_eq→eq _ ea (subst (λ o. shown r o ≡ true) there e)))
  ]
    where
      shown : Responder → Option (List ℕ) → Bool
      shown r none = false
      shown r (some ea) =
          bytes_eq (f6 C r.mac_key r.na r.nb (replicate 16 0) (slice r.preq 1 4) (a1 r) (a2 r)) ea

  -- Whatever calls and PDUs have reached a new responder, when it has completed, its secret is that of
  -- its key and the peer's point, its key is f5 of the secret, the randoms and the addresses, it has
  -- received the DHKey Check that it computes for the initiator, and where the method is Numeric
  -- Comparison, a user has accepted.
  pub responder_complete :
      (g : Config) (is : List Input)
      → (run (init g) is).state ≡ complete
      → let r = run (init g) is in
        (shared_secret C r.keypair r.peer_x r.peer_y ≡ some r.dhkey)
        × (r.ltk ≡ some (f5 C r.dhkey r.na r.nb (a1 r) (a2 r)).1)
        × (r.ea ≡ some (f6 C r.mac_key r.na r.nb (replicate 16 0) (slice r.preq 1 4) (a1 r) (a2 r)))
        × (method_numeric r.method ≡ true → accepts is ≡ true)
  responder_complete g is e =
      let r = run (init g) is in
      let safe = run-IsSafe false (init g) is (init-IsSafe g) in
      (
        safe.agreed (omega arith, omega arith),
        (safe.derived (omega arith, omega arith)).1,
        checked_lem r (safe.verified e),
        λ m. elim (Bool-cases (accepts is)) [
          | inl said ↦ said
          | inr silent ↦
              absurd (safe.permitted (omega arith, omega arith) m silent (safe.accepted e))
        ],
      )
