-- ===== src/Smp/Central/Outcome.antt =====
-- Whole runs of the initiator: what its inputs are, and how a run can end.
use hci_controller.Base.{
  bytes_eq→eq, bytes_ne, take, replicate, slice, ℕ, ◌≤◌, ◌≡◌, refl, ◌≢◌, inl, inr, Bool, true, some,
  List, [], ◌∷◌, arith,
}
use hci_controller.Smp.Toolbox.{Crypto, f4, f5, f6, shared_secret, method_numeric}
use hci_controller.Smp.Pdu
use hci_controller.Smp.Central.{
  Central, Config, init, wait_user, wait_dhkey_check, complete, failed, a1, a2, is_done, start,
  feed, user_confirm,
}
use hci_controller.Smp.Central.Moves.{start-Moves, feed-Moves, user_confirm-Moves}
use hci_controller.Smp.Central.Safety.{IsSafe, kept, start-IsSafe, feed-IsSafe, user_confirm-IsSafe}

-- What can happen to a pairing: `start`, a PDU from the peer, and the user's answer.
pub data Input : Type 0 where
  begin : Input
  receive : List ℕ → Input
  answer : Bool → Input

module _ (C : Crypto) where
  -- A call that raises leaves the object as it was.
  unfoldable pub advance : Central → Input → Central
  advance c begin = kept C c (start c)
  advance c (receive pdu) = feed C c pdu
  advance c (answer b) = kept C c (user_confirm C c b)

  unfoldable pub run : Central → List Input → Central
  run c [] = c
  run c (i ∷ is) = run (advance c i) is

  advance-IsSafe : (c : Central) (i : Input) → IsSafe C c → IsSafe C (advance c i)
  unfolding advance
  advance-IsSafe c begin h = start-IsSafe C c h
  advance-IsSafe c (receive pdu) h = feed-IsSafe C c pdu h
  advance-IsSafe c (answer b) h = user_confirm-IsSafe C c b h

  run-IsSafe : (c : Central) (is : List Input) → IsSafe C c → IsSafe C (run c is)
  unfolding run
  run-IsSafe c [] h = h
  run-IsSafe c (i ∷ is) h = run-IsSafe (advance c i) is (advance-IsSafe c i h)

  init-IsSafe : (g : Config) → IsSafe C (init g)
  init-IsSafe g = record {
    agreed = ground arith;
    foreign = ground arith;
    committed = ground arith;
    derived = ground arith;
    accepted = ground arith;
    expects = ground arith;
  }

  -- Whatever calls and PDUs have reached a new initiator, when it waits for its user or is past that
  -- point and has not failed, its secret is that of its key and the peer's point, the point is not its
  -- own, the peer's random fits the value that the peer had committed to, and the key is f5 of the
  -- secret, the randoms and the addresses.
  pub keys_are_checked :
      (g : Config) (is : List Input)
      → wait_user ≤ (run (init g) is).state
      → (run (init g) is).state ≤ complete
      → let c = run (init g) is in
        (shared_secret C c.keypair c.peer_x c.peer_y ≡ some c.dhkey)
        × (¬ ((c.peer_x ≡ c.keypair.x) × (c.peer_y ≡ c.keypair.y)))
        × (f4 C c.peer_x c.keypair.x c.nb (0 ∷ []) ≡ c.confirm)
        × (c.ltk ≡ some (f5 C c.dhkey c.na c.nb (a1 c) (a2 c)).1)
  keys_are_checked g is lo hi =
      let c = run (init g) is in
      let safe = run-IsSafe (init g) is (init-IsSafe g) in
      (
        safe.agreed (omega arith, hi),
        bytes_ne c.peer_x c.keypair.x c.peer_y c.keypair.y (safe.foreign (omega arith, hi)),
        bytes_eq→eq _ _ (safe.committed (lo, hi)),
        (safe.derived (lo, hi)).1,
      )

  -- The input by which an initiator completes is a DHKey Check of the peer that arrives while it is
  -- waited for and has the value that the initiator has computed for it.
  pub completes_by_check :
      (c : Central) (i : Input)
      → c.state ≢ complete
      → (advance c i).state ≡ complete
      → (pdu : List ℕ) × (i ≡ receive (Pdu.dhkey_check ∷ pdu))
        × (c.state ≡ wait_dhkey_check)
        × (take 16 pdu ≡ c.dhkey_check)
  unfolding advance
  completes_by_check c begin ne e = absurd (ground (arith, start-Moves C c))
  completes_by_check c (answer b) ne e = absurd (ground (arith, user_confirm-Moves C c b))
  completes_by_check c (receive []) ne e = absurd (ne (unfold feed in e))
  completes_by_check c (receive (code ∷ rest)) ne e = elim (feed-Moves C c code rest) [
    | inl same ↦ absurd (ne (rw same at e))
    | inr (inl over) ↦ absurd (omega arith)
    | inr (inr (inl later)) ↦ absurd (omega arith)
    | inr (inr (inr (known, waited, right, done))) ↦ (rest, rw known, waited, right)
  ]

  -- Whatever calls and PDUs have reached a new initiator, when it has completed, its user has
  -- accepted if the method is Numeric Comparison, and the check that it expects of the peer is f6 of
  -- the keys, the randoms and the peer's own features.
  pub complete_is_accepted :
      (g : Config) (is : List Input)
      → (run (init g) is).state ≡ complete
      → let c = run (init g) is in
        (method_numeric c.method ≡ true → c.user_accepted ≡ some true)
        × (c.dhkey_check
            ≡ f6 C c.mac_key c.nb c.na (replicate 16 0) (slice c.pres 1 4) (a2 c) (a1 c))
  complete_is_accepted g is e =
      let safe = run-IsSafe (init g) is (init-IsSafe g) in
      (safe.accepted (omega arith, omega arith), safe.expects (omega arith, omega arith))

  start-done : (c : Central) → is_done c ≡ true → kept C c (start c) ≡ c
  unfolding start
  start-done c e = ground arith

  feed-done : (c : Central) (pdu : List ℕ) → is_done c ≡ true → feed C c pdu ≡ c
  unfolding feed
  feed-done c [] e = refl
  feed-done c (code ∷ rest) e = rw e

  user_confirm-done :
      (c : Central) (b : Bool) → is_done c ≡ true → kept C c (user_confirm C c b) ≡ c
  unfolding user_confirm
  user_confirm-done c b e = ground arith

  -- Once an initiator has completed or failed, no calls and no PDUs change it.
  pub run-done : (c : Central) (is : List Input) → is_done c ≡ true → run c is ≡ c
  unfolding run advance
  run-done c [] e = refl
  run-done c (begin ∷ is) e = rw (start-done c e) (run-done c is e)
  run-done c (receive pdu ∷ is) e = rw (feed-done c pdu e) (run-done c is e)
  run-done c (answer b ∷ is) e = rw (user_confirm-done c b e) (run-done c is e)

  -- No call and no PDU takes an initiator whose state is one of the source's back to an earlier one.
  advance_grows : (c : Central) (i : Input) → c.state ≤ failed → c.state ≤ (advance c i).state
  unfolding advance
  advance_grows c begin h = ground (arith, start-Moves C c)
  advance_grows c (answer b) h = ground (arith, user_confirm-Moves C c b)
  advance_grows c (receive []) h = unfold feed in omega arith
  advance_grows c (receive (code ∷ rest)) h = ground (arith, feed-Moves C c code rest)
