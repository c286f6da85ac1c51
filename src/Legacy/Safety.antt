-- ===== src/Legacy/Safety.antt =====
-- When a short term key is derived.
use hci_controller.Base.{
  ltb, leb, ◌==◌, if◌then◌else◌, Bool-cases, bytes_eq, bytes_eq→eq, length, take, slice,
  Result-cases, ok, ℕ, zero, suc, ◌≡◌, refl, ap, ◌∙◌, inl, inr, Bool, true, false, not, ◌&&◌,
  Option, none, some, List, [], ◌∷◌, ◌++◌, arith,
}
use hci_controller.Script.{Script, Ran, ◌>>=◌, pure}
use hci_controller.Legacy.{
  Link, Peripheral, feed, send, encrypt, random_from, random16, on_request, on_failed, on_confirm,
  take_confirm, answer_confirm, on_random, check_random, refuse, c1, cid_smp, pairing_request,
  pairing_confirm, pairing_random, pairing_failed,
}

module _ {W : Type 0} where
  -- A method that leaves the key as it is, whether it raises or not.
  abbrev pub Keeps : {A : Type 0} → Script (Peripheral W) A → Type 0
  Keeps m = (p : Peripheral W) → (m p).state.stk ≡ p.stk

  >>=-Keeps :
      {A B : Type 0} (m : Script (Peripheral W) A) (f : A → Script (Peripheral W) B)
      → Keeps m
      → ((a : A) → Keeps (f a))
      → Keeps (m >>= f)
  unfolding ◌>>=◌
  >>=-Keeps m f hm hf p = elim (Result-cases (m p).result) [
    | inl (x, e) ↦ rw (◌>>=◌, e) (hm p)
    | inr (a, e) ↦ rw (◌>>=◌, e) (hf a (m p).state ∙ hm p)
  ]

  if-Keeps :
      {A : Type 0} (b : Bool) (m n : Script (Peripheral W) A)
      → Keeps m
      → Keeps n
      → Keeps (if b then m else n)
  if-Keeps true m n hm hn = hm
  if-Keeps false m n hm hn = hn

module _ {W : Type 0} (L : Link W) where
  send-Keeps : (payload : List ℕ) → Keeps (send L payload)
  unfolding send
  send-Keeps payload p = refl

  encrypt-Keeps : (key plaintext : List ℕ) → Keeps (encrypt L key plaintext)
  unfolding encrypt
  encrypt-Keeps key plaintext = >>=-Keeps _ _ (λ p. refl) (λ a p. refl)

  c1-Keeps : (key rand : List ℕ) → Keeps (c1 L key rand)
  unfolding c1
  c1-Keeps key rand =
      >>=-Keeps _ _ (λ p. refl)
        (λ p. >>=-Keeps _ _ (encrypt-Keeps key _) (λ a. encrypt-Keeps key _))

  random_from-Keeps : (n : ℕ) (out : List ℕ) → Keeps (random_from L n out)
  unfolding random_from
  random_from-Keeps zero out = if-Keeps (not (ltb (length out) 16)) _ _ (λ p. refl) (λ p. refl)
  random_from-Keeps (suc n) out =
      if-Keeps (not (ltb (length out) 16)) _ _ (λ p. refl)
        (>>=-Keeps _ _ (λ p. refl) (λ a. random_from-Keeps n (out ++ take 8 a.1)))

  answer_confirm-Keeps : (own : List ℕ) → Keeps (answer_confirm L own)
  unfolding answer_confirm
  answer_confirm-Keeps own =
      >>=-Keeps _ _ (λ p. refl)
        (λ u.
          >>=-Keeps _ _ (λ p. refl)
            (λ p.
              >>=-Keeps _ _ (c1-Keeps p.tk own) (λ a. >>=-Keeps _ _ (send-Keeps _) (λ u p. refl))))

  on_request-Keeps : (payload : List ℕ) → Keeps (on_request L payload)
  unfolding on_request
  on_request-Keeps payload =
      >>=-Keeps _ _ (λ p. refl)
        (λ u. >>=-Keeps _ _ (λ p. refl) (λ p. >>=-Keeps _ _ (send-Keeps _) (λ u p. refl)))

  take_confirm-Keeps : (rounds : ℕ) (payload : List ℕ) → Keeps (take_confirm L rounds payload)
  unfolding take_confirm random16
  take_confirm-Keeps rounds payload =
      >>=-Keeps _ _ (λ p. refl)
        (λ u. >>=-Keeps _ _ (random_from-Keeps rounds []) (λ own. answered own))
    where
      answered :
          (own : Option (List ℕ)) (p : Peripheral W)
          → let m : Script (Peripheral W) Bool = elim own [
            | none ↦ pure false
            | some r ↦ answer_confirm L r
          ] in
            (m p).state.stk ≡ p.stk
      answered none p = refl
      answered (some r) p = answer_confirm-Keeps r p

  on_confirm-Keeps : (rounds : ℕ) (payload : List ℕ) → Keeps (on_confirm L rounds payload)
  unfolding on_confirm
  on_confirm-Keeps rounds payload p = by_request p.preq
    where
      by_request :
          (q : Option (List ℕ))
          → let o : Ran (Peripheral W) Bool = elim q [
            | none ↦ pure true p
            | some preq ↦ take_confirm L rounds payload p
          ] in
            o.state.stk ≡ p.stk
      by_request none = refl
      by_request (some preq) = take_confirm-Keeps rounds payload p

  refuse-Keeps : Keeps (refuse L)
  unfolding refuse
  refuse-Keeps = >>=-Keeps _ _ (λ p. refl) (λ u. >>=-Keeps _ _ (send-Keeps _) (λ u p. refl))

  on_failed-Keeps : (payload : List ℕ) → Keeps (on_failed L payload)
  unfolding on_failed
  on_failed-Keeps payload = >>=-Keeps _ _ (λ p. refl) (λ u p. refl)

  -- What a derived key rests on.
  abbrev pub IsChecked : Peripheral W → List ℕ → Type 0
  IsChecked p peer =
      (own : List ℕ) × (p.own_random ≡ some own)
      × ((c1 L p.tk peer (record p { peer_random = peer })).result ≡ ok p.peer_confirm)

  check_random_checked :
      (own peer key : List ℕ) (p : Peripheral W)
      → p.stk ≡ none
      → (check_random L own peer p).state.stk ≡ some key
      → (c1 L p.tk peer (record p { peer_random = peer })).result ≡ ok p.peer_confirm
  unfolding check_random ◌>>=◌
  check_random_checked own peer key p fresh h =
      let p1 : Peripheral W = record p { peer_random = peer } in
      let kept = c1-Keeps p.tk peer p1 in
      elim (Result-cases (c1 L p.tk peer p1).result) [
        | inl (x, e) ↦
            let stays : (check_random L own peer p).state.stk ≡ p.stk =
              rw (check_random, ◌>>=◌, e) kept in
            absurd (cc (fresh, stays, h))
        | inr (confirm, e) ↦ elim (Bool-cases (bytes_eq confirm p.peer_confirm)) [
          | inl f ↦ e ∙ ap ok (bytes_eq→eq confirm p.peer_confirm f)
          | inr f ↦
              let stays : (check_random L own peer p).state.stk ≡ p.stk =
                rw (check_random, ◌>>=◌, e, f) (refuse-Keeps (c1 L p.tk peer p1).state ∙ kept) in
              absurd (cc (fresh, stays, h))
        ]
      ]

  on_random-IsChecked :
      (payload key : List ℕ) (p : Peripheral W)
      → p.stk ≡ none
      → (on_random L payload p).state.stk ≡ some key
      → IsChecked p (slice payload 1 17)
  unfolding on_random
  on_random-IsChecked payload key p fresh = by_own p.own_random refl
    where
      by_own :
          (o : Option (List ℕ))
          → p.own_random ≡ o
          → let r : Ran (Peripheral W) Bool = elim o [
            | none ↦ pure true p
            | some own ↦ check_random L own (slice payload 1 17) p
          ] in
            r.state.stk ≡ some key → IsChecked p (slice payload 1 17)
      by_own none e h = absurd (cc (fresh, h))
      by_own (some own) e h = (own, e, check_random_checked own (slice payload 1 17) key p fresh h)

  module _ (p : Peripheral W) (fresh : p.stk ≡ none) (key : List ℕ) where
    kept_only :
        {G : Type 0} (m : Script (Peripheral W) Bool) → Keeps m → (m p).state.stk ≡ some key → G
    kept_only m keeps h = let same = keeps p in absurd (cc (same, fresh, h))

    choice :
        {G : Type 0} (b : Bool) (m n : Script (Peripheral W) Bool)
        → (b ≡ true → (m p).state.stk ≡ some key → G)
        → ((n p).state.stk ≡ some key → G)
        → ((if b then m else n) p).state.stk ≡ some key
        → G
    choice true m n hm hn = hm refl
    choice false m n hm hn = hn

  -- From an object that has no short term key, a call of `feed` that leaves one has been given a
  -- Pairing Random after this side has drawn its own random, and the confirm value that the
  -- controller has computed for the peer's random is the one that the peer sent before.
  pub stk-IsChecked :
      (rounds cid : ℕ) (payload key : List ℕ) (p : Peripheral W)
      → p.stk ≡ none
      → (feed L rounds payload cid p).state.stk ≡ some key
      → (rest : List ℕ) × (payload ≡ pairing_random ∷ rest) × IsChecked p (slice payload 1 17)
  unfolding feed
  stk-IsChecked rounds cid [] key p fresh = λ h. absurd (cc (fresh, h))
  stk-IsChecked rounds cid (code ∷ rest) key p fresh =
      let payload = code ∷ rest in
      let skip : (m : Script (Peripheral W) Bool)
          → Keeps m
          → (m p).state.stk ≡ some key
          → (r : List ℕ) × (payload ≡ pairing_random ∷ r) × IsChecked p (slice payload 1 17) =
        kept_only p fresh key in
      choice p fresh key (not (cid == cid_smp)) _ _ (λ b. skip (pure true) (λ q. refl))
        (choice p fresh key ((code == pairing_request) && leb 7 (length payload)) _ _
          (λ b. skip (on_request L payload) (on_request-Keeps payload))
          (choice p fresh key ((code == pairing_confirm) && leb 17 (length payload)) _ _
            (λ b. skip (on_confirm L rounds payload) (on_confirm-Keeps rounds payload))
            (choice p fresh key ((code == pairing_random) && leb 17 (length payload)) _ _
              (λ b h.
                (rest, ap (λ c. c ∷ rest) (is_code b), on_random-IsChecked payload key p fresh h))
              (choice p fresh key ((code == pairing_failed) && leb 2 (length payload)) _ _
                (λ b. skip (on_failed L payload) (on_failed-Keeps payload))
                (skip (pure true) (λ q. refl))))))
    where
      is_code :
          ((code == pairing_random) && leb 17 (length (code ∷ rest))) ≡ true → code ≡ pairing_random
      is_code b = ground arith
