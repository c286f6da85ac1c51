-- ===== src/Legacy/Agreement.antt =====
-- A pairing with an initiator that follows the specification.
use hci_controller.Base.{
  leb, if◌then◌else◌, lt→ltb, le→ltb, le→leb, bytes_eq, bytes_eq_refl, length, take, replicate,
  slice, length-append, take_of_le, length-reverse, ok, ℕ, zero, suc, ◌<◌, ◌≡◌, refl, sym, ap, ap₂,
  ◌∙◌, Bool, true, not, none, some, List, [], ◌∷◌, ◌++◌, arith,
}
use mathlib.Core.List.{reverse}
use hci_controller.Script.{Ran, >>=-ok, pure}
use hci_controller.Legacy.{
  Link, Peripheral, init, feed, send, random_from, random16, on_request, xor16, on_confirm,
  take_confirm, refuse, answer_confirm, on_random, check_random, derive, c1, cid_smp, op_le_rand,
  pairing_request, pairing_confirm, pairing_random, pairing_response, io_no_input_no_output,
  max_key_size,
}
use hci_controller.Legacy.Reference.{Works, c1_value, s1_value, returns, c1_works, s1_works}

-- The Pairing Response of the code, and the temporary key of Just Works.
abbrev pub response : List ℕ
response = pairing_response ∷ io_no_input_no_output ∷ 0 ∷ 0 ∷ max_key_size ∷ 0 ∷ 0 ∷ []

abbrev pub zero_key : List ℕ
zero_key = replicate 16 0

module _ (e : List ℕ → List ℕ → List ℕ) where
  -- The confirm value of a random, as the initiator computes it.
  abbrev pub confirm_value : {W : Type 0} → Peripheral W → List ℕ → List ℕ → List ℕ
  confirm_value p preq rand = reverse (
      c1_value e zero_key (reverse rand) (reverse preq) (reverse response) p.iat p.rat
        (reverse p.ia) (reverse p.ra))

module _ {W : Type 0} (L : Link W) (e : List ℕ → List ℕ → List ℕ) (hci : W) (conn lt pt : ℕ)
    (local_addr peer_addr params mrand : List ℕ) (n : ℕ) where
  abbrev pub start : Peripheral W
  start = init hci conn local_addr lt peer_addr pt

  abbrev pub request_pdu : List ℕ
  request_pdu = pairing_request ∷ params

  abbrev pub feed_on : List ℕ → Peripheral W → Ran (Peripheral W) Bool
  feed_on payload p = feed L (suc (suc n)) payload cid_smp p

  abbrev pub first : Ran (Peripheral W) Bool
  first = feed_on request_pdu start

  abbrev pub second : Ran (Peripheral W) Bool
  second = feed_on (pairing_confirm ∷ confirm_value e start request_pdu mrand) first.state

  abbrev pub third : Ran (Peripheral W) Bool
  third = feed_on (pairing_random ∷ mrand) second.state

  -- The three PDUs of the initiator are taken, what is sent is the Pairing Response, the confirm value of
  -- the random that follows it, computed as the specification computes c1, and that random; and the
  -- short term key is s1 of the two randoms.
  abbrev pub Served : Type 0
  Served =
      (srand : List ℕ) × (length srand ≡ 16)
      × (first.result ≡ ok true)
      × (second.result ≡ ok true)
      × (third.result ≡ ok true)
      × (third.state.sent
          ≡ response
            ∷ (pairing_confirm ∷ confirm_value e start request_pdu srand)
            ∷ (pairing_random ∷ srand)
            ∷ [])
      × (third.state.stk ≡ some (reverse (s1_value e zero_key (reverse srand) (reverse mrand))))
      × (third.state.failed ≡ none)

module _ {W : Type 0} (L : Link W) (e : List ℕ → List ℕ → List ℕ) (works : Works L e) where
  send_works :
      (payload : List ℕ) (p : Peripheral W)
      → p.conn < 65536
      → length payload < 256
      → (h : W) × (send L payload p ≡ record {
        result = ok tt;
        state = record p { hci = h; sent = p.sent ++ (payload ∷ []) };
      })
  unfolding send
  send_works payload p hc hl =
      returns L e works (L.send_acl p.conn cid_smp payload)
        (record p { sent = p.sent ++ (payload ∷ []) })
        (works.sends p.conn cid_smp payload p.hci hc (omega arith) (omega (arith, hl)))

  random_from_round :
      (n : ℕ) (out : List ℕ) (p : Peripheral W)
      → length out < 16
      → (h : W) × (r : List ℕ) × (length r ≡ 8)
        × (random_from L (suc n) out p ≡ random_from L n (out ++ r) (record p { hci = h }))
  unfolding random_from
  random_from_round n out p lt =
      let (r, got, len) = works.brings p.hci in
      let (h, first) = returns L e works (L.command op_le_rand []) p got in
      let cut : take 8 r ≡ r = take_of_le 8 r (omega (arith, len)) in
      (
        h,
        r,
        len,
        rw (random_from, lt→ltb (length out) 16 lt)
            (>>=-ok _ _ first ∙ ap (λ t. random_from L n (out ++ t) (record p { hci = h })) cut),
      )

  random_from_enough :
      (n : ℕ) (out : List ℕ) (p : Peripheral W)
      → length out ≡ 16
      → random_from L n out p ≡ record { result = ok (some out); state = p }
  unfolding random_from
  random_from_enough zero out p len =
      rw (random_from, le→ltb (length out) 16 (omega (arith, len)))
        (ap (λ t. record { result = ok (some t); state = p })
          (take_of_le 16 out (omega (arith, len))))
  random_from_enough (suc n) out p len =
      rw (random_from, le→ltb (length out) 16 (omega (arith, len)))
        (ap (λ t. record { result = ok (some t); state = p })
          (take_of_le 16 out (omega (arith, len))))

  random16_works :
      (n : ℕ) (p : Peripheral W)
      → (h : W) × (r : List ℕ) × (length r ≡ 16)
        × (random16 L (suc (suc n)) p
            ≡ record { result = ok (some r); state = record p { hci = h } })
  unfolding random16
  random16_works n p =
      let (h, r, len, first) = random_from_round (suc n) [] p (omega arith) in
      let (h', r', len', second) =
        random_from_round n r (record p { hci = h }) (omega (arith, len)) in
      let whole : length (r ++ r') ≡ 16 = omega (arith, length-append r r', len, len') in
      (
        h',
        r ++ r',
        whole,
        first ∙ second ∙ random_from_enough n (r ++ r') (record p { hci = h' }) whole,
      )

  on_request_works :
      (payload : List ℕ) (p : Peripheral W)
      → p.conn < 65536
      → (h : W) × (on_request L payload p ≡ record {
        result = ok true;
        state = record p {
          hci = h;
          started = true;
          preq = some (take 7 payload);
          pres = response;
          sent = p.sent ++ (response ∷ []);
        };
      })
  unfolding on_request
  on_request_works payload p hc =
      let p' : Peripheral W = record p {
        started = true;
        preq = some (take 7 payload);
        pres = response;
      } in
      let (h, sent) = send_works response p' hc (omega arith) in
      (h, >>=-ok _ _ refl ∙ >>=-ok _ _ refl ∙ >>=-ok _ _ sent)

  confirm-length :
      (p : Peripheral W) (preq rand : List ℕ) → length (confirm_value e p preq rand) ≡ 16
  confirm-length p preq rand =
      let b =
        e zero_key
          (xor16 (reverse rand) (reverse response ++ (reverse preq ++ (p.rat ∷ p.iat ∷ [])))) in
      length-reverse (e zero_key (xor16 b (replicate 4 0 ++ (reverse p.ia ++ reverse p.ra))))
      ∙ works.block _ _

  -- A peripheral that has answered a Pairing Request.
  abbrev IsAsked : Peripheral W → List ℕ → Type 0
  IsAsked p preq =
      (p.preq ≡ some preq)
      × (length preq ≡ 7)
      × (p.pres ≡ response)
      × (p.tk ≡ zero_key)
      × (length p.ra ≡ 6)
      × (length p.ia ≡ 6)

  c1_asked :
      (rand preq : List ℕ) (p : Peripheral W)
      → IsAsked p preq
      → length rand ≡ 16
      → (h : W) × (c1 L p.tk rand p
          ≡ record { result = ok (confirm_value e p preq rand); state = record p { hci = h } })
  c1_asked rand preq p (asked, len, answered, tk, ra, ia) lr =
      let (h, got) =
        c1_works L e works p.tk rand preq p (ap length tk) lr asked len (ap length answered) ra
          ia in
      (
        h,
        got
            ∙ ap₂
                (λ k s. record {
                  result = ok (
                      reverse (
                        c1_value e (reverse k) (reverse rand) (reverse preq) (reverse s) p.iat p.rat
                          (reverse p.ia) (reverse p.ra)));
                  state = record p { hci = h };
                })
                tk answered,
      )

  asked_confirm :
      (rounds : ℕ) (payload preq : List ℕ) (p : Peripheral W)
      → p.preq ≡ some preq
      → on_confirm L rounds payload p ≡ take_confirm L rounds payload p
  unfolding on_confirm
  asked_confirm rounds payload preq p e =
      ap
        (λ o. elim o [
          | none ↦ record { result = ok true; state = p }
          | some q ↦ take_confirm L rounds payload p
        ])
        e

  drawn_random :
      (payload own : List ℕ) (p : Peripheral W)
      → p.own_random ≡ some own
      → on_random L payload p ≡ check_random L own (slice payload 1 17) p
  unfolding on_random
  drawn_random payload own p e =
      ap
        (λ o. elim o [
          | none ↦ record { result = ok true; state = p }
          | some own ↦ check_random L own (slice payload 1 17) p
        ])
        e

  on_confirm_works :
      (n : ℕ) (payload preq : List ℕ) (p : Peripheral W)
      → p.conn < 65536
      → IsAsked p preq
      → (h : W) × (r : List ℕ) × (length r ≡ 16)
        × (on_confirm L (suc (suc n)) payload p ≡ record {
          result = ok true;
          state = record p {
            hci = h;
            peer_confirm = slice payload 1 17;
            own_random = some r;
            sent = p.sent ++ ((pairing_confirm ∷ confirm_value e p preq r) ∷ []);
          };
        })
  unfolding take_confirm answer_confirm
  on_confirm_works n payload preq p hc asked =
      let p1 : Peripheral W = record p { peer_confirm = slice payload 1 17 } in
      let (h, r, len, drawn) = random16_works n p1 in
      let p2 : Peripheral W = record p1 { hci = h; own_random = some r } in
      let (h', confirm) = c1_asked r preq p2 asked len in
      let p3 : Peripheral W = record p2 { hci = h' } in
      let (h'', sent) =
        send_works (pairing_confirm ∷ confirm_value e p preq r) p3 hc
          (omega (arith, confirm-length p preq r)) in
      (
        h'',
        r,
        len,
        asked_confirm (suc (suc n)) payload preq p asked.0
            ∙ (>>=-ok _ _ refl
                ∙ >>=-ok _ _ drawn
                ∙ >>=-ok _ _ refl
                ∙ >>=-ok _ _ refl
                ∙ >>=-ok _ _ confirm
                ∙ >>=-ok _ _ sent),
      )

  on_random_works :
      (payload preq own : List ℕ) (p : Peripheral W)
      → p.conn < 65536
      → IsAsked p preq
      → p.own_random ≡ some own
      → length own ≡ 16
      → length (slice payload 1 17) ≡ 16
      → p.peer_confirm ≡ confirm_value e p preq (slice payload 1 17)
      → (h : W) × (on_random L payload p ≡ record {
        result = ok true;
        state = record p {
          hci = h;
          peer_random = slice payload 1 17;
          stk = some (reverse (s1_value e zero_key (reverse own) (reverse (slice payload 1 17))));
          sent = p.sent ++ ((pairing_random ∷ own) ∷ []);
        };
      })
  unfolding check_random derive
  on_random_works payload preq own p hc asked drawn lo lp matched =
      let peer = slice payload 1 17 in
      let p1 : Peripheral W = record p { peer_random = peer } in
      let (h, confirm) = c1_asked peer preq p1 asked lp in
      let p2 : Peripheral W = record p1 { hci = h } in
      let (h', key) = s1_works L e works p.tk own peer p2 (ap length asked.3) lo lp in
      let p3 : Peripheral W = record p2 {
        hci = h';
        stk = some (reverse (s1_value e (reverse p.tk) (reverse own) (reverse peer)));
      } in
      let (h'', sent) = send_works (pairing_random ∷ own) p3 hc (omega (arith, lo)) in
      let same : bytes_eq (confirm_value e p preq peer) p.peer_confirm ≡ true =
        ap (bytes_eq (confirm_value e p preq peer)) matched
        ∙ bytes_eq_refl (confirm_value e p preq peer) in
      (
        h'',
        drawn_random payload own p drawn
            ∙ >>=-ok _ _ refl
            ∙ >>=-ok _ _ refl
            ∙ >>=-ok _ _ confirm
            ∙ ap (λ b. (if not b then refuse L else derive L own peer) p2) same
            ∙ >>=-ok _ _ refl
            ∙ >>=-ok _ _ key
            ∙ >>=-ok _ _ refl
            ∙ >>=-ok _ _ sent
            ∙ ap
                (λ k. record {
                  result = ok true;
                  state = record p {
                    hci = h'';
                    peer_random = peer;
                    stk = some (reverse (s1_value e (reverse k) (reverse own) (reverse peer)));
                    sent = p.sent ++ ((pairing_random ∷ own) ∷ []);
                  };
                })
                asked.3,
      )

  -- `feed` hands each PDU that is long enough to its handler.
  feed_request :
      (rounds : ℕ) (rest : List ℕ) (p : Peripheral W)
      → length rest ≡ 6
      → feed L rounds (pairing_request ∷ rest) cid_smp p ≡ on_request L (pairing_request ∷ rest) p
  unfolding feed
  feed_request rounds rest p h =
      let enough : leb 7 (suc (length rest)) ≡ true = le→leb (omega (arith, h)) in
      ap (λ b. (if b then on_request L (pairing_request ∷ rest) else pure true) p) enough

  feed_confirm :
      (rounds : ℕ) (rest : List ℕ) (p : Peripheral W)
      → length rest ≡ 16
      → feed L rounds (pairing_confirm ∷ rest) cid_smp p
        ≡ on_confirm L rounds (pairing_confirm ∷ rest) p
  unfolding feed
  feed_confirm rounds rest p h =
      let enough : leb 17 (suc (length rest)) ≡ true = le→leb (omega (arith, h)) in
      ap (λ b. (if b then on_confirm L rounds (pairing_confirm ∷ rest) else pure true) p) enough

  feed_random :
      (rounds : ℕ) (rest : List ℕ) (p : Peripheral W)
      → length rest ≡ 16
      → feed L rounds (pairing_random ∷ rest) cid_smp p ≡ on_random L (pairing_random ∷ rest) p
  unfolding feed
  feed_random rounds rest p h =
      let enough : leb 17 (suc (length rest)) ≡ true = le→leb (omega (arith, h)) in
      ap (λ b. (if b then on_random L (pairing_random ∷ rest) else pure true) p) enough

  module _ (hci : W) (conn lt pt : ℕ) (local_addr peer_addr params mrand : List ℕ) (n : ℕ)
      (hc : conn < 65536) (ll : length local_addr ≡ 6) (lp : length peer_addr ≡ 6)
      (lq : length params ≡ 6) (lm : length mrand ≡ 16) where
    -- The peripheral serves an initiator that follows the specification.
    pub legacy_pairing_agrees : Served L e hci conn lt pt local_addr peer_addr params mrand n
    legacy_pairing_agrees =
        let start_ = start L e hci conn lt pt local_addr peer_addr params mrand n in
        let preq_ = request_pdu L e hci conn lt pt local_addr peer_addr params mrand n in
        let first_ = first L e hci conn lt pt local_addr peer_addr params mrand n in
        let second_ = second L e hci conn lt pt local_addr peer_addr params mrand n in
        let third_ = third L e hci conn lt pt local_addr peer_addr params mrand n in
        let whole : take 7 preq_ ≡ preq_ = take_of_le 7 preq_ (omega (arith, lq)) in
        let (h1, asked) = on_request_works preq_ start_ hc in
        let p1 : Peripheral W = record start_ {
          hci = h1;
          started = true;
          preq = some preq_;
          pres = response;
          sent = response ∷ [];
        } in
        let one : first_ ≡ record { result = ok true; state = p1 } =
          feed_request (suc (suc n)) params start_ lq
          ∙ asked
          ∙ ap (λ q. record { result = ok true; state = record p1 { preq = some q } }) whole in
        let confirm = confirm_value e start_ preq_ mrand in
        let lc : length confirm ≡ 16 = confirm-length start_ preq_ mrand in
        let (h2, srand, ls, answered) =
          on_confirm_works n (pairing_confirm ∷ confirm) preq_ p1 hc
            (refl, omega (arith, lq), refl, refl, ll, lp) in
        let whole2 : take 16 confirm ≡ confirm = take_of_le 16 confirm (omega (arith, lc)) in
        let p2 : Peripheral W = record p1 {
          hci = h2;
          peer_confirm = confirm;
          own_random = some srand;
          sent = response ∷ (pairing_confirm ∷ confirm_value e start_ preq_ srand) ∷ [];
        } in
        let two : second_ ≡ record { result = ok true; state = p2 } =
          ap
            (λ o.
              feed_on L e hci conn lt pt local_addr peer_addr params mrand n
                (pairing_confirm ∷ confirm) o.state)
            one
          ∙ feed_confirm (suc (suc n)) confirm p1 lc
          ∙ answered
          ∙ ap (λ c. record { result = ok true; state = record p2 { peer_confirm = c } }) whole2 in
        let whole3 : take 16 mrand ≡ mrand = take_of_le 16 mrand (omega (arith, lm)) in
        let (h3, checked) =
          on_random_works (pairing_random ∷ mrand) preq_ srand p2 hc
            (refl, omega (arith, lq), refl, refl, ll, lp) refl ls (ap length whole3 ∙ lm)
            (ap (confirm_value e start_ preq_) (sym whole3)) in
        let three =
          ap
            (λ o.
              feed_on L e hci conn lt pt local_addr peer_addr params mrand n
                (pairing_random ∷ mrand) o.state)
            two
          ∙ feed_random (suc (suc n)) mrand p2 lm
          ∙ checked in
        (
          srand,
          ls,
          ap (λ o. o.result) one,
          ap (λ o. o.result) two,
          ap (λ o. o.result) three,
          ap (λ o. o.state.sent) three,
          ap (λ o. o.state.stk) three
              ∙ ap (λ m. some (reverse (s1_value e zero_key (reverse srand) (reverse m)))) whole3,
          ap (λ o. o.state.failed) three,
        )
