-- ===== src/Smp/Responder/Steps.antt =====
-- `feed` of the responder on the PDUs of a well-behaved initiator.
use hci_controller.Base.{
  ltb, le→ltb, bytes_eq_refl, length, replicate, slice, length-append, has_bit, ok, ℕ, ◌≤◌, ◌≡◌,
  refl, Bool, true, false, ◌&&◌, ◌||◌, none, some, List, [], ◌∷◌, ◌++◌, arith,
}
use Prim.Native.Nat.{bit_and, min}
use hci_controller.Smp.Pdu
use hci_controller.Smp.Toolbox.{
  auth_mitm, Crypto, f4, f5, f6, g2, shared_secret, method_numeric, is_passkey, auth_sc,
}
use hci_controller.Smp.Central.Steps.{chosen, slice_x, slice_y, slice_tail}
use hci_controller.Smp.Responder.{
  Responder, idle, wait_public_key, wait_random, wait_user_or_check, complete, emit, a1, a2, feed,
  user_confirm,
}

-- The Pairing Response to a request with these keys.
abbrev pub response_to : Responder → ℕ → ℕ → List ℕ
response_to r init_keys resp_keys =
    Pdu.response
    ∷ r.io_cap
    ∷ 0
    ∷ r.auth_req
    ∷ min r.key_size 16
    ∷ bit_and init_keys r.accept_init_keys
    ∷ bit_and resp_keys r.resp_keys
    ∷ []

-- An IO capability that the table has.
in_table : (b : Bool) (n : ℕ) → n ≤ 4 → (b && ltb 4 n) ≡ false
in_table true n h = le→ltb 4 n h
in_table false n h = refl

module _ (C : Crypto) (r : Responder) where
  pub feed_request :
      (io auth size init_keys resp_keys : ℕ)
      → r.state ≡ idle
      → (has_bit auth auth_sc && has_bit r.auth_req auth_sc) ≡ true
      → io ≤ 4
      → r.io_cap ≤ 4
      → is_passkey (chosen io auth r.io_cap r.auth_req) ≡ false
      → feed C r (Pdu.request ∷ io ∷ 0 ∷ auth ∷ size ∷ init_keys ∷ resp_keys ∷ [])
        ≡ emit
            (record r {
              preq = Pdu.request ∷ io ∷ 0 ∷ auth ∷ size ∷ init_keys ∷ resp_keys ∷ [];
              request = io ∷ 0 ∷ auth ∷ size ∷ init_keys ∷ resp_keys ∷ [];
              method = some (chosen io auth r.io_cap r.auth_req);
              agreed_init_keys = bit_and init_keys r.accept_init_keys;
              pres = response_to r init_keys resp_keys;
              state = wait_public_key;
            })
            (response_to r init_keys resp_keys)
  unfolding feed
  feed_request io auth size ik rk st sc other own nopass =
      let row = in_table (has_bit auth auth_mitm || has_bit r.auth_req auth_mitm) r.io_cap own in
      ground (arith, row)

  pub feed-public_key :
      (x y key : List ℕ)
      → r.state ≡ wait_public_key
      → length x ≡ 32
      → length y ≡ 32
      → shared_secret C r.keypair x y ≡ some key
      → feed C r (Pdu.public_key ∷ (x ++ y))
        ≡ emit
            (emit
              (record r { peer_x = x; peer_y = y; dhkey = key; state = wait_random })
              (Pdu.public_key ∷ (r.keypair.x ++ r.keypair.y)))
            (Pdu.confirm ∷ f4 C r.keypair.x x r.nb (0 ∷ []))
  unfolding feed
  feed-public_key x y key st hx hy shared =
      ground
        (arith, slice_x Pdu.public_key x y hx, slice_y Pdu.public_key x y hx hy, length-append x y)

  -- The fields that `_on_random` sets for each method.
  abbrev pub keyed : List ℕ → Responder
  keyed n =
      let keys = f5 C r.dhkey n r.nb (a1 r) (a2 r) in
      emit (record r { na = n; mac_key = keys.0; ltk = some keys.1; state = wait_user_or_check })
        (Pdu.random ∷ r.nb)

  pub feed_random_numeric :
      (n : List ℕ)
      → r.state ≡ wait_random
      → length n ≡ 16
      → method_numeric r.method ≡ true
      → feed C r (Pdu.random ∷ n)
        ≡ record (keyed n) { numeric_value = some (g2 C r.peer_x r.keypair.x n r.nb) }
  unfolding feed
  feed_random_numeric n st hn m = ground (arith, slice_tail Pdu.random n hn)

  pub feed_random_plain :
      (n : List ℕ)
      → r.state ≡ wait_random
      → length n ≡ 16
      → method_numeric r.method ≡ false
      → feed C r (Pdu.random ∷ n) ≡ record (keyed n) { user_accepted = some true }
  unfolding feed
  feed_random_plain n st hn m = ground (arith, slice_tail Pdu.random n hn)

  pub feed_dhkey_check :
      (v : List ℕ)
      → r.state ≡ wait_user_or_check
      → length v ≡ 16
      → r.user_accepted ≡ some true
      → v ≡ f6 C r.mac_key r.na r.nb (replicate 16 0) (slice r.preq 1 4) (a1 r) (a2 r)
      → feed C r (Pdu.dhkey_check ∷ v)
        ≡ record (emit
            (record r { ea = some v })
            (Pdu.dhkey_check
              ∷ f6 C r.mac_key r.nb r.na (replicate 16 0) (slice r.pres 1 4) (a2 r) (a1 r))) {
                state = complete;
              }
  unfolding feed
  feed_dhkey_check v st hv acc e = ground (arith, slice_tail Pdu.dhkey_check v hv, bytes_eq_refl v)

  pub user_confirm_accept :
      r.state ≡ wait_user_or_check
      → r.ea ≡ none
      → user_confirm C r true ≡ ok (record r { user_accepted = some true })
  unfolding user_confirm
  user_confirm_accept st e = ground arith
