-- ===== src/Smp/Central/Steps.antt =====
-- `feed` of the initiator on the PDUs of a well-behaved responder.
use hci_controller.Base.{
  if◌then◌else◌, bytes_eq, bytes_eq_refl, length, take, replicate, slice, length-append,
  take-append_of_eq, drop-append_of_eq, take_all, has_bit, ok, ℕ, ◌≤◌, ◌≡◌, refl, sym, subst, true,
  false, ◌&&◌, ◌||◌, some, List, [], ◌∷◌, ◌++◌, arith,
}
use hci_controller.Smp.Pdu
use hci_controller.Smp.Toolbox.{
  Crypto, method_numeric, f5, f6, g2, f4, shared_secret, Method, just_works, sc_method, is_passkey,
  auth_mitm, auth_sc,
}
use hci_controller.Smp.Central.{
  Central, a1, a2, wait_user, user_confirm, send_dhkey_check, wait_response, wait_public_key,
  wait_confirm, wait_random, wait_dhkey_check, complete, emit, derive_keys, feed, start, idle,
}

-- The method that the initiator takes, by its own features and the responder's.
abbrev pub chosen : ℕ → ℕ → ℕ → ℕ → Method
chosen io_cap auth_req peer_io_cap peer_auth_req =
    if has_bit auth_req auth_mitm || has_bit peer_auth_req auth_mitm
    then sc_method io_cap peer_io_cap
    else just_works

pub slice_x : (code : ℕ) (x y : List ℕ) → length x ≡ 32 → slice (code ∷ (x ++ y)) 1 33 ≡ x
slice_x code x y h = take-append_of_eq 32 x y (sym h)

pub slice_y :
    (code : ℕ) (x y : List ℕ) → length x ≡ 32 → length y ≡ 32 → slice (code ∷ (x ++ y)) 33 65 ≡ y
slice_y code x y h k =
    rw (drop-append_of_eq 32 x y (sym h)) (subst (λ n. take n y ≡ y) k (take_all y))

pub slice_tail : (code : ℕ) (v : List ℕ) → length v ≡ 16 → slice (code ∷ v) 1 17 ≡ v
slice_tail code v h = subst (λ n. take n v ≡ v) h (take_all v)

abbrev pub request_of : Central → List ℕ
request_of c = Pdu.request ∷ c.io_cap ∷ 0 ∷ c.auth_req ∷ c.key_size ∷ c.init_keys ∷ c.resp_keys ∷ []

module _ (C : Crypto) (c : Central) where
  pub feed-response :
      (io auth size init_keys resp_keys : ℕ)
      → c.state ≡ wait_response
      → (has_bit c.auth_req auth_sc && has_bit auth auth_sc) ≡ true
      → 7 ≤ size
      → size ≤ 16
      → c.io_cap ≤ 4
      → io ≤ 4
      → is_passkey (chosen c.io_cap c.auth_req io auth) ≡ false
      → feed C c (Pdu.response ∷ io ∷ 0 ∷ auth ∷ size ∷ init_keys ∷ resp_keys ∷ [])
        ≡ emit
            (record c {
              pres = Pdu.response ∷ io ∷ 0 ∷ auth ∷ size ∷ init_keys ∷ resp_keys ∷ [];
              peer_io_cap = io;
              peer_auth_req = auth;
              method = some (chosen c.io_cap c.auth_req io auth);
              state = wait_public_key;
            })
            (Pdu.public_key ∷ (c.keypair.x ++ c.keypair.y))
  unfolding feed
  feed-response io auth size ik rk st sc lo hi own other nopass = ground arith

  pub feed-public_key :
      (x y key : List ℕ)
      → c.state ≡ wait_public_key
      → length x ≡ 32
      → length y ≡ 32
      → (bytes_eq x c.keypair.x && bytes_eq y c.keypair.y) ≡ false
      → shared_secret C c.keypair x y ≡ some key
      → feed C c (Pdu.public_key ∷ (x ++ y))
        ≡ record c { peer_x = x; peer_y = y; dhkey = key; state = wait_confirm }
  unfolding feed
  feed-public_key x y key st hx hy foreign shared =
      ground
        (arith, slice_x Pdu.public_key x y hx, slice_y Pdu.public_key x y hx hy, length-append x y)

  pub feed_confirm :
      (v : List ℕ)
      → c.state ≡ wait_confirm
      → length v ≡ 16
      → feed C c (Pdu.confirm ∷ v)
        ≡ emit
            (record c { confirm = v; na = c.random; state = wait_random })
            (Pdu.random ∷ c.random)
  unfolding feed
  feed_confirm v st hv = ground (arith, slice_tail Pdu.confirm v hv)

  pub feed_random :
      (n : List ℕ)
      → c.state ≡ wait_random
      → length n ≡ 16
      → f4 C c.peer_x c.keypair.x n (0 ∷ []) ≡ c.confirm
      → feed C c (Pdu.random ∷ n) ≡ derive_keys C (record c { nb = n })
  unfolding feed
  feed_random n st hn e = ground (arith, slice_tail Pdu.random n hn, bytes_eq_refl c.confirm)

  pub feed_dhkey_check :
      (v : List ℕ)
      → c.state ≡ wait_dhkey_check
      → length v ≡ 16
      → v ≡ c.dhkey_check
      → feed C c (Pdu.dhkey_check ∷ v) ≡ record c { state = complete }
  unfolding feed
  feed_dhkey_check v st hv e =
      ground (arith, slice_tail Pdu.dhkey_check v hv, bytes_eq_refl c.dhkey_check)

  pub start-idle :
      c.state ≡ idle
      → start c ≡ ok (emit (record c { preq = request_of c; state = wait_response }) (request_of c))
  unfolding start
  start-idle st = ground arith

  -- The initiator with its check on the way.
  abbrev pub checking : Central
  checking =
      emit
        (record c {
          dhkey_check = f6 C c.mac_key c.nb c.na (replicate 16 0) (slice c.pres 1 4) (a2 c) (a1 c);
          state = wait_dhkey_check;
        })
        (Pdu.dhkey_check
          ∷ f6 C c.mac_key c.na c.nb (replicate 16 0) (slice c.preq 1 4) (a1 c) (a2 c))

  pub send_dhkey_check_lem : send_dhkey_check C c ≡ checking
  unfolding send_dhkey_check
  send_dhkey_check_lem = refl

  pub user_confirm_accept :
      c.state ≡ wait_user
      → user_confirm C c true ≡ ok (send_dhkey_check C (record c { user_accepted = some true }))
  unfolding user_confirm
  user_confirm_accept st = ground arith

  -- The initiator with its keys derived.
  abbrev pub keyed : Central
  keyed = record c {
    mac_key = (f5 C c.dhkey c.na c.nb (a1 c) (a2 c)).0;
    ltk = some (f5 C c.dhkey c.na c.nb (a1 c) (a2 c)).1;
  }

  pub derive_keys_numeric :
      method_numeric c.method ≡ true
      → derive_keys C c ≡ record keyed {
        numeric_value = some (g2 C c.keypair.x c.peer_x c.na c.nb);
        state = wait_user;
      }
  unfolding derive_keys
  derive_keys_numeric m = ground arith

  pub derive_keys_plain :
      method_numeric c.method ≡ false → derive_keys C c ≡ send_dhkey_check C keyed
  unfolding derive_keys
  derive_keys_plain m = ground arith
