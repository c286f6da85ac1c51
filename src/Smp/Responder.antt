-- ===== src/Smp/Responder.antt =====
-- `SmpResponder` of python/hcicontroller/smp_central.py: the other end of a pairing. `send` appends
-- to `sent`, and the `rng(16)` of `__init__` gave `random`.
mod Dispatch
pub mod Safety
pub mod Outcome
mod Examples
pub mod Steps
use hci_controller.Base.{
  ltb, ◌==◌, if◌then◌else◌, bytes_eq, length, get_elem?, get_or, drop, replicate, slice, has_bit,
  Result, ok, err, pairing_error, ℕ, ◌*◌, Bool, true, not, ◌&&◌, ◌||◌, Option, none, some, List, [],
  ◌∷◌, ◌++◌,
}
use Prim.Native.Nat.{bit_and, min}
use hci_controller.Smp.Toolbox.{
  Crypto, KeyPair, f4, f5, f6, g2, shared_secret, address_form, Method, just_works, sc_method,
  method_numeric, is_passkey, auth_mitm, auth_sc, Failure, peer_failed, legacy, io_out_of_range,
  passkey_refused, check_mismatch, rejected, protocol,
}
use hci_controller.Smp.Pdu

-- The states, `range(6)` in the source.
abbrev pub idle : ℕ
idle = 0

abbrev pub wait_public_key : ℕ
wait_public_key = 1

abbrev pub wait_random : ℕ
wait_random = 2

abbrev pub wait_user_or_check : ℕ
wait_user_or_check = 3

abbrev pub complete : ℕ
complete = 4

abbrev pub failed : ℕ
failed = 5

-- The arguments of `__init__`.
pub record Config : Type 0 where
  pub local_address : List ℕ
  pub local_type : ℕ
  pub peer_address : List ℕ
  pub peer_type : ℕ
  pub io_cap : ℕ
  pub auth_req : ℕ
  pub key_size : ℕ
  pub accept_init_keys : ℕ
  pub resp_keys : ℕ
  pub keypair : KeyPair
  pub random : List ℕ

pub record Responder : Type 0 where
  pub config : Config
  pub open config use *
  pub state : ℕ
  pub method : Option Method
  pub failure : Option Failure
  pub peer_failure : Option ℕ
  pub numeric_value : Option ℕ
  pub ltk : Option (List ℕ)
  pub mac_key : List ℕ
  pub dhkey : List ℕ
  pub preq : List ℕ
  pub pres : List ℕ
  pub na : List ℕ
  pub nb : List ℕ
  pub peer_x : List ℕ
  pub peer_y : List ℕ
  pub user_accepted : Option Bool
  pub ea : Option (List ℕ)
  pub agreed_init_keys : ℕ
  pub request : List ℕ
  pub sent : List (List ℕ)

abbrev pub init : Config → Responder
init g = record {
  config = g;
  state = idle;
  method = none;
  failure = none;
  peer_failure = none;
  numeric_value = none;
  ltk = none;
  mac_key = [];
  dhkey = [];
  preq = [];
  pres = [];
  na = [];
  nb = g.random;
  peer_x = [];
  peer_y = [];
  user_accepted = none;
  ea = none;
  agreed_init_keys = 0;
  request = [];
  sent = [];
}

-- `done`
abbrev pub is_done : Responder → Bool
is_done r = r.state == complete || r.state == failed

-- `_a1`, the initiator's address, and `_a2`
abbrev pub a1 : Responder → List ℕ
a1 r = address_form r.peer_address r.peer_type

abbrev pub a2 : Responder → List ℕ
a2 r = address_form r.local_address r.local_type

-- `_fail` without and with a reason
abbrev pub fail_quietly : Responder → Failure → Responder
fail_quietly r f = record r { failure = some f; state = failed }

abbrev pub fail : Responder → Failure → ℕ → Responder
fail r f reason = record r {
  failure = some f;
  state = failed;
  sent = r.sent ++ ((Pdu.failed ∷ reason ∷ []) ∷ []);
}

-- `_emit`
abbrev pub emit : Responder → List ℕ → Responder
emit r pdu = record r { sent = r.sent ++ (pdu ∷ []) }

-- How a handler ends: it returns, or it raises PairingError with the fields that it has set.
pub data Step : Type 0 where
  done : Responder → Step
  raised : Responder → Step

-- The second part of `_on_request`, from the choice of the method on.
pub choose_method : Responder → List ℕ → Responder
choose_method r pdu =
    let io = get_or pdu 1 0 in
    let auth = get_or pdu 3 0 in
    let mitm = has_bit auth auth_mitm || has_bit r.auth_req auth_mitm in
    let method = if mitm then sc_method io r.io_cap else just_works in
    let init_keys = bit_and (get_or pdu 5 0) r.accept_init_keys in
    let resp_keys = bit_and (get_or pdu 6 0) r.resp_keys in
    let pres =
      Pdu.response
      ∷ r.io_cap
      ∷ 0x00
      ∷ r.auth_req
      ∷ min r.key_size 16
      ∷ init_keys
      ∷ resp_keys
      ∷ [] in
    let r' : Responder = record r { method = some method } in
    if is_passkey method
    then fail r' passkey_refused 0x05
    else emit (record r' { agreed_init_keys = init_keys; pres = pres; state = wait_public_key })
        pres

-- `_on_request`. With an IO capability of its own beyond the table, the look-up of the method raises
-- IndexError, which passes through `feed`: the object is left with the request and nothing else.
pub on_request : Responder → List ℕ → Step
unfolding choose_method
on_request r pdu =
    let r' : Responder = record r { preq = pdu; request = drop 1 pdu } in
    if not (r.state == idle)
    then raised r
    else if not (length pdu == 7)
    then raised r
    else if not (has_bit (get_or pdu 3 0) auth_sc && has_bit r.auth_req auth_sc)
    then done (fail r' legacy 0x05)
    else if ltb 4 (get_or pdu 1 0)
    then done (fail r' io_out_of_range 0x0A)
    else if (has_bit (get_or pdu 3 0) auth_mitm || has_bit r.auth_req auth_mitm) && ltb 4 r.io_cap
    then done r'
    else done (choose_method r' pdu)

module _ (C : Crypto) where
  pub on_public_key : Responder → List ℕ → Step
  on_public_key r pdu =
      let px = slice pdu 1 33 in
      let py = slice pdu 33 65 in
      let r' : Responder = record r { peer_x = px; peer_y = py } in
      if not (r.state == wait_public_key)
      then raised r
      else if not (length pdu == 65)
      then raised r
      else elim (shared_secret C r.keypair px py) [
        | none ↦ raised r'
        | some key ↦
            let keyed : Responder = record r' { dhkey = key } in
            let answered = emit keyed (Pdu.public_key ∷ (r.keypair.x ++ r.keypair.y)) in
            done (
              emit (record answered { state = wait_random })
                (Pdu.confirm ∷ f4 C r.keypair.x px r.nb (0 ∷ [])))
      ]

  pub on_random : Responder → List ℕ → Step
  on_random r pdu =
      let na = slice pdu 1 17 in
      let answered : Responder = emit (record r { na = na }) (Pdu.random ∷ r.nb) in
      let keys = f5 C r.dhkey na r.nb (a1 r) (a2 r) in
      let keyed : Responder = record answered {
        mac_key = keys.0;
        ltk = some keys.1;
        state = wait_user_or_check;
      } in
      if not (r.state == wait_random)
      then raised r
      else if not (length pdu == 17)
      then raised r
      else if method_numeric r.method
      then done (record keyed { numeric_value = some (g2 C r.peer_x r.keypair.x na r.nb) })
      else done (record keyed { user_accepted = some true })

  -- `_finish` once both the user's word and the peer's value are there.
  pub check_peer : Responder → List ℕ → Responder
  check_peer r ea =
      let expected = f6 C r.mac_key r.na r.nb (replicate 16 0) (slice r.preq 1 4) (a1 r) (a2 r) in
      let eb = f6 C r.mac_key r.nb r.na (replicate 16 0) (slice r.pres 1 4) (a2 r) (a1 r) in
      if not (bytes_eq expected ea)
      then fail r check_mismatch 0x0B
      else record (emit r (Pdu.dhkey_check ∷ eb)) { state = complete }

  -- `_finish`
  pub finish : Responder → Responder
  unfolding check_peer
  finish r = elim r.ea [
    | none ↦ r
    | some ea ↦ elim r.user_accepted [ some true ↦ check_peer r ea | _ ↦ r ]
  ]

  pub on_dhkey_check : Responder → List ℕ → Step
  unfolding finish
  on_dhkey_check r pdu =
      if not (r.state == wait_user_or_check)
      then raised r
      else if not (length pdu == 17)
      then raised r
      else done (finish (record r { ea = some (slice pdu 1 17) }))

  -- The handler that `feed` looks up; `none` for a PDU that nothing waits for.
  pub handle : Responder → ℕ → List ℕ → Option Step
  unfolding on_request on_public_key on_random on_dhkey_check
  handle r code pdu =
      if code == Pdu.request
      then some (on_request r pdu)
      else if code == Pdu.public_key
      then some (on_public_key r pdu)
      else if code == Pdu.random
      then some (on_random r pdu)
      else if code == Pdu.dhkey_check
      then some (on_dhkey_check r pdu)
      else none

  -- `except PairingError as err: self._fail(str(err), 0x0A)`
  abbrev pub settle : Responder → Option Step → Responder
  settle r none = r
  settle r (some (done r')) = r'
  settle r (some (raised r')) = fail r' protocol 0x0A

  pub feed : Responder → List ℕ → Responder
  unfolding handle
  feed r [] = r
  feed r (code ∷ rest) =
      let reason = get_elem? (code ∷ rest) 1 in
      if is_done r
      then r
      else if code == Pdu.failed
      then fail_quietly (record r { peer_failure = reason }) (peer_failed reason)
      else settle r (handle r code (code ∷ rest))

  pub user_confirm : Responder → Bool → Result Responder
  unfolding finish
  user_confirm r accepted =
      let r' : Responder = record r { user_accepted = some accepted } in
      if not (r.state == wait_user_or_check)
      then err pairing_error
      else if accepted
      then ok (finish r')
      else ok (fail r' rejected 0x0C)
