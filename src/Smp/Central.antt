-- ===== src/Smp/Central.antt =====
-- `SmpCentral` of python/hcicontroller/smp_central.py: the initiator of a pairing. `send` appends to
-- `sent`, and `rng(16)`, which a pairing calls once, gives `random`. A field that the source sets to
-- None until it is known holds no octets, or `none`.
mod Dispatch
mod Examples
pub mod Steps
mod Moves
pub mod Safety
pub mod Outcome
use hci_controller.Base.{
  ltb, ◌==◌, if◌then◌else◌, bytes_eq, length, get_elem?, get_or, replicate, slice, has_bit, Result,
  ok, err, pairing_error, ℕ, ◌*◌, Bool, not, ◌&&◌, ◌||◌, Option, none, some, List, [], ◌∷◌, ◌++◌,
}
use hci_controller.Smp.Toolbox.{
  Crypto, KeyPair, f4, f5, f6, g2, shared_secret, address_form, Method, just_works, sc_method,
  method_numeric, is_passkey, auth_mitm, auth_sc, Failure, peer_failed, legacy, peer_oob,
  bad_key_size, io_out_of_range, passkey_refused, confirm_mismatch, check_mismatch, rejected,
  protocol,
}
use hci_controller.Smp.Pdu

-- The states, `range(9)` in the source.
abbrev pub idle : ℕ
idle = 0

abbrev pub wait_response : ℕ
wait_response = 1

abbrev pub wait_public_key : ℕ
wait_public_key = 2

abbrev pub wait_confirm : ℕ
wait_confirm = 3

abbrev pub wait_random : ℕ
wait_random = 4

abbrev pub wait_user : ℕ
wait_user = 5

abbrev pub wait_dhkey_check : ℕ
wait_dhkey_check = 6

abbrev pub complete : ℕ
complete = 7

abbrev pub failed : ℕ
failed = 8

-- The arguments of `__init__`.
pub record Config : Type 0 where
  pub local_address : List ℕ
  pub local_type : ℕ
  pub peer_address : List ℕ
  pub peer_type : ℕ
  pub io_cap : ℕ
  pub auth_req : ℕ
  pub key_size : ℕ
  pub init_keys : ℕ
  pub resp_keys : ℕ
  pub keypair : KeyPair
  pub random : List ℕ

pub record Central : Type 0 where
  pub config : Config
  pub open config use *
  pub state : ℕ
  pub method : Option Method
  pub failure : Option Failure
  pub peer_failure : Option ℕ
  pub numeric_value : Option ℕ
  pub ltk : Option (List ℕ)
  pub mac_key : List ℕ
  pub dhkey : List ℕ
  pub preq : List ℕ
  pub pres : List ℕ
  pub peer_io_cap : ℕ
  pub peer_auth_req : ℕ
  pub na : List ℕ
  pub nb : List ℕ
  pub peer_x : List ℕ
  pub peer_y : List ℕ
  pub confirm : List ℕ
  pub dhkey_check : List ℕ
  pub user_accepted : Option Bool
  pub sent : List (List ℕ)

abbrev pub init : Config → Central
init g = record {
  config = g;
  state = idle;
  method = none;
  failure = none;
  peer_failure = none;
  numeric_value = none;
  ltk = none;
  mac_key = [];
  dhkey = [];
  preq = [];
  pres = [];
  peer_io_cap = 0;
  peer_auth_req = 0;
  na = [];
  nb = [];
  peer_x = [];
  peer_y = [];
  confirm = [];
  dhkey_check = [];
  user_accepted = none;
  sent = [];
}

-- `done`
abbrev pub is_done : Central → Bool
is_done c = c.state == complete || c.state == failed

-- `_a1` and `_a2`
abbrev pub a1 : Central → List ℕ
a1 c = address_form c.local_address c.local_type

abbrev pub a2 : Central → List ℕ
a2 c = address_form c.peer_address c.peer_type

-- `_fail` without and with a reason
abbrev pub fail_quietly : Central → Failure → Central
fail_quietly c f = record c { failure = some f; state = failed }

abbrev pub fail : Central → Failure → ℕ → Central
fail c f reason = record c {
  failure = some f;
  state = failed;
  sent = c.sent ++ ((Pdu.failed ∷ reason ∷ []) ∷ []);
}

-- `_emit`
abbrev pub emit : Central → List ℕ → Central
emit c pdu = record c { sent = c.sent ++ (pdu ∷ []) }

-- How a handler ends: it returns, or it raises PairingError with the fields that it has set.
pub data Step : Type 0 where
  done : Central → Step
  raised : Central → Step

-- `start`
pub start : Central → Result Central
start c =
    if c.state == idle
    then (let preq =
          Pdu.request ∷ c.io_cap ∷ 0x00 ∷ c.auth_req ∷ c.key_size ∷ c.init_keys ∷ c.resp_keys
          ∷ [] in
        ok (emit (record c { preq = preq; state = wait_response }) preq))
    else err pairing_error

-- The second part of `_on_response`, from the choice of the method on.
pub choose_method : Central → Central
choose_method c =
    let mitm = has_bit c.auth_req auth_mitm || has_bit c.peer_auth_req auth_mitm in
    let method = if mitm then sc_method c.io_cap c.peer_io_cap else just_works in
    let c' : Central = record c { method = some method } in
    if is_passkey method
    then fail c' passkey_refused 0x05
    else emit (record c' { state = wait_public_key })
        (Pdu.public_key ∷ (c.keypair.x ++ c.keypair.y))

pub on_response : Central → List ℕ → Step
unfolding choose_method
on_response c pdu =
    let c' : Central = record c {
      pres = pdu;
      peer_io_cap = get_or pdu 1 0;
      peer_auth_req = get_or pdu 3 0;
    } in
    let peer_key_size = get_or pdu 4 0 in
    if not (c.state == wait_response)
    then raised c
    else if not (length pdu == 7)
    then raised c
    else if not (has_bit c.auth_req auth_sc && has_bit (get_or pdu 3 0) auth_sc)
    then done (fail c' legacy 0x05)
    else if not (get_or pdu 2 0 == 0)
    then done (fail c' peer_oob 0x02)
    else if ltb peer_key_size 7 || ltb 16 peer_key_size
    then done (fail c' bad_key_size 0x06)
    else if ltb 4 c.io_cap || ltb 4 (get_or pdu 1 0)
    then done (fail c' io_out_of_range 0x0A)
    else done (choose_method c')

module _ (C : Crypto) where
  pub on_public_key : Central → List ℕ → Step
  on_public_key c pdu =
      let px = slice pdu 1 33 in
      let py = slice pdu 33 65 in
      let c' : Central = record c { peer_x = px; peer_y = py } in
      if not (c.state == wait_public_key)
      then raised c
      else if not (length pdu == 65)
      then raised c
      else if bytes_eq px c.keypair.x && bytes_eq py c.keypair.y
      then raised c'
      else elim (shared_secret C c.keypair px py) [
        | none ↦ raised c'
        | some key ↦ done (record c' { dhkey = key; state = wait_confirm })
      ]

  pub on_confirm : Central → List ℕ → Step
  on_confirm c pdu =
      if not (c.state == wait_confirm)
      then raised c
      else if not (length pdu == 17)
      then raised c
      else done (
          emit (record c { confirm = slice pdu 1 17; na = c.random; state = wait_random })
            (Pdu.random ∷ c.random))

  -- `_send_dhkey_check`
  pub send_dhkey_check : Central → Central
  send_dhkey_check c =
      let ea = f6 C c.mac_key c.na c.nb (replicate 16 0) (slice c.preq 1 4) (a1 c) (a2 c) in
      let eb = f6 C c.mac_key c.nb c.na (replicate 16 0) (slice c.pres 1 4) (a2 c) (a1 c) in
      emit (record c { dhkey_check = eb; state = wait_dhkey_check }) (Pdu.dhkey_check ∷ ea)

  -- The second part of `_on_random`, once the confirm value has been verified.
  pub derive_keys : Central → Central
  unfolding send_dhkey_check
  derive_keys c =
      let keys = f5 C c.dhkey c.na c.nb (a1 c) (a2 c) in
      let c' : Central = record c { mac_key = keys.0; ltk = some keys.1 } in
      if method_numeric c.method
      then record c' {
        numeric_value = some (g2 C c.keypair.x c.peer_x c.na c.nb);
        state = wait_user;
      }
      else send_dhkey_check c'

  pub on_random : Central → List ℕ → Step
  unfolding derive_keys
  on_random c pdu =
      let c' : Central = record c { nb = slice pdu 1 17 } in
      if not (c.state == wait_random)
      then raised c
      else if not (length pdu == 17)
      then raised c
      else if not (bytes_eq (f4 C c.peer_x c.keypair.x (slice pdu 1 17) (0 ∷ [])) c.confirm)
      then done (fail c' confirm_mismatch 0x04)
      else done (derive_keys c')

  pub on_dhkey_check : Central → List ℕ → Step
  on_dhkey_check c pdu =
      if not (c.state == wait_dhkey_check)
      then raised c
      else if not (length pdu == 17)
      then raised c
      else if not (bytes_eq (slice pdu 1 17) c.dhkey_check)
      then done (fail c check_mismatch 0x0B)
      else done (record c { state = complete })

  -- The handler that `feed` looks up; `none` for a PDU that nothing waits for.
  pub handle : Central → ℕ → List ℕ → Option Step
  unfolding on_response on_public_key on_confirm on_random on_dhkey_check
  handle c code pdu =
      if code == Pdu.response
      then some (on_response c pdu)
      else if code == Pdu.public_key
      then some (on_public_key c pdu)
      else if code == Pdu.confirm
      then some (on_confirm c pdu)
      else if code == Pdu.random
      then some (on_random c pdu)
      else if code == Pdu.dhkey_check
      then some (on_dhkey_check c pdu)
      else none

  -- `except PairingError as err: self._fail(str(err), 0x0A)`
  abbrev pub settle : Central → Option Step → Central
  settle c none = c
  settle c (some (done c')) = c'
  settle c (some (raised c')) = fail c' protocol 0x0A

  pub feed : Central → List ℕ → Central
  unfolding handle
  feed c [] = c
  feed c (code ∷ rest) =
      let reason = get_elem? (code ∷ rest) 1 in
      if is_done c
      then c
      else if code == Pdu.failed
      then fail_quietly (record c { peer_failure = reason }) (peer_failed reason)
      else settle c (handle c code (code ∷ rest))

  pub user_confirm : Central → Bool → Result Central
  unfolding send_dhkey_check
  user_confirm c accepted =
      let c' : Central = record c { user_accepted = some accepted } in
      if not (c.state == wait_user)
      then err pairing_error
      else if accepted
      then ok (send_dhkey_check c')
      else ok (fail c' rejected 0x0C)
