-- ===== src/Legacy.antt =====
-- The class `SmpPeripheral` of python/hcicontroller/hci_ble_test_impl.py: legacy pairing, Just Works,
-- with AES by commands of the controller. What is printed is not kept.
pub mod Reference
pub mod Agreement
pub mod Safety
pub mod Wire
mod Examples
use hci_controller.Base.{
  ltb, leb, ◌==◌, if◌then◌else◌, bytes_eq, length, get_or, take, replicate, slice, ℕ, zero, suc,
  Bool, true, false, not, ◌&&◌, Option, none, some, List, [], ◌∷◌, ◌++◌,
}
use hci_controller.Script.{Script, Ran, pure, raise, ◌>>=◌, ◌>>◌, done, get, modify, within}
use Prim.Native.Nat.{bit_xor}
use mathlib.Core.List.{reverse}

abbrev pub cid_smp : ℕ
cid_smp = 0x0006

abbrev pub pairing_request : ℕ
pairing_request = 0x01

abbrev pub pairing_response : ℕ
pairing_response = 0x02

abbrev pub pairing_confirm : ℕ
pairing_confirm = 0x03

abbrev pub pairing_random : ℕ
pairing_random = 0x04

abbrev pub pairing_failed : ℕ
pairing_failed = 0x05

abbrev pub err_confirm_failed : ℕ
err_confirm_failed = 0x04

abbrev pub io_no_input_no_output : ℕ
io_no_input_no_output = 0x03

abbrev pub max_key_size : ℕ
max_key_size = 16

abbrev pub op_le_encrypt : ℕ
op_le_encrypt = 0x2017

abbrev pub op_le_rand : ℕ
op_le_rand = 0x2018

-- The methods of an `Hci` that pairing calls, on whatever state they change.
pub record Link (W : Type 0) : Type 0 where
  pub command : ℕ → List ℕ → Script W (ℕ × List ℕ)
  pub send_acl : ℕ → ℕ → List ℕ → Script W (Unit {0})

-- `xor16`
pub xor16 : List ℕ → List ℕ → List ℕ
xor16 [] ys = []
xor16 (x ∷ xs) [] = []
xor16 (x ∷ xs) (y ∷ ys) = bit_xor x y ∷ xor16 xs ys

pub data Failure : Type 0 where
  confirm_mismatch : Failure
  peer_failed : ℕ → Failure

-- The attributes of an `SmpPeripheral`, with `hci`; `sent` lists what `send` has been called with.
pub record Peripheral (W : Type 0) : Type 0 where
  pub hci : W
  pub conn : ℕ
  pub ia : List ℕ
  pub iat : ℕ
  pub ra : List ℕ
  pub rat : ℕ
  pub tk : List ℕ
  pub preq : Option (List ℕ)
  pub pres : List ℕ
  pub own_random : Option (List ℕ)
  pub peer_random : List ℕ
  pub peer_confirm : List ℕ
  pub stk : Option (List ℕ)
  pub failed : Option Failure
  pub started : Bool
  pub sent : List (List ℕ)

-- `__init__`
abbrev pub init : {W : Type 0} → W → ℕ → List ℕ → ℕ → List ℕ → ℕ → Peripheral W
init hci conn local_addr local_type peer_addr peer_type = record {
  hci = hci;
  conn = conn;
  ia = peer_addr;
  iat = peer_type;
  ra = local_addr;
  rat = local_type;
  tk = replicate 16 0;
  preq = none;
  pres = [];
  own_random = none;
  peer_random = [];
  peer_confirm = [];
  stk = none;
  failed = none;
  started = false;
  sent = [];
}

-- `self.preq` where a request has come.
abbrev pub preq_of : {W : Type 0} → Peripheral W → List ℕ
preq_of p = elim p.preq [ none ↦ [] | some preq ↦ preq ]

module _ {W : Type 0} (L : Link W) where
  abbrev pub on_link : {A : Type 0} → Script W A → Script (Peripheral W) A
  on_link = within (λ p. p.hci) (λ h p. record p { hci = h })

  -- `send`
  pub send : List ℕ → Script (Peripheral W) (Unit {0})
  send payload p =
      (on_link (L.send_acl p.conn cid_smp payload)) (record p { sent = p.sent ++ (payload ∷ []) })

  -- `encrypt`
  pub encrypt : List ℕ → List ℕ → Script (Peripheral W) (List ℕ)
  encrypt key plaintext = do
    (status, octets) ← on_link (L.command op_le_encrypt (reverse key ++ reverse plaintext))
    pure (reverse (take 16 octets))

  -- The loop of `random16`, with `out` so far; `none` when it has not ended after that many rounds.
  pub random_from : ℕ → List ℕ → Script (Peripheral W) (Option (List ℕ))
  random_from zero out = if not (ltb (length out) 16) then pure (some (take 16 out)) else pure none
  random_from (suc n) out = if not (ltb (length out) 16) then pure (some (take 16 out)) else (do
    (status, octets) ← on_link (L.command op_le_rand [])
    random_from n (out ++ take 8 octets))

  -- `random16`
  pub random16 : ℕ → Script (Peripheral W) (Option (List ℕ))
  random16 rounds = random_from rounds []

  -- `c1`
  pub c1 : List ℕ → List ℕ → Script (Peripheral W) (List ℕ)
  c1 key rand = do
    p ← get
    first ← encrypt key (xor16 rand (p.iat ∷ p.rat ∷ (preq_of p ++ p.pres)))
    encrypt key (xor16 first (p.ra ++ (p.ia ++ replicate 4 0)))

  -- `s1`
  pub s1 : List ℕ → List ℕ → List ℕ → Script (Peripheral W) (List ℕ)
  s1 key own_rand peer_rand = encrypt key (take 8 peer_rand ++ take 8 own_rand)

  -- What `feed` does with a Pairing Request, a Pairing Confirm and a Pairing Random. The result tells
  -- whether it has returned: it has not while `random16` is at its loop.
  pub on_request : List ℕ → Script (Peripheral W) Bool
  on_request payload = do
    modify (λ p. record p {
      started = true;
      preq = some (take 7 payload);
      pres = pairing_response ∷ io_no_input_no_output ∷ 0 ∷ 0 ∷ max_key_size ∷ 0 ∷ 0 ∷ [];
    })
    p ← get
    send p.pres
    pure true

  pub answer_confirm : List ℕ → Script (Peripheral W) Bool
  answer_confirm own = do
    modify (λ p. record p { own_random = some own })
    p ← get
    confirm ← c1 p.tk own
    send (pairing_confirm ∷ confirm)
    pure true

  pub take_confirm : ℕ → List ℕ → Script (Peripheral W) Bool
  take_confirm rounds payload = do
    modify (λ p. record p { peer_confirm = slice payload 1 17 })
    own ← random16 rounds
    elim own [ none ↦ pure false | some r ↦ answer_confirm r ]

  pub on_confirm : ℕ → List ℕ → Script (Peripheral W) Bool
  on_confirm rounds payload p = elim p.preq [
    | none ↦ pure true p
    | some preq ↦ take_confirm rounds payload p
  ]

  pub refuse : Script (Peripheral W) Bool
  refuse = do
    modify (λ p. record p { failed = some confirm_mismatch })
    send (pairing_failed ∷ err_confirm_failed ∷ [])
    pure true

  pub derive : List ℕ → List ℕ → Script (Peripheral W) Bool
  derive own peer = do
    p ← get
    key ← s1 p.tk own peer
    modify (λ p. record p { stk = some key })
    send (pairing_random ∷ own)
    pure true

  pub check_random : List ℕ → List ℕ → Script (Peripheral W) Bool
  check_random own peer = do
    modify (λ p. record p { peer_random = peer })
    p ← get
    confirm ← c1 p.tk peer
    (if not (bytes_eq confirm p.peer_confirm) then refuse else derive own peer)

  pub on_random : List ℕ → Script (Peripheral W) Bool
  on_random payload p = elim p.own_random [
    | none ↦ pure true p
    | some own ↦ check_random own (slice payload 1 17) p
  ]

  pub on_failed : List ℕ → Script (Peripheral W) Bool
  on_failed payload = do
    modify (λ p. record p { failed = some (peer_failed (get_or payload 1 0)) })
    pure true

  -- `feed`
  pub feed : ℕ → List ℕ → ℕ → Script (Peripheral W) Bool
  feed rounds [] cid = pure true
  feed rounds (code ∷ rest) cid =
      let payload = code ∷ rest in
      if not (cid == cid_smp)
      then pure true
      else if (code == pairing_request) && leb 7 (length payload)
      then on_request payload
      else if (code == pairing_confirm) && leb 17 (length payload)
      then on_confirm rounds payload
      else if (code == pairing_random) && leb 17 (length payload)
      then on_random payload
      else if (code == pairing_failed) && leb 2 (length payload)
      then on_failed payload
      else pure true
