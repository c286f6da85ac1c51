-- ===== src/Smp/Toolbox.antt =====
-- The toolbox of python/hcicontroller/smp_central.py: the functions f4, f5, f6 and g2, the method
-- table and the codes. All octet strings are in wire order, as in the source.
use hci_controller.Base.{
  length, get_or, take, length-reverse, from_little, ℕ, ◌%◌, ◌≡◌, ◌∙◌, Bool, true, false, Option,
  some, List, [], ◌∷◌, ◌++◌,
}
use mathlib.Core.List.{reverse}
use mathlib.Core.Option

-- What the `cryptography` package gives: AES-CMAC of a key and a message, most significant octet
-- first, and the P-256 key exchange of a private key with a point (`none` is the ValueError of a
-- point that is not on the curve).
pub record Crypto : Type 0 where
  pub aes_cmac : List ℕ → List ℕ → List ℕ
  pub exchange : ℕ → ℕ → ℕ → Option (List ℕ)

-- `KeyPair`: the private key, and the public point in wire order.
pub record KeyPair : Type 0 where
  pub private : ℕ
  pub x : List ℕ
  pub y : List ℕ

abbrev pub rev : List ℕ → List ℕ
rev = reverse

module _ (C : Crypto) where
  unfoldable pub f4 : List ℕ → List ℕ → List ℕ → List ℕ → List ℕ
  f4 u v x z = rev (C.aes_cmac (rev x) (rev u ++ (rev v ++ z)))

  abbrev salt : List ℕ
  salt =
      0x6C ∷ 0x88 ∷ 0x83 ∷ 0x91 ∷ 0xAA ∷ 0xF5 ∷ 0xA5 ∷ 0x38 ∷ 0x60 ∷ 0x37 ∷ 0x0B ∷ 0xDB ∷ 0x5A
      ∷ 0x60 ∷ 0x83 ∷ 0xBE ∷ []

  abbrev key_id : List ℕ
  key_id = 0x62 ∷ 0x74 ∷ 0x6C ∷ 0x65 ∷ []

  -- `block` of f5
  f5_block : List ℕ → List ℕ → List ℕ → List ℕ → List ℕ → ℕ → List ℕ
  f5_block t n1 n2 a1 a2 counter =
      C.aes_cmac t
        (counter ∷ (key_id ++ (rev n1 ++ (rev n2 ++ (rev a1 ++ (rev a2 ++ (0x01 ∷ 0x00 ∷ [])))))))

  -- `(MacKey, LTK)`
  unfoldable pub f5 : List ℕ → List ℕ → List ℕ → List ℕ → List ℕ → List ℕ × List ℕ
  unfolding f5_block
  f5 w n1 n2 a1 a2 =
      let t = C.aes_cmac salt (rev w) in
      (rev (f5_block t n1 n2 a1 a2 0), rev (f5_block t n1 n2 a1 a2 1))

  unfoldable pub f6 : List ℕ → List ℕ → List ℕ → List ℕ → List ℕ → List ℕ → List ℕ → List ℕ
  f6 w n1 n2 r io_cap a1 a2 =
      rev (C.aes_cmac (rev w) (rev n1 ++ (rev n2 ++ (rev r ++ (rev io_cap ++ (rev a1 ++ rev a2))))))

  -- `int.from_bytes(value[-4:], "big")` reads the last four octets from the end.
  unfoldable pub g2 : List ℕ → List ℕ → List ℕ → List ℕ → ℕ
  g2 u v x y = from_little (take 4 (rev (C.aes_cmac (rev x) (rev u ++ (rev v ++ rev y))))) % 1000000

  -- `KeyPair.shared_secret`
  unfoldable pub shared_secret : KeyPair → List ℕ → List ℕ → Option (List ℕ)
  shared_secret k peer_x peer_y =
      Option.map rev (C.exchange k.private (from_little peer_x) (from_little peer_y))

  -- With an AES-CMAC of 16 octets, the values of f4 and f6 have 16 octets.
  pub length-f4 :
      ((k m : List ℕ) → length (C.aes_cmac k m) ≡ 16)
      → (u v x z : List ℕ) → length (f4 u v x z) ≡ 16
  unfolding f4
  length-f4 size u v x z =
      length-reverse (C.aes_cmac (rev x) (rev u ++ (rev v ++ z)))
      ∙ size (rev x) (rev u ++ (rev v ++ z))

  pub length-f6 :
      ((k m : List ℕ) → length (C.aes_cmac k m) ≡ 16)
      → (w n1 n2 r io a b : List ℕ) → length (f6 w n1 n2 r io a b) ≡ 16
  unfolding f6
  length-f6 size w n1 n2 r io a b = length-reverse (C.aes_cmac _ _) ∙ size _ _

unfoldable pub address_form : List ℕ → ℕ → List ℕ
address_form address address_type = address ++ (address_type ∷ [])

pub data Method : Type 0 where
  just_works numeric passkey : Method

-- `_SC_METHOD`, a row for each IO capability of the initiator
abbrev sc_method_rows : List (List Method)
sc_method_rows =
    (just_works ∷ just_works ∷ passkey ∷ just_works ∷ passkey ∷ [])
    ∷ (just_works ∷ numeric ∷ passkey ∷ just_works ∷ numeric ∷ [])
    ∷ (passkey ∷ passkey ∷ passkey ∷ just_works ∷ passkey ∷ [])
    ∷ (just_works ∷ just_works ∷ just_works ∷ just_works ∷ just_works ∷ [])
    ∷ (passkey ∷ numeric ∷ passkey ∷ just_works ∷ numeric ∷ [])
    ∷ []

-- `_SC_METHOD[io_cap][peer_io_cap]`; the callers come to it with numbers up to 4 only
unfoldable pub sc_method : ℕ → ℕ → Method
sc_method i r = get_or (get_or sc_method_rows i []) r just_works

abbrev pub method_numeric : Option Method → Bool
method_numeric (some numeric) = true
method_numeric _ = false

abbrev pub is_passkey : Method → Bool
is_passkey passkey = true
is_passkey _ = false

abbrev pub auth_mitm : ℕ
auth_mitm = 0x04

abbrev pub auth_sc : ℕ
auth_sc = 0x08

-- The texts of `failure`, one constructor for each.
pub data Failure : Type 0 where
  peer_failed : Option ℕ → Failure
  legacy peer_oob bad_key_size io_out_of_range passkey_refused : Failure
  confirm_mismatch check_mismatch rejected protocol : Failure
