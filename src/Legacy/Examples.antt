-- ===== src/Legacy/Examples.antt =====
-- Legacy pairing at concrete inputs, with a block cipher that is no more than an exclusive or.
use hci_controller.Base.{
  ◌==◌, if◌then◌else◌, bytes_eq, length, take, drop, replicate, length-append, take-append_of_eq,
  drop-append_of_eq, length-take, Exn, ℕ, suc, ◌%◌, ◌≡◌, refl, sym, ap₂, Option, none, some, List,
  [], ◌∷◌, ◌++◌, arith,
}
use mathlib.Core.List.{reverse}
use hci_controller.Script.{◌>>=◌, pure}
use hci_controller.Legacy.{
  Link, Peripheral, init, feed, send, encrypt, xor16, on_random, check_random, derive, c1, s1,
  cid_smp, op_le_encrypt, pairing_request, pairing_random,
}
use hci_controller.Hci
use hci_controller.Legacy.Wire.{Chip, Host, hci_link, hci_pairing_agrees}
use hci_controller.Legacy.Reference.{s1_value}
use hci_controller.Legacy.Agreement.{response, zero_key, confirm_value, Served}
use hci_controller.Legacy.Safety.{IsChecked, stk-IsChecked}

abbrev toy_cipher : List ℕ → List ℕ → List ℕ
toy_cipher k b = take 16 (xor16 k b ++ replicate 16 1)

toy_cipher-length : (k b : List ℕ) → length (toy_cipher k b) ≡ 16
toy_cipher-length k b = omega (
  arith,
  length-take 16 (xor16 k b ++ replicate 16 1),
  length-append (xor16 k b) (replicate 16 1),
)

abbrev toy : Link (Unit {0})
toy = record {
  command = λ opcode payload.
      if opcode == op_le_encrypt
      then pure (0, toy_cipher (take 16 payload) (drop 16 payload))
      else pure (0, 1 ∷ 2 ∷ 3 ∷ 4 ∷ 5 ∷ 6 ∷ 7 ∷ 8 ∷ []);
  send_acl = λ handle cid payload. pure tt;
}

-- A controller that counts its commands, and draws its random octets from the count.
abbrev toy_chip : Chip ℕ
toy_chip = record {
  reply = λ c opcode payload.
      if opcode == op_le_encrypt
      then toy_cipher (take 16 payload) (drop 16 payload)
      else c % 256 ∷ 2 ∷ 3 ∷ 4 ∷ 5 ∷ 6 ∷ 7 ∷ 8 ∷ [];
  after = λ c opcode payload. suc c;
}

abbrev wire : List ℕ → Option Exn
wire octets = none

abbrev host : Host ℕ
host = record { hci = Hci.init; idle = refl; chip = 0 }

abbrev address : ℕ → List ℕ
address n = n ∷ 0xA5 ∷ 0xA4 ∷ 0xA3 ∷ 0xA2 ∷ 0xC1 ∷ []

abbrev params : List ℕ
params = 0x04 ∷ 0x00 ∷ 0x05 ∷ 0x10 ∷ 0x00 ∷ 0x00 ∷ []

abbrev answered : Peripheral (Unit {0})
answered = init tt 1 (address 1) 1 (address 2) 1

abbrev confirm_of : List ℕ → List ℕ
confirm_of = confirm_value toy_cipher answered (pairing_request ∷ params)

hci_pairing_agrees_example :
    Served
      (hci_link wire 4 toy_chip)
      toy_cipher
      host
      1
      1
      1
      (address 1)
      (address 2)
      params
      (replicate 16 9)
      0
hci_pairing_agrees_example =
    hci_pairing_agrees wire 4 (λ octets. refl) toy_chip toy_cipher toy_cipher-length
      (λ c k b hk hb.
        ap₂ toy_cipher (take-append_of_eq 16 k b (sym hk)) (drop-append_of_eq 16 k b (sym hk)))
      (λ c. refl) host 1 1 1 (address 1) (address 2) params (replicate 16 9) 0 (omega arith) refl
      refl refl refl

abbrev half_way : Peripheral (Unit {0})
half_way = record answered {
  preq = some (pairing_request ∷ params);
  pres = response;
  own_random = some (replicate 16 7);
  peer_confirm = confirm_of (replicate 16 9);
}

stk-IsChecked_example :
    (rest : List ℕ) × (pairing_random ∷ replicate 16 9 ≡ pairing_random ∷ rest)
    × IsChecked toy half_way (replicate 16 9)
unfolding feed on_random check_random derive c1 s1 encrypt xor16 send ◌>>=◌ bytes_eq
stk-IsChecked_example =
    stk-IsChecked toy 2 cid_smp (pairing_random ∷ replicate 16 9)
      (reverse (s1_value toy_cipher zero_key (replicate 16 7) (replicate 16 9))) half_way refl refl
