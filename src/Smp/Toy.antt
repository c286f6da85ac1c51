-- ===== src/Smp/Toy.antt =====
-- A stand-in for the cryptography, with which pairings can be run in tests: a MAC that copies 16
-- octets of its message, and an exchange that multiplies.
use hci_controller.Base.{
  length, take, replicate, length-append, length-take, length-replicate, ℕ, ◌*◌, ◌≡◌, some, List,
  [], ◌∷◌, ◌++◌, arith,
}
use hci_controller.Smp.Toolbox.{Crypto, KeyPair}
use hci_controller.Smp.Central
use hci_controller.Smp.Responder

abbrev pub toy : Crypto
toy = record {
  aes_cmac = λ k m. take 16 (m ++ replicate 16 0);
  exchange = λ private x y. some (private * x ∷ []);
}

pub toy_mac_size : (k m : List ℕ) → length (toy.aes_cmac k m) ≡ 16
toy_mac_size k m = omega (
  arith,
  length-take 16 (m ++ replicate 16 0),
  length-append m (replicate 16 0),
  length-replicate {A = ℕ} 16 0,
)

abbrev pub keypair : ℕ → KeyPair
keypair n = record { private = n; x = n ∷ replicate 31 0; y = replicate 32 n }

abbrev pub address : ℕ → List ℕ
address n = replicate 6 n

-- An initiator at address 1 and a responder at address 2, with these IO capabilities.
abbrev pub central_config : ℕ → Central.Config
central_config io_cap = record {
  local_address = address 1;
  local_type = 0;
  peer_address = address 2;
  peer_type = 1;
  io_cap = io_cap;
  auth_req = 0x0D;
  key_size = 16;
  init_keys = 3;
  resp_keys = 3;
  keypair = keypair 2;
  random = replicate 16 0xA1;
}

abbrev pub responder_config : ℕ → Responder.Config
responder_config io_cap = record {
  local_address = address 2;
  local_type = 1;
  peer_address = address 1;
  peer_type = 0;
  io_cap = io_cap;
  auth_req = 0x0D;
  key_size = 16;
  accept_init_keys = 3;
  resp_keys = 0;
  keypair = keypair 3;
  random = replicate 16 0xB2;
}
