-- ===== src/Hci/Search.antt =====
-- The loop that `Hci.command` and the waits of hci_ble_test.py share: packets are taken from the
-- deferred queue first and then from the wire, until one is the answer or the time is up.
pub mod Conserve
pub mod Reach
use hci_controller.Base.{
  Result, ok, err, ℕ, zero, suc, ◌≡◌, Option, none, some, List, [], ◌∷◌, ◌++◌,
}
use hci_controller.Transport.Packet.{Packet}
use hci_controller.Hci.{Hci, read_wire}

-- How the loop ends: what it found (`none` when the time is up), the packets that it has put aside,
-- the object, and the reads that were not made.
pub record Found {ℓ} (A : Type ℓ) : Type ℓ where
  pub result : Result (Option A)
  pub deferred : List Packet
  pub hci : Hci
  pub reads : List (Result (Option Packet))

module _ {ℓ} {A : Type ℓ} (pick : Packet → Result (Option A)) where
  -- The loop puts the packet aside.
  abbrev pub IsOther : Packet → Type ℓ
  IsOther p = pick p ≡ ok none

  -- The loop, where `turns` is how often the clock shows that there is time left. `pick` tells
  -- whether a packet is the answer. A script of reads that ends stands for a silent wire.
  unfoldable pub search : ℕ → List (Result (Option Packet)) → List Packet → Hci → Found A
  search zero reads deferred h = record {
    result = ok none;
    deferred = deferred;
    hci = h;
    reads = reads;
  }
  search (suc turns) reads deferred h = elim h.pending [
    | p ∷ ps ↦
        let h' : Hci = record h { pending = ps } in
        elim (pick p) [
          | err e ↦ record { result = err e; deferred = deferred; hci = h'; reads = reads }
          | ok (some a) ↦ record {
            result = ok (some a);
            deferred = deferred;
            hci = h';
            reads = reads;
          }
          | ok none ↦ search turns reads (deferred ++ (p ∷ [])) h'
        ]
    | [] ↦ elim reads [
      | [] ↦ search turns [] deferred h
      | r ∷ rs ↦
          let o = read_wire r h in
          elim o.result [
            | err e ↦ record { result = err e; deferred = deferred; hci = o.hci; reads = rs }
            | ok none ↦ search turns rs deferred o.hci
            | ok (some p) ↦ elim (pick p) [
              | err e ↦ record { result = err e; deferred = deferred; hci = o.hci; reads = rs }
              | ok (some a) ↦ record {
                result = ok (some a);
                deferred = deferred;
                hci = o.hci;
                reads = rs;
              }
              | ok none ↦ search turns rs (deferred ++ (p ∷ [])) o.hci
            ]
          ]
    ]
  ]
