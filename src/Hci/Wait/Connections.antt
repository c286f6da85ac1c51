-- ===== src/Hci/Wait/Connections.antt =====
-- `parse_connection` of python/hcicontroller/hci_events.py against the layouts of the Bluetooth
-- specification (Vol 4 Part E 7.7.65.1, 7.7.65.10 and 7.7.65.45).
use hci_controller.Base.{
  ltb, le→ltb, length, slice, length-append, take-append_of_eq, slice_past, u16, from_little,
  from_little-u16, small_mod, ℕ, ◌+◌, ◌<◌, ◌≡◌, refl, sym, ap, ◌∙◌, false, some, List, [], ◌∷◌,
  ◌++◌, append_assoc, arith,
}
use hci_controller.Hci.Wait.{
  Connection, parse_connection, connection_at, le_connection_complete,
  le_enhanced_connection_complete, le_enhanced_connection_complete_v2,
}

-- The three events that tell of a connection. The enhanced ones have two resolvable addresses.
pub data Form : Type 0 where
  legacy : Form
  enhanced enhanced_v2 : List ℕ → Form

abbrev pub subevent : Form → ℕ
subevent legacy = le_connection_complete
subevent (enhanced rpas) = le_enhanced_connection_complete
subevent (enhanced_v2 rpas) = le_enhanced_connection_complete_v2

abbrev pub addresses : Form → List ℕ
addresses legacy = []
addresses (enhanced rpas) = rpas
addresses (enhanced_v2 rpas) = rpas

-- The sizes that the layouts fix.
abbrev pub IsForm : Form → Type 0
IsForm legacy = Unit {0}
IsForm (enhanced rpas) = length rpas ≡ 12
IsForm (enhanced_v2 rpas) = length rpas ≡ 12

abbrev pub IsConnection : Connection → Type 0
IsConnection c =
    (c.handle < 0x1000)
    × (length c.peer ≡ 6)
    × (c.interval < 65536)
    × (c.latency < 65536)
    × (c.timeout < 65536)

-- The event's octets: `peer_type` is a field that the code does not read, `rest` what follows.
abbrev pub body_of : Form → ℕ → Connection → List ℕ → List ℕ
body_of f peer_type c rest =
    subevent f
    ∷ c.status
    ∷ (u16 c.handle
        ++ (c.role
            ∷ peer_type
            ∷ (c.peer
                ++ (addresses f
                    ++ (u16 c.interval ++ (u16 c.latency ++ (u16 c.timeout ++ rest)))))))

-- The octets in front of the interval, and those from there on.
abbrev front : Form → ℕ → Connection → List ℕ
front f peer_type c =
    subevent f ∷ c.status ∷ (u16 c.handle ++ (c.role ∷ peer_type ∷ (c.peer ++ addresses f)))

abbrev triple : Connection → List ℕ → List ℕ
triple c rest = u16 c.interval ++ (u16 c.latency ++ (u16 c.timeout ++ rest))

connection_at-body_of :
    (at : ℕ) (f : Form) (peer_type : ℕ) (c : Connection) (rest : List ℕ)
    → IsConnection c
    → at ≡ 12 + length (addresses f)
    → connection_at at (body_of f peer_type c rest) ≡ c
connection_at-body_of at f peer_type c rest (handle, peer, interval, latency, timeout) e =
    let split : body_of f peer_type c rest ≡ front f peer_type c ++ triple c rest =
      rw (append_assoc c.peer (addresses f) (triple c rest)) refl in
    let size : at ≡ 0 + length (front f peer_type c) =
      omega (arith, length-append c.peer (addresses f)) in
    let field : (k l i j : ℕ)
        → i ≡ k + at
        → j ≡ l + at
        → slice (body_of f peer_type c rest) i j ≡ slice (triple c rest) k l =
      λ k l i j ei ej.
        ap (λ b. slice b i j) split
        ∙ slice_past k l i j (front f peer_type c) (triple c rest) (omega (arith, size))
            (omega (arith, size)) in
    rw
      (
        ap from_little (field 0 2 at (at + 2) (omega arith) (omega arith))
            ∙ from_little-u16 c.interval interval,
        ap from_little (field 2 4 (at + 2) (at + 4) (omega arith) (omega arith))
            ∙ from_little-u16 c.latency latency,
        ap from_little (field 4 6 (at + 4) (at + 6) (omega arith) (omega arith))
            ∙ from_little-u16 c.timeout timeout,
        take-append_of_eq 6 c.peer (addresses f ++ triple c rest) (sym peer),
        from_little-u16 c.handle (omega arith),
        small_mod c.handle handle,
      )
      refl

long_enough :
    (n : ℕ) (f : Form) (peer_type : ℕ) (c : Connection) (rest : List ℕ)
    → IsConnection c
    → n ≡ 18 + length (addresses f)
    → ltb (length (body_of f peer_type c rest)) n ≡ false
long_enough n f peer_type c rest hc e = le→ltb (length (body_of f peer_type c rest)) n (
    omega (
      arith,
      hc.1,
      length-append c.peer (addresses f ++ triple c rest),
      length-append (addresses f) (triple c rest),
    ))

-- The fields of a connection are read back from each of the three events, whatever follows them.
pub parse_connection-body_of :
    (f : Form) (peer_type : ℕ) (c : Connection) (rest : List ℕ)
    → IsForm f
    → IsConnection c
    → parse_connection (body_of f peer_type c rest) ≡ some c
unfolding parse_connection
parse_connection-body_of legacy peer_type c rest hf hc =
    rw (long_enough 18 legacy peer_type c rest hc (omega arith))
      (ap some (connection_at-body_of 12 legacy peer_type c rest hc (omega arith)))
parse_connection-body_of (enhanced rpas) peer_type c rest hf hc =
    rw (long_enough 30 (enhanced rpas) peer_type c rest hc (omega (arith, hf)))
      (ap some (connection_at-body_of 24 (enhanced rpas) peer_type c rest hc (omega (arith, hf))))
parse_connection-body_of (enhanced_v2 rpas) peer_type c rest hf hc =
    rw (long_enough 30 (enhanced_v2 rpas) peer_type c rest hc (omega (arith, hf))) (
      ap some (connection_at-body_of 24 (enhanced_v2 rpas) peer_type c rest hc (omega (arith, hf))))
