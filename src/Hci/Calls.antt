-- ===== src/Hci/Calls.antt =====
-- An `Hci` as an object whose methods are called one after the other, and `Hci.setup` and `Hci.identity`
-- of python/hcicontroller/hci_ble_test_impl.py.
use hci_controller.Base.{
  ltb, ◌==◌, if◌then◌else◌, bytes_eq, length, get_or, take, drop, replicate, slice, u32,
  from_little, Exn, Result, ok, struct_error, pos, ℕ, Bool, true, false, not, ◌&&◌, Option, none,
  some, List, [], ◌∷◌, ◌++◌,
}
use hci_controller.Script.{Script, ◌>>=◌, ◌>>◌, pure, raise, modify, done}
use hci_controller.Transport.Packet.{Packet}
use hci_controller.Hci.{Hci, read_wire}
use hci_controller.Hci.Command

-- A call of `command`: the opcode, the payload, and what it returned or raised.
pub record Call : Type 0 where
  pub opcode : ℕ
  pub payload : List ℕ
  pub result : Result (ℕ × List ℕ)

-- The object, what the transport's reads will give, the turns that the clock allows each of the timed
-- loops to come, the commands that `command` has been called with, and the same calls with what each
-- came to.
pub record Device : Type 0 where
  pub hci : Hci
  pub reads : List (Result (Option Packet))
  pub turns : List ℕ
  pub sent : List (ℕ × List ℕ)
  pub calls : List Call
  pub unsupported : List ℕ

abbrev pub next_turns : List ℕ → ℕ
next_turns [] = 0
next_turns (n ∷ ns) = n

abbrev pub op_reset : ℕ
op_reset = 0x0C03

abbrev pub op_set_event_mask : ℕ
op_set_event_mask = 0x0C01

abbrev pub op_read_bd_addr : ℕ
op_read_bd_addr = 0x1009

abbrev pub op_le_set_event_mask : ℕ
op_le_set_event_mask = 0x2001

abbrev pub op_le_read_buffer_size : ℕ
op_le_read_buffer_size = 0x2002

abbrev pub op_vs_read_static_addresses : ℕ
op_vs_read_static_addresses = 0xFC09

-- `read_packet`, after the pending packet or the read that it takes; a script that has ended stays
-- silent.
unfoldable pub read_packet : Script Device (Option Packet)
read_packet d = elim d.hci.pending [
  | p ∷ rest ↦ record {
    result = ok (some p);
    state = record d { hci = record d.hci { pending = rest } };
  }
  | [] ↦ elim d.reads [
    | [] ↦ record { result = ok none; state = d }
    | r ∷ rs ↦
        let o = read_wire r d.hci in
        record { result = o.result; state = record d { hci = o.hci; reads = rs } }
  ]
]

module _ (write : List ℕ → Option Exn) where
  -- `command` as a method.
  unfoldable pub call : ℕ → List ℕ → Bool → Script Device (ℕ × List ℕ)
  call opcode payload allow_fail d =
      let o = Command.command write (next_turns d.turns) d.reads opcode payload allow_fail d.hci in
      record {
        result = o.result;
        state = record d {
          hci = o.hci;
          reads = o.reads;
          turns = drop 1 d.turns;
          sent = d.sent ++ ((opcode, payload) ∷ []);
          calls =
              d.calls ++ (record { opcode = opcode; payload = payload; result = o.result } ∷ []);
        };
      }

  -- What `setup` takes from the answer of LE Read Buffer Size.
  pub note_buffers : List ℕ → Script Device (Unit {0})
  note_buffers octets =
      let size = from_little (slice octets 0 2) in
      let count = get_or octets 2 0 in
      if ltb (length octets) 3
      then raise struct_error
      else if size == 0
      then done
      else modify (λ d. record d {
        hci = record d.hci { acl_size = size; acl_credits = pos count; acl_advertised = count };
      })

  -- `setup`
  pub setup : Script Device (Unit {0})
  setup = do
    reset ← call op_reset [] false
    mask ← call op_set_event_mask (0xFF ∷ 0xFF ∷ 0xFF ∷ 0xFF ∷ 0xFF ∷ 0xFF ∷ 0xFF ∷ 0x3F ∷ []) false
    le_mask ← call op_le_set_event_mask (0xFF ∷ 0xFF ∷ 0 ∷ 0 ∷ 0 ∷ 0 ∷ 0 ∷ 0 ∷ []) false
    (status, octets) ← call op_le_read_buffer_size [] false
    note_buffers octets

  -- The address that `identity` makes up, with the octets of the time as its seed.
  abbrev pub assigned : ℕ → List ℕ × ℕ
  assigned now = (u32 now ++ (0x5A ∷ 0xEA ∷ []), 0x01)

  -- The end of `identity`: a static random address of the controller, or one made up here.
  pub static_identity : ℕ → ℕ × List ℕ → Script Device (List ℕ × ℕ)
  static_identity now (status, octets) =
      if (status == 0) && not (get_or octets 0 0 == 0)
      then pure (slice octets 1 7, 0x01)
      else if status == 0x01
      then (do
        modify (λ d. record d { unsupported = d.unsupported ++ (op_vs_read_static_addresses ∷ []) })
        pure (assigned now))
      else pure (assigned now)

  -- `identity` without an override: the address and its type.
  pub read_identity : ℕ → Script Device (List ℕ × ℕ)
  read_identity now = do
    (status, octets) ← call op_read_bd_addr [] false
    (if not (bytes_eq (take 6 octets) (replicate 6 0))
        then pure (take 6 octets, 0x00)
        else (do answer ← call op_vs_read_static_addresses [] true; static_identity now answer))

  -- `identity`
  pub identity : ℕ → Option (List ℕ) → Script Device (List ℕ × ℕ)
  identity now none = read_identity now
  identity now (some []) = read_identity now
  identity now (some (x ∷ xs)) = pure (x ∷ xs, 0x01)
