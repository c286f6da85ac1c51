-- ===== src/Cleanup/Teardown.antt =====
-- `remove_iso_paths`, `drain` and `cleanup` of python/hcicontroller/hci_cis_cleanup.py, on a central and
-- a peripheral controller.
pub mod Sent
pub mod Order
use hci_controller.Base.{
  ltb, if◌then◌else◌, drop, u16, Exn, ok, err, struct_error, value_error, ℕ, zero, suc, true,
  Option, none, some, List, [], ◌∷◌, ◌++◌,
}
use hci_controller.Script.{Script, Ran, ◌>>=◌, ◌>>◌, pure, raise, get, done, rescue, within}
use hci_controller.Hci.Calls.{Device, call, read_packet, next_turns}
use hci_controller.Cleanup

abbrev pub op_disconnect : ℕ
op_disconnect = 0x0406

abbrev pub op_le_set_adv_enable : ℕ
op_le_set_adv_enable = 0x200A

abbrev pub op_le_remove_cig : ℕ
op_le_remove_cig = 0x2065

abbrev pub op_le_remove_iso_data_path : ℕ
op_le_remove_iso_data_path = 0x206F

abbrev pub op_le_set_host_feature : ℕ
op_le_set_host_feature = 0x2074

abbrev pub cis_host_support_bit : ℕ
cis_host_support_bit = 32

abbrev pub disconnect_reason : ℕ
disconnect_reason = 0x13

-- The two controllers.
pub record Pair : Type 0 where
  pub central : Device
  pub peripheral : Device

-- The commands of the teardown.
abbrev pub remove_path : ℕ → ℕ × List ℕ
remove_path cis = (op_le_remove_iso_data_path, u16 cis ++ (0x03 ∷ []))

abbrev pub disconnect : ℕ → ℕ × List ℕ
disconnect handle = (op_disconnect, u16 handle ++ (disconnect_reason ∷ []))

abbrev pub remove_cig : ℕ → ℕ × List ℕ
remove_cig cig_id = (op_le_remove_cig, cig_id ∷ [])

abbrev pub stop_advertising : ℕ × List ℕ
stop_advertising = (op_le_set_adv_enable, 0x00 ∷ [])

abbrev pub clear_host_support : ℕ × List ℕ
clear_host_support = (op_le_set_host_feature, cis_host_support_bit ∷ 0 ∷ [])

-- `wait_disconnected` as a method.
pub wait_link_down : ℕ → Script Device (Unit {0})
wait_link_down handle d =
    let o = Cleanup.wait_disconnected handle (next_turns d.turns) d.reads d.hci in
    record {
      result = elim o.result [ err e ↦ err e | ok b ↦ ok tt ];
      state = record d { hci = o.hci; reads = o.reads; turns = drop 1 d.turns };
    }

-- A packet that is read and dropped, and no exception of the transport.
pub read_away : Script Device (Unit {0})
read_away = rescue (read_packet >>= λ p. done) done

-- `drain`, for as many rounds as the clock allows.
pub drain : ℕ → Script Pair (Unit {0})
drain zero = done
drain (suc n) =
    within (λ p. p.central) (λ d p. record p { central = d }) read_away
    >> (within (λ p. p.peripheral) (λ d p. record p { peripheral = d }) read_away >> drain n)

module _ (write_central write_peripheral : List ℕ → Option Exn) where
  -- A command of one side, in the `try` that stands around each of them.
  pub tell_central : ℕ × List ℕ → Script Pair (Unit {0})
  tell_central (opcode, payload) =
      within (λ p. p.central) (λ d p. record p { central = d })
        (rescue (call write_central opcode payload true >>= λ a. done) done)

  pub tell_peripheral : ℕ × List ℕ → Script Pair (Unit {0})
  tell_peripheral (opcode, payload) =
      within (λ p. p.peripheral) (λ d p. record p { peripheral = d })
        (rescue (call write_peripheral opcode payload true >>= λ a. done) done)

  -- A statement under `if x is not None`.
  abbrev pub given : Option ℕ → (ℕ → Script Pair (Unit {0})) → Script Pair (Unit {0})
  given none f = done
  given (some x) f = f x

  -- A handle of 16 bits and an identifier of 8, which `struct.pack` and `bytes` ask for.
  abbrev pub packed : ℕ → Script Pair (Unit {0}) → Script Pair (Unit {0})
  packed handle m = if ltb 65535 handle then raise struct_error else m

  abbrev pub octet : ℕ → Script Pair (Unit {0}) → Script Pair (Unit {0})
  octet value m = if ltb 255 value then raise value_error else m

  abbrev pub wait_central : ℕ → Script Pair (Unit {0})
  wait_central handle =
      within (λ p. p.central) (λ d p. record p { central = d }) (wait_link_down handle)

  abbrev pub wait_peripheral : ℕ → Script Pair (Unit {0})
  wait_peripheral handle =
      within (λ p. p.peripheral) (λ d p. record p { peripheral = d }) (wait_link_down handle)

  -- `cleanup`, with the rounds of `drain`
  pub cleanup : ℕ → Option ℕ → Option ℕ → Option ℕ → Option ℕ → Option ℕ → Script Pair (Unit {0})
  cleanup rounds cig_id central_cis peripheral_cis central_acl peripheral_acl = do
    given central_cis (λ cis. packed cis (tell_central (remove_path cis)))
    given peripheral_cis (λ cis. packed cis (tell_peripheral (remove_path cis)))
    given central_cis (λ cis. packed cis (tell_central (disconnect cis)))
    drain rounds
    given cig_id (λ cig. octet cig (tell_central (remove_cig cig)))
    given central_acl (λ acl. packed acl (tell_central (disconnect acl)))
    given peripheral_acl (λ acl. packed acl (tell_peripheral (disconnect acl)))
    tell_peripheral stop_advertising
    given central_acl wait_central
    given peripheral_acl wait_peripheral
    tell_central clear_host_support
    tell_peripheral clear_host_support
