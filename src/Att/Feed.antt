-- ===== src/Att/Feed.antt =====
-- `AttServer.feed`, `send` and `notify`.
pub mod Bounds
use hci_controller.Base.{
  ◌==◌, if◌then◌else◌, take, u16, Exn, Result, ok, err, ℕ, ◌+◌, ◌%◌, Bool, true, false, not, Option,
  none, some, List, [], ◌∷◌, ◌++◌,
}
use hci_controller.Hci.{Hci, Outcome}
use hci_controller.Hci.Command.{send_acl}
use hci_controller.Att.{Server, cid_att, handle_value_ntf}
use hci_controller.Att.Requests.{handle_request}

-- A method's result and the server that it leaves.
pub record Served {ℓ} (A : Type ℓ) : Type ℓ where
  pub result : Result A
  pub server : Server

module _ (write : List ℕ → Option Exn) where
  -- `self.hci.send_acl(self.conn, CID_ATT, payload[:self.mtu])`
  pub transmit : Server → List ℕ → Served (Unit {0})
  transmit s payload =
      let cut = take s.mtu payload in
      let o = send_acl write s.conn cid_att cut s.hci in
      record { result = o.result; server = record s { hci = o.hci; sent = s.sent ++ (cut ∷ []) } }

  -- `send`
  pub send : Server → List ℕ → Served (Unit {0})
  unfolding transmit
  send s payload =
      let o = transmit s payload in
      elim o.result [
        | err e ↦ o
        | ok u ↦ record {
          result = ok u;
          server = record o.server { responses = o.server.responses + 1 };
        }
      ]

  -- `feed`
  pub feed : Server → List ℕ → ℕ → Served (Unit {0})
  unfolding send
  feed s [] cid = record { result = ok tt; server = s }
  feed s (opcode ∷ rest) cid =
      let s' : Server = record s { requests = s.requests + 1 } in
      if not (cid == cid_att)
      then record { result = ok tt; server = s }
      else elim (handle_request s' opcode (opcode ∷ rest)) [
        | err e ↦ record { result = err e; server = s' }
        | ok (after, none) ↦ record { result = ok tt; server = after }
        | ok (after, some payload) ↦ send after payload
      ]

  -- `notify`
  pub notify : Server → List ℕ → Served Bool
  unfolding transmit
  notify s text =
      let o = transmit s (handle_value_ntf ∷ (u16 0x0014 ++ text)) in
      if not (s.cccd % 2 == 1) then record { result = ok false; server = s } else elim o.result [
        | err e ↦ record { result = err e; server = o.server }
        | ok u ↦ record {
          result = ok true;
          server = record o.server { notifications = o.server.notifications + 1 };
        }
      ]
