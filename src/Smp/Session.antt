-- ===== src/Smp/Session.antt =====
-- A pairing between an initiator and a responder of python/hcicontroller/smp_central.py, over a link
-- that delivers every PDU, once and in order, and a user who accepts the comparison on both sides.
mod Stages
mod Examples
pub mod Agreement
use hci_controller.Base.{◌==◌, if◌then◌else◌, length, drop, Result, ok, err, ℕ, true, List, [], ◌∷◌}
use hci_controller.Smp.Toolbox.{Crypto}
use hci_controller.Smp.Central
use hci_controller.Smp.Central.{Central}
use hci_controller.Smp.Responder
use hci_controller.Smp.Responder.{Responder}

-- Both ends, and how many PDUs of each have reached the other.
pub record Session : Type 0 where
  pub central : Central
  pub responder : Responder
  pub from_central : ℕ
  pub from_responder : ℕ

module _ (C : Crypto) where
  abbrev feed_central : Central → List (List ℕ) → Central
  feed_central c [] = c
  feed_central c (p ∷ ps) = feed_central (Central.feed C c p) ps

  abbrev feed_responder : Responder → List (List ℕ) → Responder
  feed_responder r [] = r
  feed_responder r (p ∷ ps) = feed_responder (Responder.feed C r p) ps

  -- What the initiator has sent and the link still holds reaches the responder.
  pub to_responder : Session → Session
  to_responder s = record s {
    responder = feed_responder s.responder (drop s.from_central s.central.sent);
    from_central = length s.central.sent;
  }

  pub to_central : Session → Session
  to_central s = record s {
    central = feed_central s.central (drop s.from_responder s.responder.sent);
    from_responder = length s.responder.sent;
  }

  abbrev pub round : Session → Session
  round s = to_central (to_responder s)

  abbrev central_or : Central → Result Central → Central
  central_or c (ok c') = c'
  central_or c (err e) = c

  abbrev responder_or : Responder → Result Responder → Responder
  responder_or r (ok r') = r'
  responder_or r (err e) = r

  -- The users look at the two displays, where the initiator shows a number, and accept.
  pub accept : Session → Session
  accept s =
      if s.central.state == Central.wait_user
      then record s {
        central = central_or s.central (Central.user_confirm C s.central true);
        responder = responder_or s.responder (Responder.user_confirm C s.responder true);
      }
      else s

  pub begin : Central.Config → Responder.Config → Session
  begin g h = record {
    central = central_or (Central.init g) (Central.start (Central.init g));
    responder = Responder.init h;
    from_central = 0;
    from_responder = 0;
  }

  -- Features, public keys and commitment, randoms; the users' answers; the checks.
  pub pairing : Central.Config → Responder.Config → Session
  pairing g h = round (accept (round (round (round (begin g h)))))
