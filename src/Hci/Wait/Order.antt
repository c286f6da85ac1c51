-- ===== src/Hci/Wait/Order.antt =====
-- The waits keep the order of the packets that they do not take.
use hci_controller.Base.{
  length, All, Result, ok, err, ℕ, ◌+◌, ◌<◌, ◌≡◌, refl, sym, ◌∙◌, Option, none, some, List, [], ◌∷◌,
  ◌++◌, append-nil,
}
use hci_controller.Transport.Packet.{Packet}
use hci_controller.Hci.{Hci}
use hci_controller.Hci.Steps.{packets_of}
use hci_controller.Hci.Search.{Found, search, IsOther}
use hci_controller.Hci.Search.Conserve.{Account, search-Conserves}
use hci_controller.Hci.Search.Reach.{IsQuiet, IsSound, search_wire}
use hci_controller.Hci.Command.{Ended}
use hci_controller.Hci.Wait.{wait_for, conclude, restore_packets}

restore_packets_lem :
    (h : Hci) (ds : List Packet) → (restore_packets h ds).pending ≡ ds ++ h.pending
unfolding restore_packets
restore_packets_lem h [] = refl
restore_packets_lem h (d ∷ ds) = refl

module _ {A : Type 0} (pick : Packet → Result (Option A)) where
  -- Where a wait with `before` pending that gives `found` has left the packets.
  abbrev pub Kept :
      List Packet → List (Result (Option Packet)) → Option A → Ended (Option A) → Type 0
  Kept before reads found o =
      (used : List (Result (Option Packet))) × (reads ≡ used ++ o.reads) × (elim found [
        | none ↦ o.hci.pending ≡ before ++ packets_of used
        | some a ↦
            (pre : List Packet) × (x : Packet) × (post : List Packet) × (before ++ packets_of used
              ≡ pre ++ (x ∷ post))
            × All (IsOther pick) pre
            × (pick x ≡ ok (some a))
            × (o.hci.pending ≡ pre ++ post)
      ])

  kept :
      (r : Result (Option A)) (ds : List Packet) (h : Hci) (left : List (Result (Option Packet)))
      (before : List Packet) (reads used : List (Result (Option Packet)))
      → let f : Found A = record { result = r; deferred = ds; hci = h; reads = left } in
        (reads ≡ used ++ left)
        → All (IsOther pick) ds
        → Account pick (before ++ packets_of used) f
        → (found : Option A) → (conclude f).result ≡ ok found
        → Kept before reads found (conclude f)
  unfolding conclude
  kept (err x) ds h left before reads used split others account found e = cc
  kept (ok none) ds h left before reads used split others account none e =
      (used, split, restore_packets_lem h ds ∙ sym account)
  kept (ok none) ds h left before reads used split others account (some a) e = cc
  kept (ok (some b)) ds h left before reads used split others account none e = cc
  kept (ok (some b)) ds h left before reads used split others (x, right, all) (some a) e =
      (used, split, (ds, x, h.pending, all, others, right ∙ e, restore_packets_lem h ds))

  -- A wait that returns has made some of the reads. If its time was up, the packets that were pending
  -- and those that the reads gave are pending in order; if it found its event, that is the first one
  -- among them, and the others are pending in order.
  pub wait_for_returned :
      (turns : ℕ) (reads : List (Result (Option Packet))) (h : Hci) (found : Option A)
      → (wait_for pick turns reads h).result ≡ ok found
      → Kept h.pending reads found (wait_for pick turns reads h)
  unfolding wait_for
  wait_for_returned turns reads h found e =
      let f = search pick turns reads [] h in
      let (used, split, others, account) = search-Conserves pick turns reads h in
      kept f.result f.deferred f.hci f.reads h.pending reads used split others account found e

  -- Where no pending packet is the event that a wait is for, and the wire gives it behind reads of
  -- other packets, none of the packets making `on_event` raise, a wait with time for all of them finds
  -- it, leaves the packets that were pending and those before the event pending in order, and what
  -- follows unread.
  pub wait_for_found :
      (turns : ℕ) (rs more : List (Result (Option Packet))) (x : Packet) (a : A) (h : Hci)
      → pick x ≡ ok (some a)
      → IsSound x
      → All (IsOther pick) h.pending
      → All (IsQuiet pick) rs
      → length h.pending + length rs < turns
      → let o = wait_for pick turns (rs ++ (ok (some x) ∷ more)) h in
        (o.result ≡ ok (some a)) × (o.hci.pending ≡ h.pending ++ packets_of rs) × (o.reads ≡ more)
  unfolding wait_for conclude
  wait_for_found turns rs more x a h hx sound others quiet lt =
      let (found, aside, empty, unread) =
        search_wire pick x a hx turns rs more [] h.pending h others quiet sound lt in
      let o = search pick turns (rs ++ (ok (some x) ∷ more)) [] h in
      rw (found, unread)
        (refl, restore_packets_lem o.hci o.deferred ∙ rw (aside, empty) (append-nil _), refl)
