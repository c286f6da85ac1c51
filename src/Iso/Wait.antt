-- ===== src/Iso/Wait.antt =====
-- What `wait_iso` takes for the marker that it waits for.
mod Examples
use hci_controller.Base.{
  ◌==◌, ==_refl, Bool-cases, bytes_eq_refl, bytes_eq→eq, length, All, small_mod, Result-cases,
  Result, ok, ℕ, ◌+◌, ◌≤◌, ◌<◌, ◌≡◌, refl, subst, inl, inr, true, false, Option, none, some, List,
  [], ◌∷◌, ◌++◌, arith,
}
use hci_controller.Transport.Packet.{Packet, h4_iso}
use hci_controller.Hci.{Hci, read_wire}
use hci_controller.Hci.Command.{Ended}
use hci_controller.Hci.Search.{Found, search, IsOther}
use hci_controller.Hci.Search.Conserve.{Account, search-Conserves}
use hci_controller.Hci.Search.Reach.{IsQuiet, IsSound, search_wire}
use hci_controller.Hci.Steps.{packets_of, packet_read}
use hci_controller.Iso.{
  IsoData, iso_packet, parse_iso, marker, match_marker, wait_iso, receive, iso_pb_complete,
  is_valid,
}
use hci_controller.Iso.Marker.{sent_data, parse_iso-iso_packet}

-- The packet tuple of what `send_iso` sends.
abbrev pub sent_packet : ℕ → ℕ → List ℕ → Packet
sent_packet handle sequence sdu = record {
  kind = h4_iso;
  code = none;
  body = iso_packet handle sequence sdu;
}

match_marker-sent_data :
    (handle sequence : ℕ) (sdu : List ℕ)
    → handle < 0x1000
    → match_marker handle sdu (sent_data handle sequence sdu) ≡ ok (some tt)
unfolding match_marker
match_marker-sent_data handle sequence sdu h =
    rw (small_mod handle h, ==_refl handle, ==_refl (length sdu), bytes_eq_refl sdu) refl

marker-sent_packet :
    (handle sequence : ℕ) (sdu : List ℕ)
    → handle < 0x1000
    → length sdu ≤ 0x0FFF
    → marker handle sdu (sent_packet handle sequence sdu) ≡ ok (some tt)
unfolding marker
marker-sent_packet handle sequence sdu h fits =
    rw (parse_iso-iso_packet handle sequence sdu fits)
      (match_marker-sent_data handle sequence sdu h)

-- A packet of ISO data that carries the SDU, whole and valid, for the handle.
abbrev pub Carries : ℕ → List ℕ → Packet → Type 0
Carries handle sdu p =
    (iso : IsoData) × (p.kind ≡ h4_iso)
    × (parse_iso p.body ≡ ok iso)
    × (iso.handle ≡ handle)
    × (iso.pb ≡ iso_pb_complete)
    × (is_valid iso.status ≡ true)
    × (iso.fragment ≡ sdu)

match_marker_lem :
    (handle : ℕ) (sdu : List ℕ) (iso : IsoData)
    → match_marker handle sdu iso ≡ ok (some tt)
    → (iso.handle ≡ handle)
      × (iso.pb ≡ iso_pb_complete)
      × (is_valid iso.status ≡ true)
      × (iso.fragment ≡ sdu)
unfolding match_marker
match_marker_lem handle sdu iso e =
    (ground arith, ground arith, ground arith, bytes_eq→eq iso.fragment sdu (ground arith))

not_marker :
    (handle : ℕ) (sdu : List ℕ) (p : Packet)
    → (p.kind == h4_iso) ≡ false
    → ¬ (marker handle sdu p ≡ ok (some tt))
unfolding marker
not_marker handle sdu p k e = ground arith

marker-Carries :
    (handle : ℕ) (sdu : List ℕ) (p : Packet)
    → marker handle sdu p ≡ ok (some tt)
    → Carries handle sdu p
unfolding marker
marker-Carries handle sdu p e = elim (Bool-cases (p.kind == h4_iso)) [
  | inl k ↦ elim (Result-cases (parse_iso p.body)) [
    | inl (x, f) ↦ absurd (cc (rw (marker, k, f) at e))
    | inr (iso, f) ↦
        let (a, b, c, d) = match_marker_lem handle sdu iso (rw (marker, k, f) at e) in
        (iso, ground (arith, k), f, a, b, c, d)
  ]
  | inr k ↦ absurd (not_marker handle sdu p k e)
]

module _ (handle : ℕ) (sdu : List ℕ) where
  -- A `wait_iso` that returns has made some of the reads, and behind packets that it passed over, among
  -- those pending and those that the reads gave, it has taken a packet of ISO data that carries the
  -- expected SDU, whole and valid, for the handle; what followed is still pending.
  pub wait_iso_returned :
      (turns : ℕ) (reads : List (Result (Option Packet))) (h : Hci)
      → (wait_iso handle sdu turns reads h).result ≡ ok tt
      → let o = wait_iso handle sdu turns reads h in
        (used : List (Result (Option Packet))) × (pre : List Packet) × (x : Packet) × (reads
          ≡ used ++ o.reads)
        × (h.pending ++ packets_of used ≡ pre ++ (x ∷ o.hci.pending))
        × All (IsOther (marker handle sdu)) pre
        × Carries handle sdu x
  unfolding wait_iso receive
  wait_iso_returned turns reads h e =
      let o = search (marker handle sdu) turns reads [] h in
      let (used, split, others, account) = search-Conserves (marker handle sdu) turns reads h in
      elim (Result-cases o.result) [
        | inl (x, f) ↦ absurd (cc (rw f at e))
        | inr (none, f) ↦ absurd (cc (rw f at e))
        | inr (some u, f) ↦
            let (x, right, all) =
              subst
                (λ r.
                  Account (marker handle sdu) (h.pending ++ packets_of used)
                    (record o { result = r }))
                f account in
            (used, o.deferred, x, split, all, others, marker-Carries handle sdu x right)
      ]

  -- Where no pending packet is the marker, and the wire gives a packet that `send_iso` sends for the
  -- handle and the SDU behind reads of other packets, none of which makes `on_event` raise, a
  -- `wait_iso` with time for all of them returns and leaves what follows unread.
  pub wait_iso_sent :
      (sequence turns : ℕ) (rs more : List (Result (Option Packet))) (h : Hci)
      → handle < 0x1000
      → length sdu ≤ 0x0FFF
      → All (IsOther (marker handle sdu)) h.pending
      → All (IsQuiet (marker handle sdu)) rs
      → length h.pending + length rs < turns
      → let o =
          wait_iso handle sdu turns
            (rs ++ (ok (some (sent_packet handle sequence sdu)) ∷ more))
            h in
        (o.result ≡ ok tt) × (o.reads ≡ more)
  unfolding wait_iso receive
  wait_iso_sent sequence turns rs more h small fits others quiet lt =
      let (found, aside, empty, unread) =
        search_wire (marker handle sdu) (sent_packet handle sequence sdu) tt
          (marker-sent_packet handle sequence sdu small fits) turns rs more [] h.pending h others
          quiet (packet_read h4_iso _) lt in
      rw (found, unread) (refl, refl)
