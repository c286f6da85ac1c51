-- ===== src/Att/Feed/Bounds.antt =====
-- What a connection's PDUs leave in a server, whatever they are: its limits, and replies sent whole.
use hci_controller.Base.{
  ◌==◌, Bool-cases, length, take, All, length-take, take_of_le, All-snoc, Result-cases, Exn, ok,
  err, ℕ, ◌+◌, ◌≤◌, ◌≡◌, refl, sym, ap, subst, ◌∙◌, inl, inr, Option, none, some, List, [], ◌∷◌,
  ◌++◌, arith,
}
use hci_controller.Att.{Server, init, cid_att}
use hci_controller.Att.Requests.{handle_request}
use hci_controller.Att.Requests.Fits.{IsMtu, HasUuid, Fits, handle_request-Fits, IsKept}
use hci_controller.Hci.Command.{send_acl}
use hci_controller.Hci.{Hci}
use hci_controller.Att.Feed.{feed, send, transmit}

-- Limits of a server: its MTU, its UUIDs, and the length of what it has sent.
abbrev pub IsBounded : Server → Type 0
IsBounded s = IsMtu s.mtu × All HasUuid s.attrs × All (λ payload. length payload ≤ 247) s.sent

module _ (write : List ℕ → Option Exn) where
  -- The PDUs of a connection, in order; an exception ends it.
  pub serve : Server → List (List ℕ × ℕ) → Server
  serve s [] = s
  serve s ((payload, cid) ∷ later) =
      let o = feed write s payload cid in
      let on = serve o.server later in elim o.result [ err e ↦ o.server | ok u ↦ on ]

  send_kept :
      (s : Server) (payload : List ℕ)
      → ((send write s payload).server.mtu ≡ s.mtu)
        × ((send write s payload).server.attrs ≡ s.attrs)
        × ((send write s payload).server.sent ≡ s.sent ++ (take s.mtu payload ∷ []))
  unfolding send transmit
  send_kept s payload =
      elim (Result-cases (send_acl write s.conn cid_att (take s.mtu payload) s.hci).result) [
        | inl (u, e) ↦ rw (send, transmit, e) (refl, refl, refl)
        | inr (x, e) ↦ rw (send, transmit, e) (refl, refl, refl)
      ]

  -- Of a server with an MTU from 23 to 247 and UUIDs of 2 or 16 octets, when a request on the ATT
  -- channel has a reply, `feed` sends that reply whole: the cut to the MTU takes nothing off, and the
  -- MTU that the request leaves is from 23 to 247 again.
  pub feed_whole :
      (s : Server) (opcode : ℕ) (rest payload : List ℕ) (after : Server)
      → IsMtu s.mtu
      → All HasUuid s.attrs
      → handle_request (record s { requests = s.requests + 1 }) opcode (opcode ∷ rest)
        ≡ ok (after, some payload)
      → ((feed write s (opcode ∷ rest) cid_att).server.sent ≡ after.sent ++ (payload ∷ []))
        × (length payload ≤ after.mtu)
        × IsMtu after.mtu
  unfolding feed
  feed_whole s opcode rest payload after hm hs e =
      let s' : Server = record s { requests = s.requests + 1 } in
      let fits =
        subst (Fits s.sent) e
          (handle_request-Fits s.sent s' (hm, hs, refl) (opcode ∷ rest) opcode) in
      let whole : take after.mtu payload ≡ payload = take_of_le after.mtu payload fits.1 in
      rw e ((send_kept after payload).2 ∙ ap (λ p. after.sent ++ (p ∷ [])) whole, fits.1, fits.0.0)

  send-IsBounded :
      (past : List (List ℕ)) (s : Server) (payload : List ℕ)
      → IsKept past s
      → All (λ p. length p ≤ 247) past
      → IsBounded (send write s payload).server
  send-IsBounded past s payload h ps =
      let kept = send_kept s payload in
      (
        subst IsMtu (sym kept.0) h.0,
        subst (All HasUuid) (sym kept.1) h.1,
        subst (All (λ p. length p ≤ 247))
            (sym (kept.2 ∙ ap (λ q. q ++ (take s.mtu payload ∷ [])) h.2))
            (All-snoc (λ p. length p ≤ 247) past (take s.mtu payload) ps
              (omega (arith, h.0, length-take s.mtu payload))),
      )

  feed-IsBounded :
      (s : Server) (payload : List ℕ) (cid : ℕ)
      → IsBounded s
      → IsBounded (feed write s payload cid).server
  unfolding feed
  feed-IsBounded s [] cid h = h
  feed-IsBounded s (opcode ∷ rest) cid h =
      let s' : Server = record s { requests = s.requests + 1 } in
      let fits = handle_request-Fits s.sent s' (h.0, h.1, refl) (opcode ∷ rest) opcode in
      elim (Bool-cases (cid == cid_att)) [
        | inr f ↦ rw f h
        | inl f ↦ elim (Result-cases (handle_request s' opcode (opcode ∷ rest))) [
          | inl (x, e) ↦ rw (f, e) h
          | inr ((after, none), e) ↦
              let kept = subst (Fits s.sent) e fits in
              rw (f, e) (kept.0, kept.1, subst (All (λ p. length p ≤ 247)) (sym kept.2) h.2)
          | inr ((after, some payload), e) ↦
              rw (f, e) (send-IsBounded s.sent after payload (subst (Fits s.sent) e fits).0 h.2)
        ]
      ]

  serve-IsBounded : (s : Server) (pdus : List (List ℕ × ℕ)) → IsBounded s → IsBounded (serve s pdus)
  unfolding serve
  serve-IsBounded s [] h = h
  serve-IsBounded s ((payload, cid) ∷ later) h =
      let kept = feed-IsBounded s payload cid h in
      elim (Result-cases (feed write s payload cid).result) [
        | inl (x, e) ↦ rw (serve, e) kept
        | inr (u, e) ↦ rw (serve, e) (serve-IsBounded (feed write s payload cid).server later kept)
      ]

  init-IsBounded : (hci : Hci) (handle : ℕ) (name : List ℕ) → IsBounded (init hci handle name)
  init-IsBounded hci handle name = (
    (omega arith, omega arith),
    (
      inl refl,
      (
        inl refl,
        (
          inl refl,
          (
            inl refl,
            (inl refl, (inl refl, (inl refl, (inr refl, (inl refl, (inr refl, (inl refl, tt))))))),
          ),
        ),
      ),
    ),
    tt,
  )

  -- Whatever PDUs reach a new server on whatever channels, up to an exception or their end, its MTU is
  -- from 23 to 247, its UUIDs have 2 or 16 octets, and nothing that it has sent is longer than 247
  -- octets.
  pub serve-init-IsBounded :
      (hci : Hci) (handle : ℕ) (name : List ℕ) (pdus : List (List ℕ × ℕ))
      → IsBounded (serve (init hci handle name) pdus)
  serve-init-IsBounded hci handle name pdus =
      serve-IsBounded (init hci handle name) pdus (init-IsBounded hci handle name)
