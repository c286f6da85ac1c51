-- ===== src/Hci/Search/Conserve.antt =====
-- The loop loses no packet: what was there and what has arrived is put aside, found or still pending,
-- in order.
use hci_controller.Base.{
  All, Result-cases, Result, ok, err, ℕ, zero, suc, ◌≡◌, refl, sym, ap, subst, ◌∙◌, inl, inr,
  Option, none, some, List, [], ◌∷◌, ◌++◌, append-nil, append_assoc,
}
use hci_controller.Transport.Packet.{Packet}
use hci_controller.Hci.{Hci, read_wire}
use hci_controller.Hci.Search.{Found, search, IsOther}
use hci_controller.Hci.Steps.{packets_of, packets_of-append, read_wire-pending, read_wire-Passes}

module _ {A : Type 0} (pick : Packet → Result (Option A)) where
  -- Where the packets `all` are when the loop ends without a raise.
  abbrev pub Account : List Packet → Found A → Type 0
  Account all o = elim o.result [
    | err e ↦ Unit {0}
    | ok none ↦ all ≡ o.deferred ++ o.hci.pending
    | ok (some a) ↦
        (x : Packet) × (pick x ≡ ok (some a)) × (all ≡ o.deferred ++ (x ∷ o.hci.pending))
  ]

  -- The loop, entered with the packets `seen` put aside or pending, has made the reads `used`.
  abbrev pub Conserves : List Packet → List (Result (Option Packet)) → Found A → Type 0
  Conserves seen reads o =
      (used : List (Result (Option Packet))) × (reads ≡ used ++ o.reads)
      × All (IsOther pick) o.deferred
      × Account (seen ++ packets_of used) o

  All-snoc :
      (ps : List Packet) (p : Packet)
      → All (IsOther pick) ps
      → IsOther pick p
      → All (IsOther pick) (ps ++ (p ∷ []))
  All-snoc [] p hs h = (h, tt)
  All-snoc (q ∷ ps) p hs h = (hs.0, All-snoc ps p hs.1 h)

  moved :
      (o : Found A) (ds ps : List Packet) (p : Packet) (reads : List (Result (Option Packet)))
      → Conserves ((ds ++ (p ∷ [])) ++ ps) reads o
      → Conserves (ds ++ (p ∷ ps)) reads o
  moved o ds ps p reads c = subst (λ s. Conserves s reads o) (append_assoc ds (p ∷ []) ps) c

  arrived :
      (o : Found A) (seen : List Packet) (r : Result (Option Packet))
      (rs : List (Result (Option Packet)))
      → Conserves (seen ++ packets_of (r ∷ [])) rs o
      → Conserves seen (r ∷ rs) o
  arrived o seen r rs (used, split, others, account) = (
    r ∷ used,
    ap (◌∷◌ r) split,
    others,
    subst (λ s. Account s o)
        (append_assoc seen (packets_of (r ∷ [])) (packets_of used)
          ∙ ap (λ t. seen ++ t) (sym (packets_of-append (r ∷ []) used)))
        account,
  )

  -- The reads of the wire start where nothing is pending, and leave nothing pending.
  after_read :
      (o : Found A) (ds : List Packet) (r : Result (Option Packet))
      (rs : List (Result (Option Packet))) (h : Hci)
      → h.pending ≡ []
      → Conserves ((ds ++ packets_of (r ∷ [])) ++ (read_wire r h).hci.pending) rs o
      → Conserves (ds ++ []) (r ∷ rs) o
  after_read o ds r rs h e c = arrived o (ds ++ []) r rs (
      subst (λ s. Conserves s rs o)
        (ap (λ q. (ds ++ packets_of (r ∷ [])) ++ q) (read_wire-pending r h ∙ e)
          ∙ append-nil (ds ++ packets_of (r ∷ []))
          ∙ ap (λ d. d ++ packets_of (r ∷ [])) (sym (append-nil ds)))
        c)

  conserves :
      (turns : ℕ) (reads : List (Result (Option Packet))) (ds q : List Packet) (h : Hci)
      → All (IsOther pick) ds
      → Conserves (ds ++ q) reads (search pick turns reads ds (record h { pending = q }))
  unfolding search
  conserves zero reads ds q h hs = ([], refl, hs, append-nil (ds ++ q))
  conserves (suc turns) reads ds (p ∷ ps) h hs = elim (Result-cases (pick p)) [
    | inl (x, f) ↦ rw (search, f) ([], refl, hs, tt)
    | inr (none, f) ↦
        rw (search, f)
          (moved (search pick turns reads (ds ++ (p ∷ [])) (record h { pending = ps })) ds ps p
            reads (conserves turns reads (ds ++ (p ∷ [])) ps h (All-snoc ds p hs f)))
    | inr (some a, f) ↦ rw (search, f) ([], refl, hs, (p, f, append-nil (ds ++ (p ∷ ps))))
  ]
  conserves (suc turns) [] ds [] h hs = conserves turns [] ds [] h hs
  conserves (suc turns) (err e ∷ rs) ds [] h hs =
      let h0 : Hci = record h { pending = [] } in
      elim (read_wire-Passes (err e) h0) [
        | inl (x, f) ↦ rw (search, f) (err e ∷ [], refl, hs, tt)
        | inr f ↦ rw (search, f) (err e ∷ [], refl, hs, tt)
      ]
  conserves (suc turns) (ok none ∷ rs) ds [] h hs =
      let h0 : Hci = record h { pending = [] } in
      let o = read_wire (ok none) h0 in
      elim (read_wire-Passes (ok none) h0) [
        | inl (x, f) ↦ rw (search, f) (ok none ∷ [], refl, hs, tt)
        | inr f ↦
            rw (search, f)
              (after_read (search pick turns rs ds o.hci) ds (ok none) rs h0 refl (
                subst (λ d. Conserves (d ++ o.hci.pending) rs (search pick turns rs ds o.hci))
                  (sym (append-nil ds)) (conserves turns rs ds o.hci.pending o.hci hs)))
      ]
  conserves (suc turns) (ok (some p) ∷ rs) ds [] h hs =
      let h0 : Hci = record h { pending = [] } in
      let o = read_wire (ok (some p)) h0 in
      elim (read_wire-Passes (ok (some p)) h0) [
        | inl (x, f) ↦ rw (search, f) (ok (some p) ∷ [], refl, hs, tt)
        | inr f ↦ elim (Result-cases (pick p)) [
          | inl (x, g) ↦ rw (search, f, g) (ok (some p) ∷ [], refl, hs, tt)
          | inr (none, g) ↦
              rw (search, f, g)
                (after_read (search pick turns rs (ds ++ (p ∷ [])) o.hci) ds (ok (some p)) rs h0
                  refl
                  (conserves turns rs (ds ++ (p ∷ [])) o.hci.pending o.hci (All-snoc ds p hs g)))
          | inr (some a, g) ↦
              rw (search, f, g)
                (
                  ok (some p) ∷ [],
                  refl,
                  hs,
                  (p, g, rw (append-nil ds, read_wire-pending (ok (some p)) h0) refl),
                )
        ]
      ]

  pub search-Conserves :
      (turns : ℕ) (reads : List (Result (Option Packet))) (h : Hci)
      → Conserves h.pending reads (search pick turns reads [] h)
  search-Conserves turns reads h = conserves turns reads [] h.pending h tt
