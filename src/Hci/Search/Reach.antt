-- ===== src/Hci/Search/Reach.antt =====
-- The loop reaches an answer that is pending or that the wire gives, when it has time for what is
-- before it.
use hci_controller.Base.{
  length, All, Result, ok, err, ℕ, zero, suc, ◌+◌, ◌<◌, ◌≡◌, refl, sym, subst, Option, none, some,
  List, [], ◌∷◌, ◌++◌, append-nil, append_assoc, arith,
}
use hci_controller.Transport.Packet.{Packet}
use hci_controller.Hci.{Hci, read_wire}
use hci_controller.Hci.Search.{Found, search, IsOther}
use hci_controller.Hci.Steps.{packets_of, read_wire-pending, silent_result, silent_hci}

-- `on_event` does not raise on the packet.
abbrev pub IsSound : Packet → Type 0
IsSound p = (h : Hci) → (read_wire (ok (some p)) h).result ≡ ok (some p)

module _ {A : Type 0} (pick : Packet → Result (Option A)) where
  -- A read that gives nothing, or a packet that is not the answer.
  abbrev pub IsQuiet : Result (Option Packet) → Type 0
  IsQuiet r = elim r [ err e ↦ ⊥ | ok none ↦ Unit {0} | ok (some p) ↦ IsOther pick p × IsSound p ]

  module _ (x : Packet) (a : A) (hx : pick x ≡ ok (some a)) where
    pub search_pending :
        (turns : ℕ) (reads : List (Result (Option Packet))) (ds pre post : List Packet) (h : Hci)
        → All (IsOther pick) pre
        → length pre < turns
        → search pick turns reads ds (record h { pending = pre ++ (x ∷ post) }) ≡ record {
          result = ok (some a);
          deferred = ds ++ pre;
          hci = record h { pending = post };
          reads = reads;
        }
    unfolding search
    search_pending zero reads ds pre post h hs lt = absurd (omega arith)
    search_pending (suc turns) reads ds [] post h hs lt = rw (search, hx, append-nil ds) refl
    search_pending (suc turns) reads ds (p ∷ pre) post h hs lt =
        rw (search, hs.0)
          (rw (search_pending turns reads (ds ++ (p ∷ [])) pre post h hs.1 (omega arith))
            (rw (append_assoc ds (p ∷ []) pre) refl))

    -- The loop has found the answer, with the packets `others` put aside and `more` still to read.
    abbrev pub Reached : List Packet → List (Result (Option Packet)) → Found A → Type 0
    Reached others more o =
        (o.result ≡ ok (some a)) × (o.deferred ≡ others) × (o.hci.pending ≡ []) × (o.reads ≡ more)

    pub search_wire :
        (turns : ℕ) (rs more : List (Result (Option Packet))) (ds ps : List Packet) (h : Hci)
        → All (IsOther pick) ps
        → All IsQuiet rs
        → IsSound x
        → length ps + length rs < turns
        → Reached
            ((ds ++ ps) ++ packets_of rs)
            more
            (search pick turns (rs ++ (ok (some x) ∷ more)) ds (record h { pending = ps }))
    unfolding search
    search_wire zero rs more ds ps h hs hr sound lt = absurd (omega arith)
    search_wire (suc turns) rs more ds (p ∷ ps) h hs hr sound lt =
        rw (search, hs.0)
          (subst
            (λ d. Reached (d ++ packets_of rs) more (
              search pick turns (rs ++ (ok (some x) ∷ more)) (ds ++ (p ∷ []))
                (record h { pending = ps })))
            (append_assoc ds (p ∷ []) ps)
            (search_wire turns rs more (ds ++ (p ∷ [])) ps h hs.1 hr sound (omega arith)))
    search_wire (suc turns) [] more ds [] h hs hr sound lt =
        let h0 : Hci = record h { pending = [] } in
        rw (search, sound h0, hx, read_wire-pending (ok (some x)) h0, append-nil, append-nil)
          (refl, refl, refl, refl)
    search_wire (suc turns) (err e ∷ rs) more ds [] h hs hr sound lt = absurd hr.0
    search_wire (suc turns) (ok none ∷ rs) more ds [] h hs hr sound lt =
        rw
          (
            search,
            silent_result (record h { pending = [] }),
            silent_hci (record h { pending = [] }),
          )
          (search_wire turns rs more ds [] h tt hr.1 sound (omega arith))
    search_wire (suc turns) (ok (some p) ∷ rs) more ds [] h hs hr sound lt =
        let h0 : Hci = record h { pending = [] } in
        let later = read_wire (ok (some p)) h0 in
        rw (search, hr.0.1 h0, hr.0.0)
          (subst
            (λ q. Reached ((ds ++ []) ++ (p ∷ packets_of rs)) more (
              search pick turns (rs ++ (ok (some x) ∷ more)) (ds ++ (p ∷ []))
                (record later.hci { pending = q })))
            (sym (read_wire-pending (ok (some p)) h0))
            (subst
              (λ d. Reached d more (
                search pick turns (rs ++ (ok (some x) ∷ more)) (ds ++ (p ∷ []))
                  (record later.hci { pending = [] })))
              (rw (append-nil (ds ++ (p ∷ [])), append-nil ds)
                (append_assoc ds (p ∷ []) (packets_of rs)))
              (search_wire turns rs more (ds ++ (p ∷ [])) [] later.hci tt hr.1 sound
                (omega arith))))
