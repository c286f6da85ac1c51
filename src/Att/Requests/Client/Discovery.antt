-- ===== src/Att/Requests/Client/Discovery.antt =====
-- The rounds of a discovery find all of the services.
use hci_controller.Base.{
  ltb, le→ltb, ==_refl, bytes_eq, length, All, length-append, u16, from_little, from_little-u16, ℕ,
  zero, suc, ◌+◌, ◌*◌, ◌≤◌, ◌<◌, ◌≡◌, refl, sym, ap, subst, ◌∙◌, inl, inr, false, none, some, List,
  [], ◌∷◌, ◌++◌, map, append_assoc, arith,
}
use hci_controller.Att.{Server, read_by_group_type_req, read_by_group_type_rsp}
use hci_controller.Att.Requests.{collect, concat, listing, read_by_group_type, group_entry}
use hci_controller.Att.Requests.Fits.{IsMtu}
use hci_controller.Att.Requests.Client.{
  Group, entry, groups, IsOrdered, entries, answer_groups, next_start, discover, answer, IsHandle,
}
use hci_controller.Att.Requests.Client.Taken.{
  from, taken, first_taken, IsSized, IsSmall, collect-first_taken, taken-IsSized, taken-append,
  entries-concat, from-append, next_start-IsOrdered,
}

-- The reply to a request of the client.
answer-listing :
    (s : Server) (start : ℕ)
    → All IsHandle s.attrs
    → start < 65536
    → answer s start
      ≡ listing read_by_group_type_req read_by_group_type_rsp start
          (map entry (first_taken s.mtu (from start (groups s.attrs))))
unfolding answer read_by_group_type collect listing bytes_eq
answer-listing s start hs h =
    let reply_at : ℕ → List ℕ = λ k.
      listing read_by_group_type_req read_by_group_type_rsp k
        (collect s.mtu (group_entry k 0xFFFF) s.attrs 0 none) in
    let computed : answer s start ≡ reply_at (from_little (u16 start)) = refl in
    computed
    ∙ ap reply_at (from_little-u16 start h)
    ∙ ap (listing read_by_group_type_req read_by_group_type_rsp start)
        (collect-first_taken s.mtu start s.attrs hs)

-- The client reads the services of the response.
answer_groups-listing :
    (size start : ℕ) (gs : List Group)
    → 4 ≤ size
    → All IsSmall gs
    → All (IsSized size) gs
    → answer_groups (listing read_by_group_type_req read_by_group_type_rsp start (map entry gs))
      ≡ gs
unfolding listing answer_groups
answer_groups-listing size start [] h small sized = refl
answer_groups-listing size start (g ∷ gs) h small sized =
    let octets = concat (map entry (g ∷ gs)) in
    ap (λ n. entries (length octets) n octets) sized.0
    ∙ entries-concat (length octets) size (g ∷ gs) h small sized (omega arith)

first_taken-cons :
    (mtu start : ℕ) (g : Group) (gs : List Group)
    → IsMtu mtu
    → IsOrdered start (g ∷ gs)
    → first_taken mtu (g ∷ gs) ≡ g ∷ taken mtu (length (entry g)) 1 gs
first_taken-cons mtu start g gs hm o =
    let size = length (entry g) in
    let fits : ltb mtu (2 + 0 * size + size) ≡ false = elim o.3 [
      | inl e ↦ le→ltb mtu (2 + 0 * size + size) (omega (arith, hm, e))
      | inr e ↦ le→ltb mtu (2 + 0 * size + size) (omega (arith, hm, e))
    ] in
    rw (==_refl size, fits) refl

-- The client reads what one response takes of the services that are left.
first_taken_read :
    (mtu start : ℕ) (todo : List Group)
    → IsMtu mtu
    → start < 65536
    → IsOrdered start todo
    → answer_groups (
        listing read_by_group_type_req read_by_group_type_rsp start
          (map entry (first_taken mtu todo)))
      ≡ first_taken mtu todo
first_taken_read mtu start [] hm small o = answer_groups-listing 4 start [] (omega arith) tt tt
first_taken_read mtu start (g ∷ gs) hm small o =
    let size = length (entry g) in
    let (later, split) = taken-append mtu size 0 (g ∷ gs) in
    let next =
      next_start-IsOrdered start (taken mtu size 0 (g ∷ gs)) later small
        (subst (IsOrdered start) split o) in
    answer_groups-listing size start (taken mtu size 0 (g ∷ gs)) (omega arith) next.4
      (taken-IsSized mtu size 0 (g ∷ gs))

module _ (s : Server) (hm : IsMtu s.mtu) (hs : All IsHandle s.attrs) (start : ℕ)
    (small : start < 65536) (before : List Group) (behind : All (λ b. b.0 < start) before) where
  -- What a round finds, when `before` has been found.
  answer_groups-answer :
      (todo : List Group)
      → groups s.attrs ≡ before ++ todo
      → IsOrdered start todo
      → answer_groups (answer s start) ≡ first_taken s.mtu todo
  answer_groups-answer todo e o =
      let ahead : from start (groups s.attrs) ≡ todo =
        ap (from start) e ∙ from-append start before todo behind o in
      ap answer_groups (
        answer-listing s start hs small
        ∙ ap
            (λ gs.
              listing read_by_group_type_req read_by_group_type_rsp start
                (map entry (first_taken s.mtu gs)))
            ahead)
      ∙ first_taken_read s.mtu start todo hm small o

behind-append :
    (start next : ℕ) (before found : List Group)
    → start ≤ next
    → All (λ b. b.0 < start) before
    → All (λ b. b.0 < next) found
    → All (λ b. b.0 < next) (before ++ found)
behind-append start next [] found h b f = f
behind-append start next (x ∷ xs) found h b f =
    (omega (arith, h, b.0), behind-append start next xs found h b.1 f)

discover_rest :
    (s : Server) (n start : ℕ) (before todo : List Group)
    → IsMtu s.mtu
    → All IsHandle s.attrs
    → start < 65536
    → groups s.attrs ≡ before ++ todo
    → All (λ b. b.0 < start) before
    → IsOrdered start todo
    → length todo < n
    → discover n (answer s) start ≡ some todo
unfolding discover
discover_rest s zero start before todo hm hs small e behind o fuel =
    let no : ⊥ = omega (arith, fuel) in elim no [ ]
discover_rest s (suc n) start before [] hm hs small e behind o fuel =
    rw (discover, answer_groups-answer s hm hs start small before behind [] e o) refl
discover_rest s (suc n) start before (g ∷ gs) hm hs small e behind o fuel =
    let found = g ∷ taken s.mtu (length (entry g)) 1 gs in
    let (later, split) = taken-append s.mtu (length (entry g)) 1 gs in
    let got : answer_groups (answer s start) ≡ found =
      answer_groups-answer s hm hs start small before behind (g ∷ gs) e o
      ∙ first_taken-cons s.mtu start g gs hm o in
    let next =
      next_start-IsOrdered start found later small (subst (λ l. IsOrdered start (g ∷ l)) split o) in
    let rest : discover n (answer s) (next_start start found) ≡ some later =
      discover_rest s n (next_start start found) (before ++ found) later hm hs next.2
        (e ∙ ap (λ l. before ++ (g ∷ l)) split ∙ sym (append_assoc before found later))
        (behind-append start (next_start start found) before found next.1 behind next.3) next.0
        (omega (
          arith,
          fuel,
          ap length split,
          length-append (taken s.mtu (length (entry g)) 1 gs) later,
        )) in
    rw (discover, got, got, rest, got) (ap some (ap (◌∷◌ g) (sym split)))

-- A client that asks for the primary services from handle 1 on, and then from behind the last one
-- found, ends after at most one request more than there are services and has found each of them, in
-- order: for an MTU from 23 to 247, handles of 16 bits, and services with UUIDs of 2 or 16 octets whose
-- ranges lie one after the other below 0xFFFF.
pub discover_complete :
    (s : Server) (n : ℕ)
    → IsMtu s.mtu
    → All IsHandle s.attrs
    → IsOrdered 1 (groups s.attrs)
    → length (groups s.attrs) < n
    → discover n (answer s) 1 ≡ some (groups s.attrs)
discover_complete s n hm hs o fuel =
    discover_rest s n 1 [] (groups s.attrs) hm hs (omega arith) refl tt o fuel
