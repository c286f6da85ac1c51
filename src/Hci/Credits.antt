-- ===== src/Hci/Credits.antt =====
-- Number Of Completed Packets (Vol 4 Part E 7.7.19) and the ACL credits of `Hci`.
use hci_controller.Base.{
  le→ltb, length, All, ◌+ℤ◌, ℤ, u16, from_little-u16, ok, pos, negsuc, ℕ, ◌+◌, ◌<◌, ◌≡◌, sym, ap,
  ap₂, ◌∙◌, List, [], ◌∷◌, ◌++◌, arith,
}
use hci_controller.Hci.{
  Hci, Outcome, on_event, count_completed, note_disconnection, note_ltk_request, note_encryption,
  evt_num_completed_packets,
}

-- A handle and how many of its packets have been completed.
pub record Entry : Type 0 where
  pub handle : ℕ
  pub count : ℕ

abbrev pub entries : List Entry → List ℕ
entries [] = []
entries (e ∷ es) = u16 e.handle ++ (u16 e.count ++ entries es)

abbrev pub total : List Entry → ℕ
total [] = 0
total (e ∷ es) = e.count + total es

pub +ℤ-pos : (z : ℤ) (a b : ℕ) → z +ℤ pos a +ℤ pos b ≡ z +ℤ pos (a + b)
+ℤ-pos (pos z) a b = ap pos (omega arith)
+ℤ-pos (negsuc z) a b = ground arith

pub +ℤ-zero : (z : ℤ) → z +ℤ pos 0 ≡ z
+ℤ-zero (pos z) = ap pos (omega arith)
+ℤ-zero (negsuc z) = ground arith

-- An event that has been taken, with the two counts that it leaves.
abbrev pub counted : ℤ → ℕ → Hci → Outcome (Unit {0})
counted credits completed h = record {
  result = ok tt;
  hci = record h { acl_credits = credits; acl_completed = completed };
}

count_completed-entries :
    (es : List Entry) (h : Hci)
    → All (λ e. e.count < 65536) es
    → count_completed (length es) (entries es) h
      ≡ counted (h.acl_credits +ℤ pos (total es)) (h.acl_completed + total es) h
unfolding count_completed
count_completed-entries [] h hs =
    ap₂ (λ z n. counted z n h) (sym (+ℤ-zero h.acl_credits)) (omega arith)
count_completed-entries (e ∷ es) h hs =
    let h' : Hci = record h {
      acl_credits = h.acl_credits +ℤ pos e.count;
      acl_completed = h.acl_completed + e.count;
    } in
    rw (le→ltb (length (entries (e ∷ es))) 4 (omega arith), from_little-u16 e.count hs.0)
      (count_completed-entries es h' hs.1
        ∙ ap₂ (λ z n. counted z n h) (+ℤ-pos h.acl_credits e.count (total es)) (omega arith))

-- Number Of Completed Packets for any handles, with counts of 16 bits, adds the packets of all of them
-- to the credits and to the packets completed, and changes nothing else.
pub on_event-entries :
    (es : List Entry) (h : Hci)
    → All (λ e. e.count < 65536) es
    → on_event evt_num_completed_packets (length es ∷ entries es) h
      ≡ counted (h.acl_credits +ℤ pos (total es)) (h.acl_completed + total es) h
unfolding on_event note_disconnection note_ltk_request note_encryption
on_event-entries es h hs =
    rw (le→ltb (length (length es ∷ entries es)) 1 (omega arith)) (count_completed-entries es h hs)
