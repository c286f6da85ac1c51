-- ===== src/Att/Requests/Client/Taken.antt =====
-- What one response to Read By Group Type takes of the services, and what a client reads of it.
use hci_controller.Base.{
  ltb, leb, ◌==◌, if◌then◌else◌, le→leb, lt→leb, ==_refl, ==→eq, Bool-cases, Option-cases, length,
  drop, slice, All, length-append, take-append_of_eq, drop-append_of_eq, from_little-u16, ℕ, zero,
  suc, ◌+◌, ◌-◌, ◌*◌, ◌≤◌, ◌<◌, ◌≡◌, refl, sym, ap, ap₂, ◌∙◌, inl, inr, not, none, some, List, [],
  ◌∷◌, ◌++◌, map, arith,
}
use hci_controller.Att.{Attribute}
use hci_controller.Att.Requests.{collect, concat, group_entry}
use hci_controller.Att.Requests.Client.{
  Group, group, entry, groups, IsOrdered, entries, next_start, IsHandle,
}

-- The services from a handle on.
abbrev pub from : ℕ → List Group → List Group
from start [] = []
from start ((first, last, value) ∷ gs) =
    let rest = from start gs in if leb start first then (first, last, value) ∷ rest else rest

-- Those of them that one response takes, after `count` others of `size` octets.
abbrev pub taken : ℕ → ℕ → ℕ → List Group → List Group
taken mtu size count [] = []
taken mtu size count (g ∷ gs) =
    let more = g ∷ taken mtu size (count + 1) gs in
    if not (length (entry g) == size)
    then []
    else if ltb mtu (2 + count * size + size)
    then []
    else more

collect-groups :
    (mtu start : ℕ) (attrs : List Attribute) (count size : ℕ)
    → All IsHandle attrs
    → collect mtu (group_entry start 0xFFFF) attrs count (some size)
      ≡ map entry (taken mtu size count (from start (groups attrs)))
unfolding collect
collect-groups mtu start [] count size h = refl
collect-groups mtu start (a ∷ rest) count size h = elim (Option-cases a.group_end) [
  | inl e ↦ rw (collect, e) (collect-groups mtu start rest count size h.1)
  | inr (last, e) ↦ elim (Bool-cases (leb start a.handle)) [
    | inr f ↦ rw (collect, e, f) (collect-groups mtu start rest count size h.1)
    | inl f ↦ elim (Bool-cases (length (entry (group a.handle last a.value)) == size)) [
      | inr g ↦ rw (collect, e, f, le→leb h.0, g) refl
      | inl g ↦ elim (Bool-cases (ltb mtu (2 + count * size + size))) [
        | inl k ↦ rw (collect, e, f, le→leb h.0, g, k) refl
        | inr k ↦
            rw (collect, e, f, le→leb h.0, g, k)
              (ap (◌∷◌ (entry (group a.handle last a.value)))
                (collect-groups mtu start rest (count + 1) size h.1))
      ]
    ]
  ]
]

-- Those that the response to a request from a handle on takes.
abbrev pub first_taken : ℕ → List Group → List Group
first_taken mtu [] = []
first_taken mtu (g ∷ gs) = taken mtu (length (entry g)) 0 (g ∷ gs)

pub collect-first_taken :
    (mtu start : ℕ) (attrs : List Attribute)
    → All IsHandle attrs
    → collect mtu (group_entry start 0xFFFF) attrs 0 none
      ≡ map entry (first_taken mtu (from start (groups attrs)))
unfolding collect
collect-first_taken mtu start [] h = refl
collect-first_taken mtu start (a ∷ rest) h = elim (Option-cases a.group_end) [
  | inl e ↦ rw (collect, e) (collect-first_taken mtu start rest h.1)
  | inr (last, e) ↦ elim (Bool-cases (leb start a.handle)) [
    | inr f ↦ rw (collect, e, f) (collect-first_taken mtu start rest h.1)
    | inl f ↦
        let size = length (entry (group a.handle last a.value)) in
        elim (Bool-cases (ltb mtu (2 + 0 * size + size))) [
          | inl k ↦ rw (collect, e, f, le→leb h.0, ==_refl size, k) refl
          | inr k ↦
              rw (collect, e, f, le→leb h.0, ==_refl size, k)
                (ap (◌∷◌ (entry (group a.handle last a.value)))
                  (collect-groups mtu start rest 1 size h.1))
        ]
  ]
]

abbrev pub IsSized : ℕ → Group → Type 0
IsSized size g = length (entry g) ≡ size

pub taken-IsSized :
    (mtu size count : ℕ) (gs : List Group) → All (IsSized size) (taken mtu size count gs)
taken-IsSized mtu size count [] = tt
taken-IsSized mtu size count (g ∷ gs) = elim (Bool-cases (length (entry g) == size)) [
  | inr e ↦ rw e tt
  | inl e ↦ elim (Bool-cases (ltb mtu (2 + count * size + size))) [
    | inl f ↦ rw (e, f) tt
    | inr f ↦ rw (e, f) (==→eq (length (entry g)) size e, taken-IsSized mtu size (count + 1) gs)
  ]
]

pub taken-append :
    (mtu size count : ℕ) (gs : List Group)
    → (later : List Group) × (gs ≡ taken mtu size count gs ++ later)
taken-append mtu size count [] = ([], refl)
taken-append mtu size count (g ∷ gs) = elim (Bool-cases (length (entry g) == size)) [
  | inr e ↦ rw e (g ∷ gs, refl)
  | inl e ↦ elim (Bool-cases (ltb mtu (2 + count * size + size))) [
    | inl f ↦ rw (e, f) (g ∷ gs, refl)
    | inr f ↦
        let (later, k) = taken-append mtu size (count + 1) gs in rw (e, f) (later, ap (◌∷◌ g) k)
  ]
]

abbrev pub IsSmall : Group → Type 0
IsSmall (first, last, value) = (first < 65536) × (last < 65536)

pub entries-concat :
    (k size : ℕ) (gs : List Group)
    → 4 ≤ size
    → All IsSmall gs
    → All (IsSized size) gs
    → length (concat (map entry gs)) ≤ k
    → entries k size (concat (map entry gs)) ≡ gs
entries-concat zero size [] h small sized fuel = refl
entries-concat zero size (g ∷ gs) h small sized fuel =
    let no : ⊥ = omega (arith, fuel) in elim no [ ]
entries-concat (suc k) size [] h small sized fuel = refl
entries-concat (suc k) size ((first, last, value) ∷ gs) h small sized fuel =
    let rest = concat (map entry gs) in
    let c : slice (entry (first, last, value) ++ rest) 4 size ≡ value =
      take-append_of_eq (size - 4) value rest (omega (arith, sized.0)) in
    let d : drop size (entry (first, last, value) ++ rest) ≡ rest =
      drop-append_of_eq size (entry (first, last, value)) rest (sym sized.0) in
    let e : entries k size rest ≡ gs =
      entries-concat k size gs h small.1 sized.1 (omega (arith, fuel, length-append value rest)) in
    ap₂ ◌∷◌
      (ap₂ (λ x y. group x y (slice (entry (first, last, value) ++ rest) 4 size))
          (from_little-u16 first small.0.0) (from_little-u16 last small.0.1)
        ∙ ap (group first last) c)
      (ap (entries k size) d ∙ e)

earlier-IsOrdered :
    (low mid : ℕ) (gs : List Group) → low ≤ mid → IsOrdered mid gs → IsOrdered low gs
earlier-IsOrdered low mid [] h o = tt
earlier-IsOrdered low mid (g ∷ gs) h o = (omega (arith, h, o.0), o.1, o.2, o.3, o.4)

pub from-append :
    (start : ℕ) (before todo : List Group)
    → All (λ g. g.0 < start) before
    → IsOrdered start todo
    → from start (before ++ todo) ≡ todo
from-append start [] [] h o = refl
from-append start [] ((first, last, value) ∷ gs) h o = rw (le→leb o.0) (
    ap (◌∷◌ (first, last, value)) (
      from-append start [] gs tt
        (earlier-IsOrdered start (last + 1) gs (omega (arith, o.0, o.1)) (o.4))))
from-append start ((first, last, value) ∷ before) todo h o =
    rw (lt→leb first start h.0) (from-append start before todo h.1 o)

pub next_start-IsOrdered :
    (start : ℕ) (found later : List Group)
    → start < 65536
    → IsOrdered start (found ++ later)
    → IsOrdered (next_start start found) later
      × (start ≤ next_start start found)
      × (next_start start found < 65536)
      × All (λ g. g.0 < next_start start found) found
      × All IsSmall found
next_start-IsOrdered start [] later h o = (o, omega arith, h, tt, tt)
next_start-IsOrdered start ((first, last, value) ∷ gs) later h o =
    let (next, ordered, small, behind, all) =
      next_start-IsOrdered (last + 1) gs later (omega (arith, o.2)) o.4 in
    (
      next,
      omega (arith, o.0, o.1, ordered),
      small,
      (omega (arith, o.1, ordered), behind),
      ((omega (arith, o.1, o.2), omega (arith, o.2)), all),
    )
