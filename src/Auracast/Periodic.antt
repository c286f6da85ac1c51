-- ===== src/Auracast/Periodic.antt =====
-- A controller that follows LE Set Periodic Advertising Data (Vol 4 Part E 7.8.62) puts the fragments
-- of `periodic_data_commands` together again.
use hci_controller.Base.{
  leb, ◌==◌, if◌then◌else◌, Bool-cases, length, take, drop, All, length-append, take-append-drop,
  length-take, length-drop, ℕ, zero, suc, ◌+◌, ◌-◌, ◌≤◌, ◌<◌, ◌≡◌, refl, sym, ap, ◌∙◌, inl, inr,
  ◌&&◌, Option, none, some, List, [], ◌∷◌, ◌++◌, append-nil, append_assoc, arith,
}
use hci_controller.Auracast.{chunks, fragments, periodic_data_commands}

-- The advertising data that a controller holds: none yet, the first fragments, or all of it.
pub data Held : Type 0 where
  nothing : Held
  partial complete : List ℕ → Held

-- A fragment by its operation. An intermediate or last one needs a first one and must not be empty.
abbrev pub extend : ℕ → List ℕ → Held → Option Held
extend op octets h =
    if op == 0x03
    then some (complete octets)
    else if op == 0x00
    then (if length octets == 0 then none else some (partial octets))
    else elim h [
      | partial acc ↦
          if length octets == 0
          then none
          else if op == 0x01
          then some (partial (acc ++ octets))
          else if op == 0x02
          then some (complete (acc ++ octets))
          else none
      | _ ↦ none
    ]

-- One command; the length must be that of the data, and 252 at most.
abbrev pub set_data : List ℕ → Held → Option Held
set_data (handle ∷ op ∷ n ∷ octets) h =
    if (n == length octets) && leb n 252 then extend op octets h else none
set_data _ h = none

pub set_all : List (List ℕ) → Held → Option Held
set_all [] h = some h
set_all (c ∷ cs) h = elim (set_data c h) [ none ↦ none | some h' ↦ set_all cs h' ]

abbrev concat : List (List ℕ) → List ℕ
concat [] = []
concat (c ∷ cs) = c ++ concat cs

abbrev IsChunk : List ℕ → Type 0
IsChunk c = (0 < length c) × (length c ≤ 252)

chunks-IsChunk : (n : ℕ) (data' : List ℕ) → All IsChunk (chunks n data')
unfolding chunks
chunks-IsChunk zero data' = tt
chunks-IsChunk (suc n) [] = tt
chunks-IsChunk (suc n) (x ∷ xs) = (
  (omega (arith, length-take 252 (x ∷ xs)), omega (arith, length-take 252 (x ∷ xs))),
  chunks-IsChunk n (drop 252 (x ∷ xs)),
)

concat-chunks : (n : ℕ) (data' : List ℕ) → length data' ≤ n → concat (chunks n data') ≡ data'
unfolding chunks
concat-chunks zero [] h = refl
concat-chunks zero (x ∷ xs) h = absurd (omega arith)
concat-chunks (suc n) [] h = refl
concat-chunks (suc n) (x ∷ xs) h =
    ap (λ r. take 252 (x ∷ xs) ++ r)
      (concat-chunks n (drop 252 (x ∷ xs)) (omega (arith, length-drop 252 (x ∷ xs))))
    ∙ take-append-drop 252 (x ∷ xs)

-- The operation of the slice `i` of `count`.
abbrev operation : ℕ → ℕ → ℕ
operation count i = if i == 0 then 0x00 else (if i == count - 1 then 0x02 else 0x01)

operation_last : (count i : ℕ) → 0 < i → count ≡ i + 1 → operation count i ≡ 0x02
operation_last count i later e = ground arith

operation_middle : (count i : ℕ) → 0 < i → i + 1 < count → operation count i ≡ 0x01
operation_middle count i later e = ground arith

-- Each kind of command, with data that fits.
set_only :
    (handle : ℕ) (c : List ℕ) (h : Held)
    → length c ≤ 252
    → set_data (handle ∷ 0x03 ∷ length c ∷ c) h ≡ some (complete c)
set_only handle c h fits = ground arith

set_first :
    (handle : ℕ) (c : List ℕ) (h : Held)
    → IsChunk c
    → set_data (handle ∷ 0x00 ∷ length c ∷ c) h ≡ some (partial c)
set_first handle c h (some_data, fits) = ground arith

set_middle :
    (handle : ℕ) (c acc : List ℕ)
    → IsChunk c
    → set_data (handle ∷ 0x01 ∷ length c ∷ c) (partial acc) ≡ some (partial (acc ++ c))
set_middle handle c acc (some_data, fits) = ground arith

set_last :
    (handle : ℕ) (c acc : List ℕ)
    → IsChunk c
    → set_data (handle ∷ 0x02 ∷ length c ∷ c) (partial acc) ≡ some (complete (acc ++ c))
set_last handle c acc (some_data, fits) = ground arith

-- The commands for the slices after the first one complete what has been set before.
rest_lem :
    (handle count i : ℕ) (c : List ℕ) (cs : List (List ℕ)) (acc : List ℕ)
    → 0 < i
    → count ≡ i + suc (length cs)
    → All IsChunk (c ∷ cs)
    → set_all (fragments handle count i (c ∷ cs)) (partial acc)
      ≡ some (complete (acc ++ concat (c ∷ cs)))
unfolding set_all fragments
rest_lem handle count i c [] acc later size hs =
    rw (operation_last count i later (omega (arith, size)), set_all, set_last handle c acc hs.0)
      (ap (λ d. some (complete (acc ++ d))) (sym (append-nil c)))
rest_lem handle count i c (d ∷ cs) acc later size hs =
    rw (operation_middle count i later (omega (arith, size)), set_all, set_middle handle c acc hs.0)
      (rest_lem handle count (suc i) d cs (acc ++ c) (omega arith) (omega (arith, size)) hs.1
        ∙ ap (λ d. some (complete d)) (append_assoc acc c (concat (d ∷ cs))))

-- The commands for two slices or more.
fragments_lem :
    (handle : ℕ) (c d : List ℕ) (cs : List (List ℕ)) (h : Held)
    → All IsChunk (c ∷ d ∷ cs)
    → set_all (fragments handle (length (c ∷ d ∷ cs)) 0 (c ∷ d ∷ cs)) h
      ≡ some (complete (concat (c ∷ d ∷ cs)))
unfolding set_all fragments
fragments_lem handle c d cs h hs =
    rw (set_all, fragments, set_first handle c h hs.0)
      (rest_lem handle (length (c ∷ d ∷ cs)) 1 d cs c (omega arith) (omega arith) hs.1)

chunked :
    (handle : ℕ) (cs : List (List ℕ)) (h : Held)
    → All IsChunk cs
    → 252 < length (concat cs)
    → set_all (fragments handle (length cs) 0 cs) h ≡ some (complete (concat cs))
chunked handle [] h hs long = absurd (omega arith)
chunked handle (c ∷ []) h hs long = absurd (omega (arith, hs.0.1, length-append c []))
chunked handle (c ∷ d ∷ cs) h hs long = fragments_lem handle c d cs h hs

-- Whatever the data is, its commands are taken one after the other, and leave the controller with the
-- whole data, complete.
pub set_all-periodic_data_commands :
    (handle : ℕ) (data' : List ℕ) (h : Held)
    → set_all (periodic_data_commands handle data') h ≡ some (complete data')
unfolding periodic_data_commands set_all
set_all-periodic_data_commands handle data' h =
    let cs = chunks (length data') data' in
    let whole : concat cs ≡ data' = concat-chunks (length data') data' (omega arith) in
    elim (Bool-cases (leb (length data') 252)) [
      | inl e ↦ rw (e, set_all, set_only handle data' h (ground (arith, e))) refl
      | inr e ↦ rw e (
          chunked handle cs h (chunks-IsChunk (length data') data') (rw whole (ground (arith, e)))
          ∙ ap (λ d. some (complete d)) whole)
    ]
