-- ===== src/Auracast/Announcement/Reading.antt =====
-- A receiver's reader of a Basic Audio Announcement.
use hci_controller.Base.{
  ltb, ◌==◌, if◌then◌else◌, Bool-cases, bytes_eq, length, take, drop, take-length_append,
  drop-length_append, u16, u24, from_little, from_little-u24, bind_returns, ok-injective, ok, ℕ,
  zero, suc, ◌+◌, ◌<◌, ◌≡◌, refl, sym, ap, ap₂, ◌∙◌, inl, inr, true, ◌&&◌, ◌||◌, Option, none, some,
  List, [], ◌∷◌, ◌++◌, append_assoc, arith,
}
use hci_controller.Auracast.{ltv, service_data}
use hci_controller.Auracast.Announcement.{Subgroup, octet, bis_octets, subgroup_octets, base}

-- `count` BISes, and the octets behind them.
abbrev pub read_bises : ℕ → List ℕ → Option (List (ℕ × List ℕ) × List ℕ)
read_bises zero octets = some ([], octets)
read_bises (suc n) [] = none
read_bises (suc n) (index ∷ []) = none
read_bises (suc n) (index ∷ size ∷ octets) = elim (read_bises n (drop size octets)) [
  | none ↦ none
  | some (more, rest) ↦ some ((index, take size octets) ∷ more, rest)
]

octet_returns : (value : ℕ) (o : List ℕ) → octet value ≡ ok o → o ≡ value ∷ []
octet_returns value o e = elim (Bool-cases (ltb 255 value)) [
  | inl f ↦ absurd (cc (rw f at e))
  | inr f ↦ sym (ok-injective (value ∷ []) o (rw f at e))
]

bis_octets_returns :
    (index : ℕ) (cfg : List ℕ) (bis : List (ℕ × List ℕ)) (octets : List ℕ)
    → bis_octets ((index, cfg) ∷ bis) ≡ ok octets
    → (more : List ℕ) × (bis_octets bis ≡ ok more) × (octets ≡ index ∷ length cfg ∷ (cfg ++ more))
unfolding bis_octets
bis_octets_returns index cfg bis octets e =
    let (number, n1, e1) = bind_returns (octet index) _ e in
    let (size, n2, e2) = bind_returns (octet (length cfg)) _ e1 in
    let (more, n3, e3) = bind_returns (bis_octets bis) _ e2 in
    (
      more,
      n3,
      sym (ok-injective (number ++ (size ++ (cfg ++ more))) octets e3)
          ∙ ap₂ (λ x y. x ++ (y ++ (cfg ++ more))) (octet_returns index number n1)
              (octet_returns (length cfg) size n2),
    )

-- The octets of a part, which other octets follow.
take_part : (xs ys zs : List ℕ) → take (length xs) ((xs ++ ys) ++ zs) ≡ xs
take_part xs ys zs =
    ap (take (length xs)) (append_assoc xs ys zs) ∙ take-length_append xs (ys ++ zs)

drop_part : (xs ys zs : List ℕ) → drop (length xs) ((xs ++ ys) ++ zs) ≡ ys ++ zs
drop_part xs ys zs =
    ap (drop (length xs)) (append_assoc xs ys zs) ∙ drop-length_append xs (ys ++ zs)

read_bises_next :
    (n index size : ℕ) (octets cfg behind rest : List ℕ) (bis : List (ℕ × List ℕ))
    → take size octets ≡ cfg
    → drop size octets ≡ behind
    → read_bises n behind ≡ some (bis, rest)
    → read_bises (suc n) (index ∷ size ∷ octets) ≡ some ((index, cfg) ∷ bis, rest)
read_bises_next n index size octets cfg behind rest bis t d r = rw (read_bises, d, r, t) refl

bis_octets-read :
    (bis : List (ℕ × List ℕ)) (octets rest : List ℕ)
    → bis_octets bis ≡ ok octets
    → read_bises (length bis) (octets ++ rest) ≡ some (bis, rest)
unfolding bis_octets
bis_octets-read [] octets rest e = ap (λ o. some ([], o ++ rest)) (sym (ok-injective [] octets e))
bis_octets-read ((index, cfg) ∷ bis) octets rest e =
    let (more, n, written) = bis_octets_returns index cfg bis octets e in
    ap (λ o. read_bises (suc (length bis)) (o ++ rest)) written
    ∙ read_bises_next (length bis) index (length cfg) ((cfg ++ more) ++ rest) cfg (more ++ rest)
        rest bis (take_part cfg more rest) (drop_part cfg more rest)
        (bis_octets-read bis more rest n)

-- A subgroup as it was given.
abbrev pub subgroup : List ℕ → List ℕ → List (ℕ × List ℕ) → Subgroup
subgroup cfg meta bis = record { codec_config = cfg; metadata = meta; bis = bis }

-- `count` subgroups; those with a codec other than LC3 are not read.
abbrev pub read_meta : ℕ → List ℕ → List ℕ → Option (Subgroup × List ℕ)
read_meta count cfg [] = none
read_meta count cfg (size ∷ octets) = elim (read_bises count (drop size octets)) [
  | none ↦ none
  | some (bis, rest) ↦ some (subgroup cfg (take size octets) bis, rest)
]

abbrev pub read_subgroup : List ℕ → Option (Subgroup × List ℕ)
read_subgroup (count ∷ codec ∷ c1 ∷ c2 ∷ c3 ∷ c4 ∷ size ∷ octets) =
    if codec == 0x06 then read_meta count (take size octets) (drop size octets) else none
read_subgroup _ = none

abbrev pub read_subgroups : ℕ → List ℕ → Option (List Subgroup)
read_subgroups zero octets = some []
read_subgroups (suc n) octets = elim (read_subgroup octets) [
  | none ↦ none
  | some (g, rest) ↦ elim (read_subgroups n rest) [ none ↦ none | some gs ↦ some (g ∷ gs) ]
]

-- The presentation delay and the subgroups of an AD structure with a Basic Audio Announcement.
abbrev pub read_base : List ℕ → Option (ℕ × List Subgroup)
read_base (size ∷ ad_type ∷ u0 ∷ u1 ∷ d0 ∷ d1 ∷ d2 ∷ count ∷ octets) =
    if bytes_eq (ad_type ∷ u0 ∷ u1 ∷ []) (0x16 ∷ 0x51 ∷ 0x18 ∷ []) && (size == length octets + 7)
    then elim (read_subgroups count octets) [
      | none ↦ none
      | some gs ↦ some (from_little (d0 ∷ d1 ∷ d2 ∷ []), gs)
    ]
    else none
read_base _ = none

subgroup_octets_returns :
    (g : Subgroup) (gs : List Subgroup) (octets : List ℕ)
    → subgroup_octets (g ∷ gs) ≡ ok octets
    → (bises : List ℕ) × (more : List ℕ) × (bis_octets g.bis ≡ ok bises)
      × (subgroup_octets gs ≡ ok more)
      × (octets
          ≡ length g.bis
            ∷ 0x06
            ∷ 0
            ∷ 0
            ∷ 0
            ∷ 0
            ∷ length g.codec_config
            ∷ (g.codec_config ++ (length g.metadata ∷ (g.metadata ++ (bises ++ more)))))
unfolding subgroup_octets
subgroup_octets_returns g gs octets e = elim (Bool-cases (length g.bis == 0)) [
  | inl f ↦ absurd (cc (rw f at e))
  | inr f ↦
      let (count, n1, e1) = bind_returns (octet (length g.bis)) _ (rw f at e) in
      let (cfg_size, n2, e2) = bind_returns (octet (length g.codec_config)) _ e1 in
      let (meta_size, n3, e3) = bind_returns (octet (length g.metadata)) _ e2 in
      let (bises, n4, e4) = bind_returns (bis_octets g.bis) _ e3 in
      let (more, n5, e5) = bind_returns (subgroup_octets gs) _ e4 in
      (
        bises,
        more,
        n4,
        n5,
        sym (ok-injective _ octets e5)
            ∙ ap₃
                (λ x y z.
                  x
                  ++ ((0x06 ∷ 0 ∷ 0 ∷ 0 ∷ 0 ∷ [])
                      ++ (y ++ (g.codec_config ++ (z ++ (g.metadata ++ (bises ++ more)))))))
                (octet_returns _ count n1) (octet_returns _ cfg_size n2)
                (octet_returns _ meta_size n3),
      )
]
  where
    ap₃ :
        (f : List ℕ → List ℕ → List ℕ → List ℕ) {x x' y y' z z' : List ℕ}
        → x ≡ x'
        → y ≡ y'
        → z ≡ z'
        → f x y z ≡ f x' y' z'
    ap₃ f p q r = cc (p, q, r)

read_meta_next :
    (count size : ℕ) (cfg octets meta behind rest : List ℕ) (bis : List (ℕ × List ℕ))
    → take size octets ≡ meta
    → drop size octets ≡ behind
    → read_bises count behind ≡ some (bis, rest)
    → read_meta count cfg (size ∷ octets) ≡ some (subgroup cfg meta bis, rest)
read_meta_next count size cfg octets meta behind rest bis t d r = rw (read_meta, d, r, t) refl

read_subgroup_next :
    (count size : ℕ) (octets cfg behind : List ℕ)
    → take size octets ≡ cfg
    → drop size octets ≡ behind
    → read_subgroup (count ∷ 0x06 ∷ 0 ∷ 0 ∷ 0 ∷ 0 ∷ size ∷ octets) ≡ read_meta count cfg behind
read_subgroup_next count size octets cfg behind t d = ap₂ (read_meta count) t d

subgroup_octets-read :
    (gs : List Subgroup) (octets : List ℕ)
    → subgroup_octets gs ≡ ok octets
    → read_subgroups (length gs) octets ≡ some gs
unfolding subgroup_octets
subgroup_octets-read [] octets e = refl
subgroup_octets-read (g ∷ gs) octets e =
    let (bises, more, n, n', written) = subgroup_octets_returns g gs octets e in
    let part = length g.metadata ∷ (g.metadata ++ (bises ++ more)) in
    let one : read_subgroup octets ≡ some (g, more) =
      ap read_subgroup written
      ∙ read_subgroup_next (length g.bis) (length g.codec_config) (g.codec_config ++ part)
          g.codec_config part (take-length_append g.codec_config part)
          (drop-length_append g.codec_config part)
      ∙ read_meta_next (length g.bis) (length g.metadata) g.codec_config
          (g.metadata ++ (bises ++ more)) g.metadata (bises ++ more) more g.bis
          (take-length_append g.metadata (bises ++ more))
          (drop-length_append g.metadata (bises ++ more)) (bis_octets-read g.bis bises more n) in
    rw (read_subgroups, one, subgroup_octets-read gs more n') refl

service_data_returns :
    (delay count : ℕ) (octets ad : List ℕ)
    → service_data 0x1851 (u24 delay ++ (count ∷ octets)) ≡ ok ad
    → ad ≡ (length octets + 7) ∷ 0x16 ∷ 0x51 ∷ 0x18 ∷ (u24 delay ++ (count ∷ octets))
unfolding service_data ltv
service_data_returns delay count octets ad e =
    let size : length octets + 7 ≡ length (u16 0x1851 ++ (u24 delay ++ (count ∷ octets))) + 1 =
      omega arith in
    elim (Bool-cases (ltb 255 (length (u16 0x1851 ++ (u24 delay ++ (count ∷ octets))) + 1))) [
      | inl f ↦ absurd (cc (rw f at e))
      | inr f ↦
          sym (ok-injective _ ad (rw f at e))
          ∙ ap (λ n. n ∷ 0x16 ∷ 0x51 ∷ 0x18 ∷ (u24 delay ++ (count ∷ octets))) (sym size)
    ]

read_base_next :
    (size delay count : ℕ) (octets : List ℕ) (gs : List Subgroup)
    → delay < 16777216
    → size ≡ length octets + 7
    → read_subgroups count octets ≡ some gs
    → read_base (size ∷ 0x16 ∷ 0x51 ∷ 0x18 ∷ (u24 delay ++ (count ∷ octets))) ≡ some (delay, gs)
unfolding bytes_eq
read_base_next size delay count octets gs small sized read =
    let fits : (size == length octets + 7) ≡ true = ground (arith, sized) in
    rw (read_base, fits, read) (ap (λ d. some (d, gs)) (from_little-u24 delay small))

-- What a receiver reads in a Basic Audio Announcement that `base` has returned is the presentation
-- delay and the subgroups that it was given, each with its configuration, metadata and BISes.
pub base-read :
    (delay : ℕ) (gs : List Subgroup) (ad : List ℕ)
    → base delay gs ≡ ok ad
    → read_base ad ≡ some (delay, gs)
unfolding base service_data ltv
base-read delay gs ad e = elim (Bool-cases (ltb 0xFFFFFF delay)) [
  | inl f ↦ absurd (cc (rw f at e))
  | inr f ↦ elim (Bool-cases (ltb (length gs) 1 || ltb 31 (length gs))) [
    | inl g ↦ absurd (cc (rw (f, g) at e))
    | inr g ↦
        let (octets, n, e1) = bind_returns (subgroup_octets gs) _ (rw (f, g) at e) in
        let written = service_data_returns delay (length gs) octets ad e1 in
        let small : delay < 16777216 = ground (arith, f) in
        ap read_base written
        ∙ read_base_next (length octets + 7) delay (length gs) octets gs small refl
            (subgroup_octets-read gs octets n)
  ]
]
