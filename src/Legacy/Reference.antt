-- ===== src/Legacy/Reference.antt =====
-- The functions c1 and s1 of legacy pairing as the specification writes them (Vol 3 Part H 2.2.3 and
-- 2.2.4), most significant octet first, and how those of the code agree with them.
use hci_controller.Base.{
  length, take, drop, replicate, length-append, drop-append_of_eq, take-append-drop, length-take,
  length-drop, take_of_le, length-reverse, ok, ℕ, ◌+◌, ◌<◌, ◌≡◌, refl, sym, ap, ap₂, ◌∙◌, some,
  List, [], ◌∷◌, ◌++◌, append_assoc, arith,
}
use mathlib.Core.List.{reverse, reverse_aux-eq, reverse-append, reverse-cons, reverse-reverse}
use hci_controller.Script.{Script, ◌>>=◌, >>=-ok}
use hci_controller.Legacy.{
  Link, Peripheral, xor16, encrypt, c1, s1, on_link, preq_of, op_le_encrypt, op_le_rand,
}
use Prim.Native.Nat.{bit_xor}

module _ (e : List ℕ → List ℕ → List ℕ) where
  -- `c1(k, r, preq, pres, iat, rat, ia, ra)`
  abbrev pub c1_value : List ℕ → List ℕ → List ℕ → List ℕ → ℕ → ℕ → List ℕ → List ℕ → List ℕ
  c1_value k r preq pres iat rat ia ra =
      e k (xor16 (e k (xor16 r (pres ++ (preq ++ (rat ∷ iat ∷ []))))) (replicate 4 0 ++ (ia ++ ra)))

  -- `s1(k, r1, r2)`, of the least significant halves.
  abbrev pub s1_value : List ℕ → List ℕ → List ℕ → List ℕ
  s1_value k r1 r2 = e k (drop 8 r1 ++ drop 8 r2)

-- What a controller does: LE Encrypt is the block cipher `e`, LE Rand brings eight octets, and the
-- link takes what is sent to a handle and a channel of 16 bits with a length that fits.
pub record Works {W : Type 0} (L : Link W) (e : List ℕ → List ℕ → List ℕ) : Type 0 where
  pub block : (k b : List ℕ) → length (e k b) ≡ 16
  pub encrypts :
      (k b : List ℕ) (w : W)
      → length k ≡ 16
      → length b ≡ 16
      → (L.command op_le_encrypt (k ++ b) w).result ≡ ok (0, e k b)
  pub brings :
      (w : W) → (r : List ℕ) × ((L.command op_le_rand [] w).result ≡ ok (0, r)) × (length r ≡ 8)
  pub sends :
      (handle cid : ℕ) (payload : List ℕ) (w : W)
      → handle < 65536
      → cid < 65536
      → length payload + 4 < 65536
      → (L.send_acl handle cid payload w).result ≡ ok tt

pub length-xor16 : (xs ys : List ℕ) → length xs ≡ length ys → length (xor16 xs ys) ≡ length xs
unfolding xor16
length-xor16 [] ys h = refl
length-xor16 (x ∷ xs) [] h = omega (arith, h)
length-xor16 (x ∷ xs) (y ∷ ys) h = omega (arith, length-xor16 xs ys (omega (arith, h)))

xor16-append :
    (xs ys xs' ys' : List ℕ)
    → length xs ≡ length ys
    → xor16 (xs ++ xs') (ys ++ ys') ≡ xor16 xs ys ++ xor16 xs' ys'
unfolding xor16
xor16-append [] [] xs' ys' h = refl
xor16-append [] (y ∷ ys) xs' ys' h = let no : ⊥ = omega (arith, h) in elim no [ ]
xor16-append (x ∷ xs) [] xs' ys' h = let no : ⊥ = omega (arith, h) in elim no [ ]
xor16-append (x ∷ xs) (y ∷ ys) xs' ys' h =
    ap (◌∷◌ (bit_xor x y)) (xor16-append xs ys xs' ys' (omega (arith, h)))

pub reverse-xor16 :
    (xs ys : List ℕ)
    → length xs ≡ length ys
    → reverse (xor16 xs ys) ≡ xor16 (reverse xs) (reverse ys)
unfolding xor16
reverse-xor16 [] [] h = refl
reverse-xor16 [] (y ∷ ys) h = let no : ⊥ = omega (arith, h) in elim no [ ]
reverse-xor16 (x ∷ xs) [] h = let no : ⊥ = omega (arith, h) in elim no [ ]
reverse-xor16 (x ∷ xs) (y ∷ ys) h =
    reverse-cons (bit_xor x y) (xor16 xs ys)
    ∙ ap (λ t. t ++ (bit_xor x y ∷ [])) (reverse-xor16 xs ys (omega (arith, h)))
    ∙ sym (
        xor16-append (reverse xs) (reverse ys) (x ∷ []) (y ∷ [])
          (omega (arith, h, length-reverse xs, length-reverse ys)))
    ∙ sym (ap₂ xor16 (reverse-cons x xs) (reverse-cons y ys))

-- The inputs p1 and p2 of the code, turned round.
turn_p1 :
    (iat rat : ℕ) (preq pres : List ℕ)
    → reverse (iat ∷ rat ∷ (preq ++ pres)) ≡ reverse pres ++ (reverse preq ++ (rat ∷ iat ∷ []))
turn_p1 iat rat preq pres =
    reverse_aux-eq (preq ++ pres) (rat ∷ iat ∷ [])
    ∙ ap (λ t. t ++ (rat ∷ iat ∷ [])) (reverse-append preq pres)
    ∙ append_assoc (reverse pres) (reverse preq) (rat ∷ iat ∷ [])

turn_p2 :
    (ra ia : List ℕ)
    → reverse (ra ++ (ia ++ replicate 4 0)) ≡ replicate 4 0 ++ (reverse ia ++ reverse ra)
turn_p2 ra ia =
    reverse-append ra (ia ++ replicate 4 0)
    ∙ ap (λ t. t ++ reverse ra) (reverse-append ia (replicate 4 0))

reverse-take8 : (xs : List ℕ) → length xs ≡ 16 → reverse (take 8 xs) ≡ drop 8 (reverse xs)
reverse-take8 xs h =
    let low = reverse (take 8 xs) in
    let high = reverse (drop 8 xs) in
    let split : reverse xs ≡ high ++ low =
      ap reverse (sym (take-append-drop 8 xs)) ∙ reverse-append (take 8 xs) (drop 8 xs) in
    sym (
      ap (drop 8) split
      ∙ drop-append_of_eq 8 high low
          (omega (arith, h, length-reverse (drop 8 xs), length-drop 8 xs)))

module _ {W : Type 0} (L : Link W) (e : List ℕ → List ℕ → List ℕ) (works : Works L e) where
  -- A call of the link that gives a result.
  pub returns :
      {A : Type 0} (m : Script W A) (p : Peripheral W) {a : A}
      → (m p.hci).result ≡ ok a
      → (h : W) × (on_link L m p ≡ record { result = ok a; state = record p { hci = h } })
  returns m p g = ((m p.hci).state, rw g refl)

  pub encrypt_works :
      (key plaintext : List ℕ) (p : Peripheral W)
      → length key ≡ 16
      → length plaintext ≡ 16
      → (h : W) × (encrypt L key plaintext p ≡ record {
        result = ok (reverse (e (reverse key) (reverse plaintext)));
        state = record p { hci = h };
      })
  unfolding encrypt
  encrypt_works key plaintext p hk hp =
      let (h, answered) = returns (L.command op_le_encrypt (reverse key ++ reverse plaintext)) p (
        works.encrypts (reverse key) (reverse plaintext) p.hci (length-reverse key ∙ hk)
          (length-reverse plaintext ∙ hp)) in
      (
        h,
        >>=-ok _ _ answered
            ∙ ap (λ b. record { result = ok (reverse b); state = record p { hci = h } })
                (take_of_le 16 (e (reverse key) (reverse plaintext))
                  (omega (arith, works.block (reverse key) (reverse plaintext)))),
      )

  pub c1_works :
      (key rand preq : List ℕ) (p : Peripheral W)
      → length key ≡ 16
      → length rand ≡ 16
      → p.preq ≡ some preq
      → length preq ≡ 7
      → length p.pres ≡ 7
      → length p.ra ≡ 6
      → length p.ia ≡ 6
      → (h : W) × (c1 L key rand p ≡ record {
        result = ok (
            reverse (
              c1_value e
                (reverse key)
                (reverse rand)
                (reverse preq)
                (reverse p.pres)
                p.iat
                p.rat
                (reverse p.ia)
                (reverse p.ra)));
        state = record p { hci = h };
      })
  unfolding c1
  c1_works key rand preq p hk hr hq hl hs ha hi =
      let p1 = p.iat ∷ p.rat ∷ (preq ++ p.pres) in
      let p2 = p.ra ++ (p.ia ++ replicate 4 0) in
      let k = reverse key in
      let len1 : length rand ≡ length p1 = omega (arith, hr, hl, hs, length-append preq p.pres) in
      let (h, first) = encrypt_works key (xor16 rand p1) p hk (length-xor16 rand p1 len1 ∙ hr) in
      let mid = reverse (e k (reverse (xor16 rand p1))) in
      let lenm : length mid ≡ 16 =
        length-reverse (e k (reverse (xor16 rand p1))) ∙ works.block k (reverse (xor16 rand p1)) in
      let len2 : length mid ≡ length p2 = omega (
        arith,
        lenm,
        ha,
        hi,
        length-append p.ra (p.ia ++ replicate 4 0),
        length-append p.ia (replicate 4 0),
      ) in
      let (h', second) =
        encrypt_works key (xor16 mid p2) (record p { hci = h }) hk
          (length-xor16 mid p2 len2 ∙ lenm) in
      let asked : preq_of p ≡ preq = rw hq refl in
      let turned1 : reverse (xor16 rand p1)
          ≡ xor16 (reverse rand) (reverse p.pres ++ (reverse preq ++ (p.rat ∷ p.iat ∷ []))) =
        reverse-xor16 rand p1 len1 ∙ ap (xor16 (reverse rand)) (turn_p1 p.iat p.rat preq p.pres) in
      let turned2 : reverse (xor16 mid p2)
          ≡ xor16 (e k (reverse (xor16 rand p1)))
              (replicate 4 0 ++ (reverse p.ia ++ reverse p.ra)) =
        reverse-xor16 mid p2 len2
        ∙ ap₂ xor16 (reverse-reverse (e k (reverse (xor16 rand p1)))) (turn_p2 p.ra p.ia) in
      (
        h',
        >>=-ok _ _ refl
            ∙ ap
                (λ q.
                  (encrypt L key (xor16 rand (p.iat ∷ p.rat ∷ (q ++ p.pres))) >>= λ t.
                  encrypt L key (xor16 t p2))
                    p)
                asked
            ∙ >>=-ok _ _ first
            ∙ second
            ∙ ap (λ b. record { result = ok (reverse (e k b)); state = record p { hci = h' } })
                (turned2
                  ∙ ap (λ b. xor16 (e k b) (replicate 4 0 ++ (reverse p.ia ++ reverse p.ra)))
                      turned1),
      )

  pub s1_works :
      (key own peer : List ℕ) (p : Peripheral W)
      → length key ≡ 16
      → length own ≡ 16
      → length peer ≡ 16
      → (h : W) × (s1 L key own peer p ≡ record {
        result = ok (reverse (s1_value e (reverse key) (reverse own) (reverse peer)));
        state = record p { hci = h };
      })
  unfolding s1
  s1_works key own peer p hk ho hp =
      let b = take 8 peer ++ take 8 own in
      let (h, got) = encrypt_works key b p hk (
        omega (
          arith,
          length-append (take 8 peer) (take 8 own),
          length-take 8 peer,
          length-take 8 own,
          ho,
          hp,
        )) in
      (
        h,
        got
            ∙ ap
                (λ t. record {
                  result = ok (reverse (e (reverse key) t));
                  state = record p { hci = h };
                })
                (reverse-append (take 8 peer) (take 8 own)
                  ∙ ap₂ ◌++◌ (reverse-take8 own ho) (reverse-take8 peer hp)),
      )
