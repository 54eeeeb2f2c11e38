-- ===== src/Translate/Counting.antt =====
-- What a client reads in two stretches of a stream, one after the other.
use heterion_router.Prelude.{
  Bool, true, false, if◌then◌else◌, ℕ, zero, suc, ◌+◌, List, [], ◌∷◌, ◌++◌, length, length-append,
  ◌≡◌, refl, sym, ◌∙◌, ap, arith,
}
use heterion_router.Json.{Value}
use heterion_router.Translate.Reader.{reasons, indexes, count_from}

count_from-append : (n a b : ℕ) → count_from n (a + b) ≡ count_from n a ++ count_from (n + a) b
unfolding count_from
count_from-append n zero b = ground arith
count_from-append n (suc a) b =
    let e : suc a + b ≡ suc (a + b) = omega arith in
    let f : n + 1 + a ≡ n + suc a = omega arith in
    rw e (
      ap (λ ks. n ∷ ks)
        (count_from-append (n + 1) a b ∙ ap (λ k. count_from (n + 1) a ++ count_from k b) f))

pub joined :
    (n t u : ℕ) (xs ys : List ℕ)
    → xs ≡ count_from n (length xs)
    → t ≡ n + length xs
    → ys ≡ count_from t (length ys)
    → u ≡ t + length ys
    → (xs ++ ys ≡ count_from n (length (xs ++ ys))) × (u ≡ n + length (xs ++ ys))
joined n t u xs ys p c q d =
    let l = length-append xs ys in
    (
      ap (λ zs. zs ++ ys) p
          ∙ ap (λ zs. count_from n (length xs) ++ zs) (q ∙ ap (λ k. count_from k (length ys)) c)
          ∙ sym (count_from-append n (length xs) (length ys))
          ∙ ap (count_from n) (sym l),
      omega (arith, l, c, d),
    )

pub indexes-append : (vs ws : List Value) → indexes (vs ++ ws) ≡ indexes vs ++ indexes ws
unfolding indexes
indexes-append [] ws = refl
indexes-append (v ∷ vs) ws = ground (arith, indexes-append vs ws)

pub reasons-append : (vs ws : List Value) → reasons (vs ++ ws) ≡ reasons vs ++ reasons ws
unfolding reasons
reasons-append [] ws = refl
reasons-append (v ∷ vs) ws = ground (arith, reasons-append vs ws)

-- What a finish chunk that is due adds to the reasons.
abbrev pub due : Bool → Bool → ℕ
due sent asked = if sent then 0 else if asked then 1 else 0

pub due-false : (sent : Bool) → 0 ≡ due sent false
due-false true = refl
due-false false = refl
