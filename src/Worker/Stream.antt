-- ===== src/Worker/Stream.antt =====
-- Ids in the order of the stream, and what a run of commands adds, sets aside and acknowledges.
use secure_api.Prelude.{
  ℕ, zero, suc, ◌+◌, ◌≡◌, refl, ◌∙◌, ap, List, [], ◌∷◌, ◌++◌, arith, length, take, drop,
}
use secure_api.Worker.{
  Command, xadd_stream, xadd_dead, xack, readded, dead_letters, acknowledged, numbered_from,
}

-- n, n + 1, ..., as many as the second number says
abbrev pub ids_from : ℕ → ℕ → List ℕ
ids_from n zero = []
ids_from n (suc k) = n ∷ ids_from (n + 1) k

-- the ids of two stretches, the second of which starts where the first ends
pub ids_from-add :
    (n a b c m : ℕ) → c ≡ a + b → m ≡ n + a → ids_from n c ≡ ids_from n a ++ ids_from m b
ids_from-add n zero b c m total start =
    let same : c ≡ b = omega (arith, total) in
    let here : n ≡ m = omega (arith, start) in ap (ids_from n) same ∙ ap (λ k. ids_from k b) here
ids_from-add n (suc a) b c m total start =
    let same : c ≡ suc (a + b) = omega (arith, total) in
    ap (ids_from n) same
    ∙ ap (λ t. n ∷ t) (ids_from-add (n + 1) a b (a + b) m refl (omega (arith, start)))

module _ {Raw : Type 0} where
  pub readded-append : (xs ys : List (Command Raw)) → readded (xs ++ ys) ≡ readded xs ++ readded ys
  readded-append [] ys = refl
  readded-append (xadd_stream raw ∷ xs) ys = ap (λ t. raw ∷ t) (readded-append xs ys)
  readded-append (xadd_dead raw ∷ xs) ys = readded-append xs ys
  readded-append (xack id ∷ xs) ys = readded-append xs ys

  pub dead_letters-append :
      (xs ys : List (Command Raw)) → dead_letters (xs ++ ys) ≡ dead_letters xs ++ dead_letters ys
  dead_letters-append [] ys = refl
  dead_letters-append (xadd_stream raw ∷ xs) ys = dead_letters-append xs ys
  dead_letters-append (xadd_dead raw ∷ xs) ys = ap (λ t. raw ∷ t) (dead_letters-append xs ys)
  dead_letters-append (xack id ∷ xs) ys = dead_letters-append xs ys

  pub acknowledged-append :
      (xs ys : List (Command Raw)) → acknowledged (xs ++ ys) ≡ acknowledged xs ++ acknowledged ys
  acknowledged-append [] ys = refl
  acknowledged-append (xadd_stream raw ∷ xs) ys = acknowledged-append xs ys
  acknowledged-append (xadd_dead raw ∷ xs) ys = acknowledged-append xs ys
  acknowledged-append (xack id ∷ xs) ys = ap (λ t. id ∷ t) (acknowledged-append xs ys)

  pub length-numbered_from : (n : ℕ) (raws : List Raw) → length (numbered_from n raws) ≡ length raws
  length-numbered_from n [] = refl
  length-numbered_from n (raw ∷ raws) = omega (arith, length-numbered_from (n + 1) raws)

  pub numbered_from-append :
      (n : ℕ) (xs ys : List Raw)
      → numbered_from n (xs ++ ys) ≡ numbered_from n xs ++ numbered_from (n + length xs) ys
  numbered_from-append n [] ys = ap (λ m. numbered_from m ys) (omega arith)
  numbered_from-append n (x ∷ xs) ys =
      ap (λ t. (n, x) ∷ t)
        (numbered_from-append (n + 1) xs ys
          ∙ ap (λ m. numbered_from (n + 1) xs ++ numbered_from m ys) (omega arith))

  pub take-numbered_from :
      (k n : ℕ) (raws : List Raw) → take k (numbered_from n raws) ≡ numbered_from n (take k raws)
  take-numbered_from zero n raws = refl
  take-numbered_from (suc k) n [] = refl
  take-numbered_from (suc k) n (raw ∷ raws) =
      ap (λ t. (n, raw) ∷ t) (take-numbered_from k (n + 1) raws)

  pub drop-numbered_from :
      (k n : ℕ) (raws : List Raw)
      → drop k (numbered_from n raws) ≡ numbered_from (n + length (take k raws)) (drop k raws)
  drop-numbered_from zero n raws = ap (λ m. numbered_from m raws) (omega arith)
  drop-numbered_from (suc k) n [] = refl
  drop-numbered_from (suc k) n (raw ∷ raws) =
      drop-numbered_from k (n + 1) raws ∙ ap (λ m. numbered_from m (drop k raws)) (omega arith)
