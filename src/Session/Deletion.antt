-- ===== src/Session/Deletion.antt =====
-- `ORDER BY id`, `LIMIT` and `DELETE … WHERE id IN (…)`, and what deleting a chunk of the rows
-- that a filter selects leaves.
use secure_api.Prelude.{
  ℕ, zero, suc, ◌+◌, ◌<◌, ◌==◌, ==_refl, ◌≡◌, refl, ◌∙◌, ap, Bool, false, not, List, [], ◌∷◌, map,
  leb, if◌then◌else◌, arith, length, take, drop, any, keep, All, All-take, Bool-cases, inl, inr,
}
use secure_api.Session.Keys.{Ascending}

module _ {ℓ} {A : Type ℓ} (key : A → ℕ) where
  abbrev insert_by_key : A → List A → List A
  insert_by_key x [] = x ∷ []
  insert_by_key x (y ∷ ys) =
      let rest = insert_by_key x ys in if leb (key x) (key y) then x ∷ y ∷ ys else y ∷ rest

  -- ORDER BY id
  unfoldable pub order_by : List A → List A
  order_by [] = []
  order_by (x ∷ xs) = insert_by_key x (order_by xs)

  -- DELETE … WHERE id IN (ids)
  unfoldable pub delete_in : List ℕ → List A → List A
  delete_in ids xs = keep (λ x. not (any (λ id. id == key x) ids)) xs

  insert_by_key-All :
      (x : A) (xs : List A) → All (λ y. key x < key y) xs → insert_by_key x xs ≡ x ∷ xs
  insert_by_key-All x [] h = refl
  insert_by_key-All x (y ∷ ys) (h, hs) = ground arith

  -- Rows in the order of their keys stay as they are.
  pub order_by-Ascending : (xs : List A) → Ascending key xs → order_by xs ≡ xs
  unfolding order_by
  order_by-Ascending [] h = refl
  order_by-Ascending (x ∷ xs) (above, h) =
      ap (insert_by_key x) (order_by-Ascending xs h) ∙ insert_by_key-All x xs above

  All-keep : (Q : A → Type 0) (p : A → Bool) (xs : List A) → All Q xs → All Q (keep p xs)
  All-keep Q p [] h = tt
  All-keep Q p (x ∷ xs) (h, hs) = elim (Bool-cases (p x)) [
    | inl hit ↦ rw hit (h, All-keep Q p xs hs)
    | inr miss ↦ rw miss (All-keep Q p xs hs)
  ]

  pub Ascending-keep : (p : A → Bool) (xs : List A) → Ascending key xs → Ascending key (keep p xs)
  Ascending-keep p [] h = tt
  Ascending-keep p (x ∷ xs) (above, h) = elim (Bool-cases (p x)) [
    | inl hit ↦ rw hit (All-keep (λ y. key x < key y) p xs above, Ascending-keep p xs h)
    | inr miss ↦ rw miss (Ascending-keep p xs h)
  ]

  -- the rows without the first `n` that the filter selects
  abbrev without_first : (A → Bool) → ℕ → List A → List A
  without_first p n [] = []
  without_first p zero (x ∷ xs) = x ∷ xs
  without_first p (suc n) (x ∷ xs) =
      let fewer = without_first p n xs in
      let rest = without_first p (suc n) xs in if p x then fewer else x ∷ rest

  delete_in_nil : (xs : List A) → delete_in [] xs ≡ xs
  unfolding delete_in
  delete_in_nil [] = refl
  delete_in_nil (x ∷ xs) = ap (λ t. x ∷ t) (delete_in_nil xs)

  -- a key below all rows deletes none of them
  delete_in_above :
      (n : ℕ) (ids : List ℕ) (xs : List A)
      → All (λ y. n < key y) xs
      → delete_in (n ∷ ids) xs ≡ delete_in ids xs
  unfolding delete_in
  delete_in_above n ids [] h = refl
  delete_in_above n ids (x ∷ xs) (h, hs) = ground (arith, delete_in_above n ids xs hs)

  delete_in_hit :
      (x : A) (ids : List ℕ) (xs : List A)
      → All (λ y. key x < key y) xs
      → delete_in (key x ∷ ids) (x ∷ xs) ≡ delete_in ids xs
  unfolding delete_in
  delete_in_hit x ids xs above = rw ==_refl (delete_in_above (key x) ids xs above)

  delete_in_miss :
      (x : A) (ids : List ℕ) (xs : List A)
      → any (λ id. id == key x) ids ≡ false
      → delete_in ids (x ∷ xs) ≡ x ∷ delete_in ids xs
  unfolding delete_in
  delete_in_miss x ids xs absent = rw absent refl

  any-map_above :
      (n : ℕ) (xs : List A) → All (λ y. n < key y) xs → any (λ id. id == n) (map key xs) ≡ false
  any-map_above n [] h = refl
  any-map_above n (x ∷ xs) (h, hs) = ground (arith, any-map_above n xs hs)

  delete_in-without_first :
      (p : A → Bool) (n : ℕ) (xs : List A)
      → Ascending key xs
      → delete_in (map key (take n (keep p xs))) xs ≡ without_first p n xs
  delete_in-without_first p zero [] h = delete_in_nil []
  delete_in-without_first p (suc n) [] h = delete_in_nil []
  delete_in-without_first p zero (x ∷ xs) h = delete_in_nil (x ∷ xs)
  delete_in-without_first p (suc n) (x ∷ xs) (above, h) = elim (Bool-cases (p x)) [
    | inl hit ↦
        rw hit (
          delete_in_hit x (map key (take n (keep p xs))) xs above
          ∙ delete_in-without_first p n xs h)
    | inr miss ↦
        let absent : any (λ id. id == key x) (map key (take (suc n) (keep p xs))) ≡ false =
          any-map_above (key x) (take (suc n) (keep p xs)) (
            All-take (λ y. key x < key y) (suc n) (keep p xs)
              (All-keep (λ y. key x < key y) p xs above)) in
        rw miss (
          delete_in_miss x (map key (take (suc n) (keep p xs))) xs absent
          ∙ ap (λ t. x ∷ t) (delete_in-without_first p (suc n) xs h))
  ]

  keep-without_first :
      (p : A → Bool) (n : ℕ) (xs : List A) → keep p (without_first p n xs) ≡ drop n (keep p xs)
  keep-without_first p zero [] = refl
  keep-without_first p (suc n) [] = refl
  keep-without_first p zero (x ∷ xs) = refl
  keep-without_first p (suc n) (x ∷ xs) =
      ground (arith, keep-without_first p n xs, keep-without_first p (suc n) xs)

  keep-not-without_first :
      (p : A → Bool) (n : ℕ) (xs : List A)
      → keep (λ x. not (p x)) (without_first p n xs) ≡ keep (λ x. not (p x)) xs
  keep-not-without_first p zero [] = refl
  keep-not-without_first p (suc n) [] = refl
  keep-not-without_first p zero (x ∷ xs) = refl
  keep-not-without_first p (suc n) (x ∷ xs) =
      ground (arith, keep-not-without_first p n xs, keep-not-without_first p (suc n) xs)

  length-without_first :
      (p : A → Bool) (n : ℕ) (xs : List A)
      → length (without_first p n xs) + length (take n (keep p xs)) ≡ length xs
  length-without_first p zero [] = refl
  length-without_first p (suc n) [] = refl
  length-without_first p zero (x ∷ xs) = omega arith
  length-without_first p (suc n) (x ∷ xs) =
      ground (arith, length-without_first p n xs, length-without_first p (suc n) xs)

  length-keep-without_first :
      (p r : A → Bool) (n : ℕ) (xs : List A)
      → length (keep r (without_first p n xs)) + length (keep r (take n (keep p xs)))
        ≡ length (keep r xs)
  length-keep-without_first p r zero [] = refl
  length-keep-without_first p r (suc n) [] = refl
  length-keep-without_first p r zero (x ∷ xs) = omega arith
  length-keep-without_first p r (suc n) (x ∷ xs) =
      ground (arith, length-keep-without_first p r n xs, length-keep-without_first p r (suc n) xs)

  -- Deleting the first rows that a filter selects leaves the later ones of them, all that it does
  -- not select, and the order; and as many rows go as were selected.
  module _ (p : A → Bool) (n : ℕ) (xs : List A) (h : Ascending key xs) where
    abbrev left : List A
    left = delete_in (map key (take n (keep p xs))) xs

    pub keep-delete_in : keep p left ≡ drop n (keep p xs)
    keep-delete_in = ap (keep p) (delete_in-without_first p n xs h) ∙ keep-without_first p n xs

    pub keep-not-delete_in : keep (λ x. not (p x)) left ≡ keep (λ x. not (p x)) xs
    keep-not-delete_in =
        ap (keep (λ x. not (p x))) (delete_in-without_first p n xs h)
        ∙ keep-not-without_first p n xs

    pub length-delete_in : length left + length (take n (keep p xs)) ≡ length xs
    length-delete_in =
        ap (λ t. length t + length (take n (keep p xs))) (delete_in-without_first p n xs h)
        ∙ length-without_first p n xs

    pub Ascending-delete_in : Ascending key left
    unfolding delete_in
    Ascending-delete_in =
        Ascending-keep (λ x. not (any (λ id. id == key x) (map key (take n (keep p xs))))) xs h

    -- what a second filter selects is divided between the rows that go and those that stay
    pub length-keep-delete_in :
        (r : A → Bool)
        → length (keep r left) + length (keep r (take n (keep p xs))) ≡ length (keep r xs)
    length-keep-delete_in r =
        ap (λ t. length (keep r t) + length (keep r (take n (keep p xs))))
          (delete_in-without_first p n xs h)
        ∙ length-keep-without_first p r n xs

  pub All-delete_in :
      (Q : A → Type 0) (ids : List ℕ) (xs : List A) → All Q xs → All Q (delete_in ids xs)
  unfolding delete_in
  All-delete_in Q ids xs h = All-keep Q (λ x. not (any (λ id. id == key x) ids)) xs h
