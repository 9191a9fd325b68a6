-- ===== src/Session/Keys.antt =====
-- Primary keys: the rows of a table stand in the order of their keys, all below the next one.
use secure_api.Prelude.{
  ℕ, ◌+◌, ◌<◌, ◌==◌, ◌≡◌, refl, Bool, List, [], ◌∷◌, ◌++◌, arith, keep, All, All-append, Bool-cases,
  inl, inr, subst,
}
use secure_api.Models.{Table}
use secure_api.Session.Query.{update_where, update_rows, insert_row}

module _ {ℓ} {A : Type ℓ} (key : A → ℕ) where
  abbrev pub Ascending : List A → Type 0
  Ascending [] = Unit
  Ascending (x ∷ xs) = All (λ y. key x < key y) xs × Ascending xs

  abbrev pub Keyed : Table A → Type 0
  Keyed t = All (λ x. key x < t.next_id) t.rows × Ascending t.rows

  keep-All :
      (Q : A → Type 0) (p : A → Bool) (xs : List A) {x : A} {rest : List A}
      → All Q xs
      → keep p xs ≡ x ∷ rest
      → Q x
  keep-All Q p [] h found = cc
  keep-All Q p (y ∷ ys) {x} {rest} (h, hs) found = elim (Bool-cases (p y)) [
    | inl hit ↦ let same : y ≡ x = ground (arith, rw hit at found) in rw (← same) h
    | inr miss ↦ keep-All Q p ys hs (rw miss at found)
  ]

  keep-key_above : (n : ℕ) (xs : List A) → All (λ y. n < key y) xs → keep (λ y. key y == n) xs ≡ []
  keep-key_above n [] h = refl
  keep-key_above n (x ∷ xs) h = ground (arith, keep-key_above n xs)

  keep-key_head :
      (y : A) (ys : List A)
      → All (λ z. key y < key z) ys
      → keep (λ w. key w == key y) (y ∷ ys) ≡ y ∷ []
  keep-key_head y ys above = ground (arith, keep-key_above (key y) ys above)

  -- the only row with the key of a row that some query found is that row
  pub keep-key :
      (p : A → Bool) (xs : List A) {x : A}
      → Ascending xs
      → keep p xs ≡ x ∷ []
      → keep (λ y. key y == key x) xs ≡ x ∷ []
  keep-key p [] h found = cc
  keep-key p (y ∷ ys) {x} (above, h) found = elim (Bool-cases (p y)) [
    | inl hit ↦
        let same : y ≡ x = ground (arith, rw hit at found) in
        subst (λ z. keep (λ w. key w == key z) (y ∷ ys) ≡ z ∷ []) same (keep-key_head y ys above)
    | inr miss ↦
        let below : key y < key x = keep-All (λ z. key y < key z) p ys above (rw miss at found) in
        ground (arith, keep-key p ys h (rw miss at found))
  ]

  All-update_where :
      (n : ℕ) (q : A → Bool) (f : A → A) (xs : List A)
      → ((x : A) → key (f x) ≡ key x)
      → All (λ y. n < key y) xs
      → All (λ y. n < key y) (update_where q f xs)
  unfolding update_where
  All-update_where n q f [] same h = tt
  All-update_where n q f (x ∷ xs) same (h, hs) =
      (ground (arith, same x), All-update_where n q f xs same hs)

  Below-update_where :
      (n : ℕ) (q : A → Bool) (f : A → A) (xs : List A)
      → ((x : A) → key (f x) ≡ key x)
      → All (λ y. key y < n) xs
      → All (λ y. key y < n) (update_where q f xs)
  unfolding update_where
  Below-update_where n q f [] same h = tt
  Below-update_where n q f (x ∷ xs) same (h, hs) =
      (ground (arith, same x), Below-update_where n q f xs same hs)

  Ascending-update_where :
      (q : A → Bool) (f : A → A) (xs : List A)
      → ((x : A) → key (f x) ≡ key x)
      → Ascending xs
      → Ascending (update_where q f xs)
  unfolding update_where
  Ascending-update_where q f [] same h = tt
  Ascending-update_where q f (x ∷ xs) same (above, h) = elim (Bool-cases (q x)) [
    | inl hit ↦
        rw (hit, same x)
          (All-update_where (key x) q f xs same above, Ascending-update_where q f xs same h)
    | inr miss ↦
        rw miss (All-update_where (key x) q f xs same above, Ascending-update_where q f xs same h)
  ]

  Ascending-append :
      (n : ℕ) (xs : List A) (z : A)
      → key z ≡ n
      → All (λ y. key y < n) xs
      → Ascending xs
      → Ascending (xs ++ z ∷ [])
  Ascending-append n [] z e below h = (tt, tt)
  Ascending-append n (x ∷ xs) z e (b, below) (above, h) = (
    All-append (λ y. key x < key y) xs (z ∷ []) above (ground arith, tt),
    Ascending-append n xs z e below h,
  )

  weaken : (n : ℕ) (xs : List A) → All (λ y. key y < n) xs → All (λ y. key y < n + 1) xs
  weaken n [] h = tt
  weaken n (x ∷ xs) (h, hs) = (ground arith, weaken n xs hs)

  -- An update that leaves the keys alone keeps the table's order.
  pub update_rows-Keyed :
      (q : A → Bool) (f : A → A) (t : Table A)
      → ((x : A) → key (f x) ≡ key x)
      → Keyed t
      → Keyed (update_rows q f t)
  update_rows-Keyed q f t same (below, h) =
      (Below-update_where t.next_id q f t.rows same below, Ascending-update_where q f t.rows same h)

  -- A new row goes to the end, with the next key.
  pub insert_row-Keyed :
      (row : ℕ → A) (t : Table A) → ((n : ℕ) → key (row n) ≡ n) → Keyed t → Keyed (insert_row row t)
  insert_row-Keyed row t next (below, h) = (
    All-append (λ x. key x < t.next_id + 1) t.rows (row t.next_id ∷ [])
        (weaken t.next_id t.rows below) (ground (arith, next t.next_id), tt),
    Ascending-append t.next_id t.rows (row t.next_id) (next t.next_id) below h,
  )
