-- ===== src/Session/Query.antt =====
-- What SQLAlchemy does with the rows of one table.
use secure_api.Prelude.{
  ℕ, ◌+◌, ◌≡◌, refl, Bool, true, false, not, Option, none, some, List, [], ◌∷◌, ◌++◌, arith,
  if◌then◌else◌, keep, All, Some, Bool-cases, inl, inr,
}
use secure_api.Models.{Table}

module _ {ℓ} {A : Type ℓ} where
  -- .first()
  abbrev pub first : List A → Option A
  first [] = none
  first (x ∷ xs) = some x

  -- rows that satisfy the filter are updated in place
  unfoldable pub update_where : (A → Bool) → (A → A) → List A → List A
  update_where p f [] = []
  update_where p f (x ∷ xs) = (if p x then f x else x) ∷ update_where p f xs

  -- the row is appended with the next key
  abbrev pub insert_row : (ℕ → A) → Table A → Table A
  insert_row row t = record { rows = t.rows ++ row t.next_id ∷ []; next_id = t.next_id + 1 }

  -- an assignment to the fields of the rows that a filter selects
  abbrev pub update_rows : (A → Bool) → (A → A) → Table A → Table A
  update_rows p f t = record t { rows = update_where p f t.rows }

  abbrev pub select : (A → Bool) → Table A → List A
  select p t = keep p t.rows

  -- A filter that the update does not disturb selects the updated rows.
  pub keep-update_where :
      (p q : A → Bool) (f : A → A) (xs : List A)
      → ((x : A) → p (f x) ≡ p x)
      → keep p (update_where q f xs) ≡ update_where q f (keep p xs)
  unfolding update_where
  keep-update_where p q f [] same = refl
  keep-update_where p q f (x ∷ xs) same = ground (arith, same x, keep-update_where p q f xs same)

  -- An update that takes its rows out of the filter leaves none in it.
  pub keep-update_where_nil :
      (p : A → Bool) (f : A → A) (xs : List A)
      → ((x : A) → p (f x) ≡ false)
      → keep p (update_where p f xs) ≡ []
  unfolding update_where
  keep-update_where_nil p f [] out = refl
  keep-update_where_nil p f (x ∷ xs) out = ground (arith, out x, keep-update_where_nil p f xs out)

  -- An update that keeps its rows in the filter leaves the others alone.
  pub keep-update_where_others :
      (p : A → Bool) (f : A → A) (xs : List A)
      → ((x : A) → p (f x) ≡ p x)
      → keep (λ x. not (p x)) (update_where p f xs) ≡ keep (λ x. not (p x)) xs
  unfolding update_where
  keep-update_where_others p f [] same = refl
  keep-update_where_others p f (x ∷ xs) same =
      ground (arith, same x, keep-update_where_others p f xs same)

  -- A filter within another selects from what that one selected.
  pub keep_nil-of :
      (p q : A → Bool) (xs : List A)
      → ((x : A) → q x ≡ true → p x ≡ true)
      → keep p xs ≡ []
      → keep q xs ≡ []
  keep_nil-of p q [] within none' = refl
  keep_nil-of p q (x ∷ xs) within none' = ground (arith, within x, keep_nil-of p q xs within)

  -- An update that takes rows out of a filter leaves in it what it does not touch.
  pub keep-update_where_out :
      (p q : A → Bool) (f : A → A) (xs : List A)
      → ((x : A) → p (f x) ≡ false)
      → keep p (update_where q f xs) ≡ keep (λ x. not (q x)) (keep p xs)
  unfolding update_where
  keep-update_where_out p q f [] out = refl
  keep-update_where_out p q f (x ∷ xs) out =
      ground (arith, out x, keep-update_where_out p q f xs out)

module _ {ℓ} {A : Type ℓ} where
  -- Rows outside a filter that an update leaves outside it change nothing in it.
  pub keep-update_where-All :
      (p q : A → Bool) (f : A → A) (xs : List A)
      → All (λ x. (p x ≡ false) × (p (f x) ≡ false)) (keep q xs)
      → keep p (update_where q f xs) ≡ keep p xs
  unfolding update_where
  keep-update_where-All p q f [] out = refl
  keep-update_where-All p q f (x ∷ xs) out = elim (Bool-cases (q x)) [
    | inl hit ↦
        let outs : ((p x ≡ false) × (p (f x) ≡ false))
            × All (λ y. (p y ≡ false) × (p (f y) ≡ false)) (keep q xs) =
          rw hit at out in
        let rest = keep-update_where-All p q f xs outs.1 in rw (hit, outs.0.0, outs.0.1) rest
    | inr miss ↦
        let outs : All (λ y. (p y ≡ false) × (p (f y) ≡ false)) (keep q xs) = rw miss at out in
        let rest = keep-update_where-All p q f xs outs in ground (arith, miss, rest)
  ]

  pub keep-one : (p : A → Bool) (xs : List A) {x : A} → keep p xs ≡ x ∷ [] → p x ≡ true
  keep-one p [] h = cc
  keep-one p (y ∷ ys) {x} h = ground (arith, λ (e : keep p ys ≡ x ∷ []). keep-one p ys e)

  pub update_where-id : (q : A → Bool) (xs : List A) → update_where q (λ x. x) xs ≡ xs
  unfolding update_where
  update_where-id q [] = refl
  update_where-id q (x ∷ xs) = ground (arith, update_where-id q xs)

  -- Two updates of the same rows are one.
  pub update_where-update_where :
      (q : A → Bool) (f g : A → A) (xs : List A)
      → ((x : A) → q (f x) ≡ q x)
      → update_where q g (update_where q f xs) ≡ update_where q (λ x. g (f x)) xs
  unfolding update_where
  update_where-update_where q f g [] same = refl
  update_where-update_where q f g (x ∷ xs) same =
      ground (arith, same x, update_where-update_where q f g xs same)

module _ {ℓ} {A : Type ℓ} (p : A → Bool) (P : A → Type 0) where
  -- What a query selects is a row of the table.
  pub Some-keep : (xs : List A) {x : A} {rest : List A} → keep p xs ≡ x ∷ rest → P x → Some P xs
  Some-keep [] h px = cc
  Some-keep (y ∷ ys) {x} {rest} h px = elim (Bool-cases (p y)) [
    | inl hit ↦ let same : y ≡ x = ground (arith, rw hit at h) in inl (rw same px)
    | inr miss ↦ inr (Some-keep ys (rw miss at h) px)
  ]
