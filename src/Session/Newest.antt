-- ===== src/Session/Newest.antt =====
-- `ORDER BY id DESC`: the newest row, and deleting all but the newest rows of a filter.
use mathlib.Core.List.{reverse-append, reverse-cons}
use secure_api.Prelude.{
  ℕ, zero, suc, ◌-◌, ◌==◌, ◌≡◌, refl, sym, ◌∙◌, ap, Bool, false, not, ◌||◌, ◌&&◌, some, List, [],
  ◌∷◌, ◌++◌, map, reverse, leb, arith, length, length-append, take, drop, drop-map, any, any-append,
  keep, Bool-cases, inl, inr,
}
use secure_api.Session.Query.{first}
use secure_api.Session.Keys.{Ascending}
use secure_api.Session.Deletion.{order_by, delete_in, order_by-Ascending, Ascending-keep}

module _ {A : Type 0} where
  drop_nil : (n : ℕ) → drop {A = A} n [] ≡ []
  drop_nil zero = refl
  drop_nil (suc n) = refl

  any-drop-append :
      (p : A → Bool) (n : ℕ) (xs : List A) (x : A)
      → any p (drop n (xs ++ x ∷ [])) ≡ (any p (drop n xs) || (leb n (length xs) && p x))
  any-drop-append p zero xs x = ground (arith, any-append p xs (x ∷ []))
  any-drop-append p (suc n) [] x = rw (drop_nil n) (ground arith)
  any-drop-append p (suc n) (y ∷ ys) x = ground (arith, any-drop-append p n ys x)

  length-reverse : (xs : List A) → length (reverse xs) ≡ length xs
  length-reverse [] = refl
  length-reverse (x ∷ xs) =
      ap length (reverse-cons x xs)
      ∙ omega (arith, length-append (reverse xs) (x ∷ []), length-reverse xs)

  -- the later ones of the reversed list are the earlier ones of the list
  any-drop-reverse :
      (p : A → Bool) (n : ℕ) (xs : List A)
      → any p (drop n (reverse xs)) ≡ any p (take (length xs - n) xs)
  any-drop-reverse p n [] =
      let none_left : 0 - n ≡ 0 = omega arith in rw (drop_nil n, none_left) refl
  any-drop-reverse p n (x ∷ xs) =
      ap (λ t. any p (drop n t)) (reverse-cons x xs)
      ∙ any-drop-append p n (reverse xs) x
      ∙ (elim (Bool-cases (leb n (length (reverse xs)))) [
        | inl within ↦
            let more : suc (length xs) - n ≡ suc (length xs - n) =
              ground (arith, length-reverse xs) in
            rw (within, more) (ground (arith, any-drop-reverse p n xs))
        | inr beyond ↦
            let none_left : suc (length xs) - n ≡ 0 = ground (arith, length-reverse xs) in
            let none_left' : length xs - n ≡ 0 = ground (arith, length-reverse xs) in
            let rest : any p (drop n (reverse xs)) ≡ false =
              any-drop-reverse p n xs ∙ ap (λ m. any p (take m xs)) none_left' in
            rw (beyond, none_left, rest) refl
      ])

  any-map :
      {B : Type 0} (p : B → Bool) (f : A → B) (xs : List A)
      → any p (map f xs) ≡ any (λ x. p (f x)) xs
  any-map p f [] = refl
  any-map p f (x ∷ xs) = ap (λ b. p (f x) || b) (any-map p f xs)

  keep-cong : (p q : A → Bool) (xs : List A) → ((x : A) → p x ≡ q x) → keep p xs ≡ keep q xs
  keep-cong p q [] same = refl
  keep-cong p q (x ∷ xs) same = ground (arith, same x, keep-cong p q xs same)

  -- Deleting all but the `n` newest rows that a filter selects deletes the first ones.
  pub delete_in-newest :
      (key : A → ℕ) (p : A → Bool) (n : ℕ) (xs : List A)
      → Ascending key xs
      → delete_in key (drop n (map key (reverse (order_by key (keep p xs))))) xs
        ≡ delete_in key (map key (take (length (keep p xs) - n) (keep p xs))) xs
  unfolding delete_in
  delete_in-newest key p n xs ascending =
      let ys = keep p xs in
      let ordered = order_by-Ascending key ys (Ascending-keep key p xs ascending) in
      keep-cong _ _ xs (λ x. ap not (
        ap (λ t. any (λ id. id == key x) (drop n (map key (reverse t)))) ordered
        ∙ ap (any (λ id. id == key x)) (drop-map key n (reverse ys))
        ∙ any-map (λ id. id == key x) key (drop n (reverse ys))
        ∙ any-drop-reverse (λ y. key y == key x) n ys
        ∙ sym (any-map (λ id. id == key x) key (take (length ys - n) ys))))

  -- the newest row is the last
  pub first-reverse_append : (xs : List A) (x : A) → first (reverse (xs ++ x ∷ [])) ≡ some x
  first-reverse_append xs x = ap first (reverse-append xs (x ∷ []))
