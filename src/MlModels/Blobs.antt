-- ===== src/MlModels/Blobs.antt =====
-- The format of a stored model: magic, digest, payload.
use secure_api.Prelude.{
  ℕ, zero, suc, ◌<◌, ◌≤◌, ◌≡◌, refl, sym, ◌∙◌, ap, ◌↔◌, Text, teq, teq→eq, teq_refl, true, false,
  some, List, [], ◌∷◌, ◌++◌, leb, arith, length, length-append, length-drop, take, drop, Bool-cases,
  inl, inr,
}
use secure_api.MlModels.{Serializer, blob_magic, header_len, sign_blob, verify_blob}

module _ {ℓ} {A : Type ℓ} where
  take-append : (xs ys : List A) → take (length xs) (xs ++ ys) ≡ xs
  take-append [] ys = refl
  take-append (x ∷ xs) ys = ap (λ t. x ∷ t) (take-append xs ys)

  drop-append : (xs ys : List A) → drop (length xs) (xs ++ ys) ≡ ys
  drop-append [] ys = refl
  drop-append (x ∷ xs) ys = drop-append xs ys

  take_append_drop : (n : ℕ) (xs : List A) → take n xs ++ drop n xs ≡ xs
  take_append_drop zero xs = refl
  take_append_drop (suc n) [] = refl
  take_append_drop (suc n) (x ∷ xs) = ap (λ t. x ∷ t) (take_append_drop n xs)

  take-take : (m n : ℕ) (xs : List A) → m ≤ n → take m (take n xs) ≡ take m xs
  take-take zero n xs le = refl
  take-take (suc m) zero xs le = absurd (omega arith)
  take-take (suc m) (suc n) [] le = refl
  take-take (suc m) (suc n) (x ∷ xs) le = ap (λ t. x ∷ t) (take-take m n xs (omega arith))

  assoc : (xs ys zs : List A) → (xs ++ ys) ++ zs ≡ xs ++ (ys ++ zs)
  assoc [] ys zs = refl
  assoc (x ∷ xs) ys zs = ap (λ t. x ∷ t) (assoc xs ys zs)

leb-false : (a b : ℕ) → leb a b ≡ false → b < a
leb-false a b h = ground arith

module _ {A : Type 0} (z : Serializer A)
    (digest-length : (payload : Text) → length (z.digest payload) ≡ 32) where
  abbrev header : Text → Text
  header payload = blob_magic ++ z.digest payload

  header-length : (payload : Text) → length (header payload) ≡ header_len
  header-length payload = omega (arith, digest-length payload)

  split_header :
      (blob : Text)
      → blob
        ≡ take (length blob_magic) blob
          ++ (drop (length blob_magic) (take header_len blob) ++ drop header_len blob)
  split_header blob =
      sym (take_append_drop header_len blob)
      ∙ ap (λ t. t ++ drop header_len blob)
          (sym (take_append_drop (length blob_magic) (take header_len blob))
            ∙ ap (λ t. t ++ drop (length blob_magic) (take header_len blob))
                (take-take (length blob_magic) header_len blob (omega arith)))
      ∙ assoc (take (length blob_magic) blob) (drop (length blob_magic) (take header_len blob))
          (drop header_len blob)

  verify_blob_sound :
      (blob payload : Text)
      → verify_blob z blob ≡ some payload
      → (blob ≡ sign_blob z payload) × (0 < length payload)
  unfolding verify_blob sign_blob
  verify_blob_sound blob payload h =
      let found = drop (length blob_magic) (take header_len blob) in
      elim (Bool-cases (leb (length blob) header_len)) [
        | inl short ↦ absurd (ground (arith, rw short at h))
        | inr long ↦ elim (Bool-cases (teq (take (length blob_magic) blob) blob_magic)) [
          | inr other ↦ absurd (ground (arith, rw (long, other) at h))
          | inl magic ↦ elim (Bool-cases (teq found (z.digest (drop header_len blob)))) [
            | inr forged ↦ absurd (ground (arith, rw (long, magic, forged) at h))
            | inl signed ↦
                let rest : drop header_len blob ≡ payload =
                  ground (arith, rw (long, magic, signed) at h) in
                let magic' : take (length blob_magic) blob ≡ blob_magic =
                  teq→eq (take (length blob_magic) blob) blob_magic magic in
                let signed' : found ≡ z.digest payload =
                  teq→eq found (z.digest (drop header_len blob)) signed ∙ ap z.digest rest in
                (
                  split_header blob
                      ∙ ap (λ t. t ++ (found ++ drop header_len blob)) magic'
                      ∙ ap (λ t. blob_magic ++ (t ++ drop header_len blob)) signed'
                      ∙ ap (λ t. blob_magic ++ (z.digest payload ++ t)) rest,
                  omega (
                    arith,
                    ap length rest,
                    length-drop header_len blob,
                    leb-false (length blob) header_len long,
                  ),
                )
          ]
        ]
      ]

  verify_blob-parts :
      (blob payload : Text)
      → header_len < length blob
      → take (length blob_magic) blob ≡ blob_magic
      → drop (length blob_magic) (take header_len blob) ≡ z.digest payload
      → drop header_len blob ≡ payload
      → verify_blob z blob ≡ some payload
  unfolding verify_blob
  verify_blob-parts blob payload long magic signed rest =
      let size : leb (length blob) header_len ≡ false = ground arith in
      let magic' : teq (take (length blob_magic) blob) blob_magic ≡ true =
        ap (λ t. teq t blob_magic) magic ∙ teq_refl blob_magic in
      let signed' : teq (drop (length blob_magic) (take header_len blob))
            (z.digest (drop header_len blob))
          ≡ true =
        ap (λ t. teq t (z.digest (drop header_len blob))) signed
        ∙ ap (λ t. teq (z.digest payload) (z.digest t)) rest
        ∙ teq_refl (z.digest payload) in
      rw (size, magic', signed') (ap some rest)

  pub verify_blob-sign_blob :
      (payload : Text) → 0 < length payload → verify_blob z (sign_blob z payload) ≡ some payload
  unfolding verify_blob sign_blob
  verify_blob-sign_blob payload some' =
      let blob = blob_magic ++ z.digest payload ++ payload in
      let split : blob ≡ header payload ++ payload =
        sym (assoc blob_magic (z.digest payload) payload) in
      let rest : drop header_len blob ≡ payload =
        ap (drop header_len) split
        ∙ ap (λ n. drop n (header payload ++ payload)) (sym (header-length payload))
        ∙ drop-append (header payload) payload in
      let front : take header_len blob ≡ header payload =
        ap (take header_len) split
        ∙ ap (λ n. take n (header payload ++ payload)) (sym (header-length payload))
        ∙ take-append (header payload) payload in
      let size : header_len < length blob =
        omega (arith, length-append (z.digest payload) payload, digest-length payload) in
      verify_blob-parts (sign_blob z payload) payload size (refl)
        (ap (drop (length blob_magic)) front) rest

  -- For a digest of 32 bytes, the payloads that verification lets through are exactly the signed
  -- ones that are not empty: a blob is accepted with a payload if and only if it is that payload
  -- signed with this key, and the payload has a byte.
  pub verify_blob_iff :
      (blob payload : Text)
      → (verify_blob z blob ≡ some payload) ↔ ((blob ≡ sign_blob z payload) × (0 < length payload))
  verify_blob_iff blob payload = (
    verify_blob_sound blob payload,
    λ (same, some'). ap (verify_blob z) same ∙ verify_blob-sign_blob payload some',
  )
