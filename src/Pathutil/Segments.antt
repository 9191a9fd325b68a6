-- ===== src/Pathutil/Segments.antt =====
-- Splitting at a character, joining with slashes, and stripping: how they undo one another.
use secure_api.Prelude.{
  ℕ, ◌==◌, ◌≡◌, refl, ap, ◌∙◌, Text, teq, Bool, true, false, not, List, [], ◌∷◌, ◌++◌, arith, all,
  All, Bool-cases, inl, inr,
}
use secure_api.Pathutil.{before_query, rstrip_slash, cons_first, split_on, join_slash}

-- no character of the text is `sep`
abbrev pub lacks : ℕ → Text → Bool
lacks sep = all (λ ch. not (ch == sep))

abbrev pub Lacks : ℕ → Text → Type 0
Lacks sep text = lacks sep text ≡ true

pub Lacks-before_query : (path : Text) → Lacks b'?' (before_query path)
unfolding before_query
Lacks-before_query [] = refl
Lacks-before_query (ch ∷ path) = ground (arith, Lacks-before_query path)

pub before_query_of_Lacks : (path : Text) → Lacks b'?' path → before_query path ≡ path
unfolding before_query
before_query_of_Lacks [] h = refl
before_query_of_Lacks (ch ∷ path) h = ground (arith, before_query_of_Lacks path)

pub Lacks-rstrip_slash : (sep : ℕ) (path : Text) → Lacks sep path → Lacks sep (rstrip_slash path)
unfolding rstrip_slash
Lacks-rstrip_slash sep [] h = refl
Lacks-rstrip_slash sep (ch ∷ path) h = ground (arith, Lacks-rstrip_slash sep path)

pub rstrip_slash_of_Lacks : (path : Text) → Lacks b'/' path → rstrip_slash path ≡ path
unfolding rstrip_slash
rstrip_slash_of_Lacks [] h = refl
rstrip_slash_of_Lacks (ch ∷ path) h = ground (arith, rstrip_slash_of_Lacks path)

-- what stands in front of a stripped text that is not empty stays
pub rstrip_slash-append :
    (front : Text) (ch : ℕ) (tail : Text)
    → rstrip_slash (ch ∷ tail) ≡ ch ∷ tail
    → rstrip_slash (front ++ ch ∷ tail) ≡ front ++ ch ∷ tail
unfolding rstrip_slash
rstrip_slash-append [] ch tail h = h
rstrip_slash-append (x ∷ []) ch tail h = rw h (unfold teq in ground arith)
rstrip_slash-append (x ∷ y ∷ front) ch tail h =
    rw (rstrip_slash-append (y ∷ front) ch tail h) (unfold teq in ground arith)

Lacks-cons_first :
    (sep ch : ℕ) (parts : List Text)
    → ch == sep ≡ false
    → All (Lacks sep) parts
    → All (Lacks sep) (cons_first ch parts)
Lacks-cons_first sep ch [] h all' = ground arith
Lacks-cons_first sep ch (part ∷ parts) h all' = ground arith

-- the parts hold no separator, and nothing that the text did not hold
pub split_on-Lacks : (sep : ℕ) (text : Text) → All (Lacks sep) (split_on sep text)
unfolding split_on
split_on-Lacks sep [] = (refl, tt)
split_on-Lacks sep (ch ∷ text) = elim (Bool-cases (ch == sep)) [
  | inl hit ↦ rw hit (refl, split_on-Lacks sep text)
  | inr miss ↦ rw miss (Lacks-cons_first sep ch (split_on sep text) miss (split_on-Lacks sep text))
]

pub split_on-Lacks_other :
    (sep other : ℕ) (text : Text) → Lacks other text → All (Lacks other) (split_on sep text)
unfolding split_on
split_on-Lacks_other sep other [] h = (refl, tt)
split_on-Lacks_other sep other (ch ∷ text) h =
    let rest = split_on-Lacks_other sep other text (ground arith) in
    elim (Bool-cases (ch == sep)) [
      | inl hit ↦ rw hit (refl, rest)
      | inr miss ↦ rw miss (Lacks-cons_first other ch (split_on sep text) (ground arith) rest)
    ]

pub split_on_of_Lacks : (sep : ℕ) (part : Text) → Lacks sep part → split_on sep part ≡ part ∷ []
unfolding split_on
split_on_of_Lacks sep [] h = refl
split_on_of_Lacks sep (ch ∷ part) h = ground (arith, split_on_of_Lacks sep part)

pub split_on-append :
    (sep : ℕ) (part rest : Text)
    → Lacks sep part
    → split_on sep (part ++ sep ∷ rest) ≡ part ∷ split_on sep rest
unfolding split_on
split_on-append sep [] rest h = ground arith
split_on-append sep (ch ∷ part) rest h = ground (arith, split_on-append sep part rest)

-- Splitting a joined path gives back its parts, if they hold no slash.
pub split_on-join_slash :
    (part : Text) (parts : List Text)
    → All (Lacks b'/') (part ∷ parts)
    → split_on b'/' (join_slash (part ∷ parts)) ≡ part ∷ parts
unfolding join_slash
split_on-join_slash part [] h = split_on_of_Lacks b'/' part h.0
split_on-join_slash part (next ∷ parts) h =
    split_on-append b'/' part (join_slash (next ∷ parts)) h.0
    ∙ ap (λ t. part ∷ t) (split_on-join_slash next parts h.1)

pub Lacks-append : (sep : ℕ) (xs ys : Text) → Lacks sep xs → Lacks sep ys → Lacks sep (xs ++ ys)
Lacks-append sep [] ys h k = k
Lacks-append sep (x ∷ xs) ys h k = ground (arith, Lacks-append sep xs ys)

pub append-cons_nonempty : (xs : Text) (ch : ℕ) (ys : Text) → teq (xs ++ ch ∷ ys) [] ≡ false
unfolding teq
append-cons_nonempty [] ch ys = refl
append-cons_nonempty (x ∷ xs) ch ys = refl
