-- ===== src/Startup/Origins.antt =====
-- Which origins a browser may call from.
use secure_api.Prelude.{
  ◌≡◌, sym, ◌∙◌, subst, true, false, List, [], ◌∷◌, ◌++◌, arith, length, any, keep, Text, teq,
  teq→eq, if◌then◌else◌, Bool-cases, inl, inr,
}
use secure_api.Startup.{
  StartSettings, is_production, unseen, default_origins, extra_origins, get_cors_origins,
  trusted_origins,
}

unseen_lem :
    (o : Text) (seen xs : List Text)
    → length (keep (teq o) (unseen seen xs))
      ≡ (if any (teq o) seen then 0 else if any (teq o) xs then 1 else 0)
unfolding unseen
unseen_lem o seen [] = elim (Bool-cases (any (teq o) seen)) [ inl h ↦ rw h | inr h ↦ rw h ]
unseen_lem o seen (x ∷ xs) = elim (Bool-cases (teq o x)) [
  | inl same ↦ elim (Bool-cases (any (teq x) seen)) [
    | inl again ↦
        let hit : any (teq o) seen ≡ true =
          subst (λ z. any (teq z) seen ≡ true) (sym (teq→eq o x same)) again in
        rw again (unseen_lem o seen xs ∙ rw hit)
    | inr fresh ↦
        let miss : any (teq o) seen ≡ false =
          subst (λ z. any (teq z) seen ≡ false) (sym (teq→eq o x same)) fresh in
        let gone = unseen_lem o (x ∷ seen) xs in rw fresh (ground (arith, same, miss, gone))
  ]
  | inr other ↦ elim (Bool-cases (any (teq x) seen)) [
    | inl again ↦ let rest = unseen_lem o seen xs in rw (again, other) rest
    | inr fresh ↦ let rest = unseen_lem o (x ∷ seen) xs in rw fresh (ground (arith, other, rest))
  ]
]

-- An origin is answered once if it may be trusted, and not at all otherwise: in production the
-- configured origins may be, elsewhere the four local ones too.
pub get_cors_origins_lem :
    (s : StartSettings) (o : Text)
    → length (keep (teq o) (get_cors_origins s))
      ≡ (if any (teq o) (trusted_origins s) then 1 else 0)
unfolding get_cors_origins
get_cors_origins_lem s o = elim (Bool-cases (is_production s)) [
  | inl production ↦ rw production (unseen_lem o [] (extra_origins s))
  | inr elsewhere ↦ rw elsewhere (unseen_lem o [] (default_origins ++ extra_origins s))
]
