-- ===== src/Pathutil/Matching.antt =====
-- Matching a path against the documented templates.
use secure_api.Prelude.{
  ◌≡◌, refl, ap, ◌∙◌, sym, Text, codes, starts_with, teq, teq→eq, teq_refl, true, List, [], ◌∷◌,
  arith, All, Some, Bool-cases, inl, inr, ◌↔◌,
}
use secure_api.Pathutil.{
  Unicode, before_query, rstrip_slash, or_root, with_slash, normalize_segment, normalize_parts,
  normalize_path_for_discovery, is_wildcard, part_matches, parts_match, path_matches_template,
  any_template, is_documented,
}
use secure_api.Pathutil.Segments.{Lacks-before_query, before_query_of_Lacks, Lacks-rstrip_slash}
use secure_api.Pathutil.Markers.{
  IsSegment, id, uuid, slug, hash, plain, normalize_segment-cases, normalize_parts-All,
}
use secure_api.Pathutil.Normalize.{
  Lacks-or_root, rstrip_slash-with_slash, before_query-with_slash, split_on-with_slash,
  normalize-eq, segments_of-eq, or_empty_part, normalize_parts-or_empty_part,
}

rstrip_slash_idem : (path : Text) → rstrip_slash (rstrip_slash path) ≡ rstrip_slash path
unfolding rstrip_slash
rstrip_slash_idem [] = refl
rstrip_slash_idem (ch ∷ path) = ground (arith, rstrip_slash_idem path)

or_root-strip :
    (text : Text) → rstrip_slash text ≡ text → or_root (rstrip_slash (or_root text)) ≡ or_root text
unfolding or_root
or_root-strip [] h = unfold rstrip_slash teq in refl
or_root-strip (ch ∷ text) h = rw h refl

-- cleaning a cleaned path changes nothing
clean_idem :
    (path : Text)
    → let clean : Text → Text = λ p. or_root (rstrip_slash (before_query p)) in
      clean (clean path) ≡ clean path
clean_idem path =
    let stripped = rstrip_slash (before_query path) in
    let pure' = Lacks-rstrip_slash b'?' (before_query path) (Lacks-before_query path) in
    rw (before_query_of_Lacks (or_root stripped) (Lacks-or_root stripped pure'))
      (or_root-strip stripped (rstrip_slash_idem (before_query path)))

path_matches_template-clean :
    (path template : Text)
    → path_matches_template (or_root (rstrip_slash (before_query path))) template
      ≡ path_matches_template path template
unfolding path_matches_template
path_matches_template-clean path template = rw (clean_idem path) refl

-- a template of the request's method that the path matches
abbrev pub Documents : Unicode → Text → Text → Text × Text → Type 0
Documents u method path (tm, tp) =
    (u.upper tm ≡ u.upper method) × (path_matches_template path tp ≡ true)

any_template_sound :
    (u : Unicode) (method path : Text) (templates : List (Text × Text))
    → any_template u (u.upper method) path templates ≡ true
    → Some (Documents u method path) templates
unfolding any_template
any_template_sound u method path [] h = absurd (ground arith)
any_template_sound u method path ((tm, tp) ∷ templates) h =
    elim (Bool-cases (teq (u.upper tm) (u.upper method))) [
      | inl same ↦ elim (Bool-cases (path_matches_template path tp)) [
        | inl fits ↦ inl (teq→eq _ _ same, fits)
        | inr not ↦ inr (any_template_sound u method path templates (rw (same, not) at h))
      ]
      | inr other ↦ inr (any_template_sound u method path templates (rw other at h))
    ]

any_template_complete :
    (u : Unicode) (method path : Text) (templates : List (Text × Text))
    → Some (Documents u method path) templates
    → any_template u (u.upper method) path templates ≡ true
unfolding any_template
any_template_complete u method path [] h = absurd h
any_template_complete u method path ((tm, tp) ∷ templates) (inl (same, fits)) =
    rw (same, fits, teq_refl (u.upper method)) refl
any_template_complete u method path ((tm, tp) ∷ templates) (inr more) =
    let rest = any_template_complete u method path templates more in ground arith

Documents-clean :
    (u : Unicode) (method path : Text) (templates : List (Text × Text))
    → Some (Documents u method (or_root (rstrip_slash (before_query path)))) templates
    → Some (Documents u method path) templates
Documents-clean u method path [] h = absurd h
Documents-clean u method path ((tm, tp) ∷ templates) (inl (same, fits)) =
    inl (same, sym (path_matches_template-clean path tp) ∙ fits)
Documents-clean u method path ((tm, tp) ∷ templates) (inr more) =
    inr (Documents-clean u method path templates more)

clean-Documents :
    (u : Unicode) (method path : Text) (templates : List (Text × Text))
    → Some (Documents u method path) templates
    → Some (Documents u method (or_root (rstrip_slash (before_query path)))) templates
clean-Documents u method path [] h = absurd h
clean-Documents u method path ((tm, tp) ∷ templates) (inl (same, fits)) =
    inl (same, path_matches_template-clean path tp ∙ fits)
clean-Documents u method path ((tm, tp) ∷ templates) (inr more) =
    inr (clean-Documents u method path templates more)

-- A request is documented exactly when some template has its method, in any case, and matches
-- its path.
pub is_documented_iff :
    (u : Unicode) (method path : Text) (templates : List (Text × Text))
    → is_documented u method path templates ≡ true ↔ Some (Documents u method path) templates
unfolding is_documented
is_documented_iff u method path templates =
    let ap = or_root (rstrip_slash (before_query path)) in
    (
      λ h. Documents-clean u method path templates (any_template_sound u method ap templates h),
      λ h. any_template_complete u method ap templates (clean-Documents u method path templates h),
    )

part_matches-wildcard : (ac tc : Text) → is_wildcard tc ≡ true → part_matches ac tc ≡ true
unfolding part_matches
part_matches-wildcard ac tc h = ground arith

part_matches_refl : (ac : Text) → part_matches ac ac ≡ true
unfolding part_matches
part_matches_refl ac = let same = teq_refl ac in ground arith

-- the part a segment is replaced by matches the segment
part_matches-normalize :
    (u : Unicode) (seg : Text) → part_matches seg (normalize_segment u seg) ≡ true
unfolding is_wildcard starts_with
part_matches-normalize u seg = elim (normalize_segment-cases u seg) [
  | id e ↦ rw e (part_matches-wildcard seg (codes "{id}") refl)
  | uuid e ↦ rw e (part_matches-wildcard seg (codes "{uuid}") refl)
  | slug e ↦ rw e (part_matches-wildcard seg (codes "{slug}") refl)
  | hash e ↦ rw e (part_matches-wildcard seg (codes "{hash}") refl)
  | plain e _ ↦ rw e (part_matches_refl seg)
]

parts_match-normalize :
    (u : Unicode) (parts : List Text)
    → All IsSegment parts
    → parts_match parts (normalize_parts u parts) ≡ true
unfolding normalize_parts parts_match
parts_match-normalize u [] h = refl
parts_match-normalize u (part ∷ parts) (h, hs) =
    rw (h.nonempty, part_matches-normalize u part, parts_match-normalize u parts hs) refl

parts_match-or_empty :
    (a t : List Text)
    → parts_match a t ≡ true
    → parts_match ([] ∷ or_empty_part a) ([] ∷ or_empty_part t) ≡ true
unfolding parts_match part_matches teq
parts_match-or_empty [] [] e = refl
parts_match-or_empty [] (x ∷ t) e = absurd (ground arith)
parts_match-or_empty (x ∷ a) [] e = absurd (ground arith)
parts_match-or_empty (x ∷ a) (y ∷ t) e = e

with_slash-matches :
    (parts template : List Text)
    → All IsSegment parts
    → All IsSegment template
    → parts_match parts template ≡ true
    → path_matches_template (with_slash parts) (with_slash template) ≡ true
unfolding path_matches_template
with_slash-matches parts template h k fits =
    rw
      (
        before_query-with_slash parts h,
        rstrip_slash-with_slash parts h,
        rstrip_slash-with_slash template k,
        split_on-with_slash parts h,
        split_on-with_slash template k,
      )
      (parts_match-or_empty parts template fits)

-- A path of nonempty segments without slashes or question marks matches the template that it is
-- normalised to.
pub normalize_path_for_discovery-matches :
    (u : Unicode) (parts : List Text)
    → All IsSegment parts
    → path_matches_template (with_slash parts) (normalize_path_for_discovery u (with_slash parts))
      ≡ true
normalize_path_for_discovery-matches u parts h = rw normalized (
    with_slash-matches parts (normalize_parts u parts) h (normalize_parts-All u parts h)
      (parts_match-normalize u parts h))
  where
    normalized :
        normalize_path_for_discovery u (with_slash parts) ≡ with_slash (normalize_parts u parts)
    normalized =
        normalize-eq u (with_slash parts)
        ∙ ap with_slash (segments_of-eq u parts h ∙ normalize_parts-or_empty_part u parts)
