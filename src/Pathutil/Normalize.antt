-- ===== src/Pathutil/Normalize.antt =====
-- Normalised paths: their shape, and that normalising once more changes nothing.
use secure_api.Prelude.{◌≡◌, refl, ap, ◌∙◌, Text, teq, false, List, [], ◌∷◌, All}
use secure_api.Pathutil.{
  Unicode, before_query, rstrip_slash, or_root, split_on, join_slash, with_slash, normalize_parts,
  normalize_path_for_discovery,
}
use secure_api.Pathutil.Segments.{
  Lacks, Lacks-before_query, before_query_of_Lacks, Lacks-rstrip_slash, rstrip_slash_of_Lacks,
  rstrip_slash-append, split_on-Lacks, split_on-Lacks_other, split_on-join_slash, Lacks-append,
  append-cons_nonempty,
}
use secure_api.Pathutil.Markers.{IsSegment, normalize_parts-IsSegment, normalize_parts_idem}

slash_free : (parts : List Text) → All IsSegment parts → All (Lacks b'/') parts
slash_free [] h = tt
slash_free (part ∷ parts) (h, hs) = (h.no_slash, slash_free parts hs)

pub Lacks-or_root : (text : Text) → Lacks b'?' text → Lacks b'?' (or_root text)
unfolding or_root
Lacks-or_root [] h = refl
Lacks-or_root (ch ∷ text) h = h

rstrip_slash_cons :
    (text : Text)
    → rstrip_slash text ≡ text
    → teq text [] ≡ false
    → rstrip_slash (b'/' ∷ text) ≡ b'/' ∷ text
unfolding rstrip_slash
rstrip_slash_cons text same full = rw (same, full)

rstrip_slash-join_slash :
    (part : Text) (parts : List Text)
    → All IsSegment (part ∷ parts)
    → (rstrip_slash (join_slash (part ∷ parts)) ≡ join_slash (part ∷ parts))
      × (teq (join_slash (part ∷ parts)) [] ≡ false)
unfolding join_slash
rstrip_slash-join_slash part [] (h, hs) = (rstrip_slash_of_Lacks part h.no_slash, h.nonempty)
rstrip_slash-join_slash part (next ∷ parts) (h, hs) =
    let (same, full) = rstrip_slash-join_slash next parts hs in
    (
      rstrip_slash-append part b'/' (join_slash (next ∷ parts)) (rstrip_slash_cons _ same full),
      append-cons_nonempty part b'/' (join_slash (next ∷ parts)),
    )

Lacks-join_slash :
    (part : Text) (parts : List Text)
    → All IsSegment (part ∷ parts)
    → Lacks b'?' (join_slash (part ∷ parts))
unfolding join_slash
Lacks-join_slash part [] (h, hs) = h.no_query
Lacks-join_slash part (next ∷ parts) (h, hs) =
    Lacks-append b'?' part (b'/' ∷ join_slash (next ∷ parts)) h.no_query
      (Lacks-join_slash next parts hs)

-- what "/" alone splits into, besides the empty part before its slash
abbrev pub or_empty_part : List Text → List Text
or_empty_part [] = [] ∷ []
or_empty_part (part ∷ parts) = part ∷ parts

-- Stripping leaves a normalised path as it is.
pub rstrip_slash-with_slash :
    (parts : List Text)
    → All IsSegment parts
    → or_root (rstrip_slash (with_slash parts)) ≡ with_slash parts
unfolding or_root
rstrip_slash-with_slash [] h = unfold rstrip_slash teq in refl
rstrip_slash-with_slash (part ∷ parts) h =
    let (same, full) = rstrip_slash-join_slash part parts h in rw (rstrip_slash_cons _ same full)

pub before_query-with_slash :
    (parts : List Text) → All IsSegment parts → before_query (with_slash parts) ≡ with_slash parts
before_query-with_slash [] h = before_query_of_Lacks _ refl
before_query-with_slash (part ∷ parts) h = before_query_of_Lacks _ (Lacks-join_slash part parts h)

-- the parts that a normalised path splits into
pub split_on-with_slash :
    (parts : List Text)
    → All IsSegment parts
    → split_on b'/' (with_slash parts) ≡ [] ∷ or_empty_part parts
unfolding split_on
split_on-with_slash [] h = refl
split_on-with_slash (part ∷ parts) h =
    ap (λ t. [] ∷ t) (split_on-join_slash part parts (slash_free (part ∷ parts) h))

-- the segments that a path is normalised to
pub segments_of : Unicode → Text → List Text
segments_of u path = normalize_parts u (split_on b'/' (or_root (rstrip_slash (before_query path))))

pub segments_of-IsSegment : (u : Unicode) (path : Text) → All IsSegment (segments_of u path)
unfolding segments_of
segments_of-IsSegment u path =
    let stripped = rstrip_slash (before_query path) in
    let clean = Lacks-rstrip_slash b'?' (before_query path) (Lacks-before_query path) in
    normalize_parts-IsSegment u (split_on b'/' (or_root stripped)) (split_on-Lacks b'/' _)
      (split_on-Lacks_other b'/' b'?' (or_root stripped) (Lacks-or_root stripped clean))

pub normalize-eq :
    (u : Unicode) (path : Text)
    → normalize_path_for_discovery u path ≡ with_slash (segments_of u path)
unfolding normalize_path_for_discovery segments_of
normalize-eq u [] = unfold teq in refl
normalize-eq u (ch ∷ path) = refl

pub segments_of-eq :
    (u : Unicode) (parts : List Text)
    → All IsSegment parts
    → segments_of u (with_slash parts) ≡ normalize_parts u ([] ∷ or_empty_part parts)
unfolding segments_of
segments_of-eq u parts h =
    rw (
      before_query-with_slash parts h,
      rstrip_slash-with_slash parts h,
      split_on-with_slash parts h,
    )

pub normalize_parts-or_empty_part :
    (u : Unicode) (parts : List Text)
    → normalize_parts u ([] ∷ or_empty_part parts) ≡ normalize_parts u parts
unfolding normalize_parts teq
normalize_parts-or_empty_part u [] = refl
normalize_parts-or_empty_part u (part ∷ parts) = refl

segments_of_idem :
    (u : Unicode) (path : Text)
    → u.is_decimal b'{' ≡ false
    → normalize_parts u (segments_of u path) ≡ segments_of u path
unfolding segments_of
segments_of_idem u path brace = normalize_parts_idem u _ brace (segments_of-IsSegment u path)

-- Normalising a normalised path changes nothing, whatever the path, if "{" is no decimal digit.
pub normalize_path_for_discovery_idem :
    (u : Unicode) (path : Text)
    → u.is_decimal b'{' ≡ false
    → normalize_path_for_discovery u (normalize_path_for_discovery u path)
      ≡ normalize_path_for_discovery u path
normalize_path_for_discovery_idem u path brace =
    let parts = segments_of u path in
    let ok' = segments_of-IsSegment u path in
    rw (normalize-eq u path, normalize-eq u (with_slash parts))
      (ap with_slash (
        segments_of-eq u parts ok'
        ∙ normalize_parts-or_empty_part u parts
        ∙ segments_of_idem u path brace))
