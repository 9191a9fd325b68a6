-- ===== src/Pathutil/Markers.antt =====
-- The segments of a path, what they are replaced by, and that a replaced segment stays.
use secure_api.Prelude.{
  ◌≡◌, refl, Text, codes, teq, false, List, [], ◌∷◌, All, Bool-cases, inl, inr,
}
use secure_api.Pathutil.{
  Unicode, is_num, is_uuid, is_slug, is_hash, normalize_segment, normalize_parts,
}
use secure_api.Pathutil.Segments.{Lacks}

-- a part of a path between its slashes
pub record IsSegment (seg : Text) : Type 0 where
  pub nonempty : teq seg [] ≡ false
  pub no_slash : Lacks b'/' seg
  pub no_query : Lacks b'?' seg

-- A segment is replaced by a marker, or no rule fits it and it stays.
pub data Normalized (u : Unicode) (seg : Text) : Text → Type 0 where
  id : {out : Text} → out ≡ codes "{id}" → Normalized u seg out
  uuid : {out : Text} → out ≡ codes "{uuid}" → Normalized u seg out
  slug : {out : Text} → out ≡ codes "{slug}" → Normalized u seg out
  hash : {out : Text} → out ≡ codes "{hash}" → Normalized u seg out
  plain : {out : Text} → out ≡ seg → normalize_segment u seg ≡ seg → Normalized u seg out

pub normalize_segment-cases :
    (u : Unicode) (seg : Text) → Normalized u seg (normalize_segment u seg)
unfolding normalize_segment
normalize_segment-cases u seg = elim (Bool-cases (is_num u seg)) [
  | inl num ↦ id (rw num)
  | inr not_num ↦ elim (Bool-cases (is_uuid seg)) [
    | inl a ↦ uuid (rw (not_num, a))
    | inr not_uuid ↦ elim (Bool-cases (is_slug seg)) [
      | inl a ↦ slug (rw (not_num, not_uuid, a))
      | inr not_slug ↦ elim (Bool-cases (is_hash u seg)) [
        | inl a ↦ hash (rw (not_num, not_uuid, not_slug, a))
        | inr not_hash ↦
            let same : normalize_segment u seg ≡ seg = rw (not_num, not_uuid, not_slug, not_hash) in
            plain same same
      ]
    ]
  ]
]

Normalized-IsSegment :
    (u : Unicode) (seg : Text) {out : Text} → Normalized u seg out → IsSegment seg → IsSegment out
unfolding teq
Normalized-IsSegment u seg (id e) h =
    rw e (record { nonempty = refl; no_slash = refl; no_query = refl })
Normalized-IsSegment u seg (uuid e) h =
    rw e (record { nonempty = refl; no_slash = refl; no_query = refl })
Normalized-IsSegment u seg (slug e) h =
    rw e (record { nonempty = refl; no_slash = refl; no_query = refl })
Normalized-IsSegment u seg (hash e) h =
    rw e (record { nonempty = refl; no_slash = refl; no_query = refl })
Normalized-IsSegment u seg (plain e _) h = rw e h

-- no rule fits a marker, if "{" is no digit
module _ (u : Unicode) (brace : u.is_decimal b'{' ≡ false) where
  marker_stays :
      (normalize_segment u (codes "{id}") ≡ codes "{id}")
      × (normalize_segment u (codes "{uuid}") ≡ codes "{uuid}")
      × (normalize_segment u (codes "{slug}") ≡ codes "{slug}")
      × (normalize_segment u (codes "{hash}") ≡ codes "{hash}")
  unfolding normalize_segment is_num is_uuid is_slug is_hash
  marker_stays = (rw brace, rw brace, rw brace, rw brace)

  Normalized-stays :
      (seg : Text) {out : Text} → Normalized u seg out → normalize_segment u out ≡ out
  Normalized-stays seg (id e) = rw e marker_stays.0
  Normalized-stays seg (uuid e) = rw e marker_stays.1
  Normalized-stays seg (slug e) = rw e marker_stays.2
  Normalized-stays seg (hash e) = rw e marker_stays.3
  Normalized-stays seg (plain e stays) = rw e stays

pub normalize_parts-IsSegment :
    (u : Unicode) (parts : List Text)
    → All (Lacks b'/') parts
    → All (Lacks b'?') parts
    → All IsSegment (normalize_parts u parts)
unfolding normalize_parts
normalize_parts-IsSegment u [] h k = tt
normalize_parts-IsSegment u (seg ∷ parts) (h, hs) (k, ks) =
    let rest = normalize_parts-IsSegment u parts hs ks in
    elim (Bool-cases (teq seg [])) [
      | inl empty ↦ rw empty rest
      | inr full ↦ rw full (
        Normalized-IsSegment u seg (normalize_segment-cases u seg)
            (record { nonempty = full; no_slash = h; no_query = k }),
        rest,
      )
    ]

pub normalize_parts_idem :
    (u : Unicode) (parts : List Text)
    → u.is_decimal b'{' ≡ false
    → All IsSegment (normalize_parts u parts)
    → normalize_parts u (normalize_parts u parts) ≡ normalize_parts u parts
unfolding normalize_parts
normalize_parts_idem u [] brace h = refl
normalize_parts_idem u (seg ∷ parts) brace h = elim (Bool-cases (teq seg [])) [
  | inl empty ↦ rw empty (normalize_parts_idem u parts brace (rw empty at h))
  | inr full ↦
      let hs : All IsSegment (normalize_segment u seg ∷ normalize_parts u parts) = rw full at h in
      let rest = normalize_parts_idem u parts brace hs.1 in
      let stays = Normalized-stays u brace seg (normalize_segment-cases u seg) in
      rw (full, hs.0.nonempty, stays, rest)
]

pub normalize_parts-All :
    (u : Unicode) (parts : List Text)
    → All IsSegment parts
    → All IsSegment (normalize_parts u parts)
unfolding normalize_parts
normalize_parts-All u [] h = tt
normalize_parts-All u (part ∷ parts) (h, hs) =
    rw h.nonempty (
      Normalized-IsSegment u part (normalize_segment-cases u part) h,
      normalize_parts-All u parts hs,
    )
