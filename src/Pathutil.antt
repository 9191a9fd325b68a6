-- ===== src/Pathutil.antt =====
-- app/services/pathutil.py: paths as lists of code points. What str.lower and str.upper do beyond
-- ASCII, and which characters `\d` matches, are parameters (`Unicode`).
pub mod Segments
pub mod Markers
pub mod Normalize
pub mod Matching
pub mod Redaction
use secure_api.Prelude.{
  ℕ, zero, suc, ◌+◌, ◌<◌, ◌≡◌, Text, codes, teq, Bool, true, false, not, ◌&&◌, ◌||◌, Option, none,
  some, List, [], ◌∷◌, ◌++◌, reverse, leb, ltb, ◌==◌, if◌then◌else◌, length, all, take, starts_with,
}

pub record Unicode : Type 0 where
  pub lower : Text → Text
  pub upper : Text → Text
  pub is_decimal : ℕ → Bool

-- path.split("?", 1)[0]
unfoldable pub before_query : Text → Text
before_query [] = []
before_query (ch ∷ path) = let rest = before_query path in if ch == b'?' then [] else ch ∷ rest

-- p.rstrip("/")
unfoldable pub rstrip_slash : Text → Text
rstrip_slash [] = []
rstrip_slash (ch ∷ path) =
    let rest = rstrip_slash path in if ch == b'/' && teq rest [] then [] else ch ∷ rest

-- … or "/"
unfoldable pub or_root : Text → Text
or_root [] = b'/' ∷ []
or_root (ch ∷ path) = ch ∷ path

-- p.split("/"): `cons_first` puts a character before the first part
abbrev cons_first : ℕ → List Text → List Text
cons_first ch [] = (ch ∷ []) ∷ []
cons_first ch (part ∷ parts) = (ch ∷ part) ∷ parts

unfoldable pub split_on : ℕ → Text → List Text
split_on sep [] = [] ∷ []
split_on sep (ch ∷ text) =
    let rest = split_on sep text in if ch == sep then [] ∷ rest else cons_first ch rest

-- "/".join(parts)
unfoldable pub join_slash : List Text → Text
join_slash [] = []
join_slash (part ∷ []) = part
join_slash (part ∷ more) = part ++ b'/' ∷ join_slash more

unfoldable pub is_hex : ℕ → Bool
is_hex ch = leb b'0' ch && leb ch b'9' || leb b'a' ch && leb ch b'f' || leb b'A' ch && leb ch b'F'

unfoldable pub is_slug_char : ℕ → Bool
is_slug_char ch = leb b'a' ch && leb ch b'z' || leb b'0' ch && leb ch b'9'

-- `$` matches at the end and before a final newline
unfoldable pub drop_newline : Text → Text
drop_newline [] = []
drop_newline (ch ∷ []) = if ch == 10 then [] else ch ∷ []
drop_newline (ch ∷ next ∷ text) = ch ∷ drop_newline (next ∷ text)

abbrev pub is_nonempty : Text → Bool
is_nonempty [] = false
is_nonempty (ch ∷ text) = true

-- _NUM_RE
unfoldable pub is_num : Unicode → Text → Bool
unfolding drop_newline
is_num u seg =
    is_nonempty seg && all u.is_decimal seg
    || is_nonempty (drop_newline seg) && all u.is_decimal (drop_newline seg)

abbrev hex_of_length : ℕ → Text → Bool
hex_of_length n part = length part == n && all is_hex part

abbrev uuid_parts : List Text → Bool
uuid_parts (a ∷ b ∷ c ∷ d ∷ e ∷ []) =
    hex_of_length 8 a
    && hex_of_length 4 b
    && hex_of_length 4 c
    && hex_of_length 4 d
    && hex_of_length 12 e
uuid_parts _ = false

-- _UUID_RE: the parts between the dashes
unfoldable pub is_uuid : Text → Bool
unfolding drop_newline split_on is_hex
is_uuid seg = uuid_parts (split_on b'-' (drop_newline seg))

abbrev slug_part : Text → Bool
slug_part part = is_nonempty part && all is_slug_char part

-- _SLUG_RE: three parts or more between the dashes, none of them empty
unfoldable pub is_slug : Text → Bool
unfolding drop_newline split_on is_slug_char
is_slug seg =
    let parts = split_on b'-' (drop_newline seg) in leb 3 (length parts) && all slug_part parts

abbrev is_hash_char : ℕ → Bool
is_hash_char ch = leb b'0' ch && leb ch b'9' || leb b'a' ch && leb ch b'f' || ch == b'-'

unfoldable pub is_hash : Unicode → Text → Bool
is_hash u seg = ltb 24 (length seg) && all is_hash_char (u.lower seg)

-- what a dynamic segment is replaced by
unfoldable pub normalize_segment : Unicode → Text → Text
normalize_segment u seg =
    if is_num u seg
    then codes "{id}"
    else if is_uuid seg
    then codes "{uuid}"
    else if is_slug seg
    then codes "{slug}"
    else if is_hash u seg
    then codes "{hash}"
    else seg

unfoldable pub normalize_parts : Unicode → List Text → List Text
normalize_parts u [] = []
normalize_parts u (seg ∷ parts) =
    let out = normalize_parts u parts in if teq seg [] then out else normalize_segment u seg ∷ out

abbrev pub with_slash : List Text → Text
with_slash [] = b'/' ∷ []
with_slash (part ∷ parts) = b'/' ∷ join_slash (part ∷ parts)

unfoldable pub normalize_path_for_discovery : Unicode → Text → Text
unfolding before_query rstrip_slash or_root split_on normalize_parts normalize_segment is_num
    is_uuid is_slug is_hash join_slash
normalize_path_for_discovery u [] = b'/' ∷ []
normalize_path_for_discovery u (ch ∷ path) =
    with_slash
      (normalize_parts u (split_on b'/' (or_root (rstrip_slash (before_query (ch ∷ path))))))

-- tc.startswith("{") and tc.endswith("}")
unfoldable pub is_wildcard : Text → Bool
is_wildcard tc = starts_with (codes "{") tc && starts_with (codes "}") (reverse tc)

-- one round of the loop over the zipped parts: False ends it
unfoldable pub part_matches : Text → Text → Bool
unfolding is_wildcard
part_matches ac tc = teq ac [] && teq tc [] || is_wildcard tc || teq ac tc

-- the two have as many parts, and each matches
unfoldable pub parts_match : List Text → List Text → Bool
parts_match [] [] = true
parts_match (ac ∷ a) (tc ∷ t) = part_matches ac tc && parts_match a t
parts_match _ _ = false

unfoldable pub path_matches_template : Text → Text → Bool
unfolding before_query rstrip_slash or_root split_on parts_match part_matches
path_matches_template actual_path template =
    parts_match (split_on b'/' (or_root (rstrip_slash (before_query actual_path))))
      (split_on b'/' (or_root (rstrip_slash template)))

-- the loop over the templates
unfoldable pub any_template : Unicode → Text → Text → List (Text × Text) → Bool
any_template u m ap [] = false
any_template u m ap ((tm, tp) ∷ templates) =
    teq (u.upper tm) m && path_matches_template ap tp || any_template u m ap templates

unfoldable pub is_documented : Unicode → Text → Text → List (Text × Text) → Bool
unfolding any_template
is_documented u method path templates =
    any_template u (u.upper method) (or_root (rstrip_slash (before_query path))) templates
