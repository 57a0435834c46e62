-- ===== src/Offloading/Keys.antt =====
-- The keys of blobs: `_make_blob_key` and `_sanitize_path_segment` of `OffloadingRepository`.
use trajproxy.Base.{
  ℕ, ◌≡◌, ◌≢◌, refl, Bool, true, false, Option, none, some, [], ◌∷◌, ◌++◌, ◌==◌, nat_eq,
  if◌then◌else◌, ◌&&◌, ◌||◌, arith, contains,
}
use trajproxy.Texts.{Text}

abbrev slash : ℕ
slash = b'/'

abbrev backslash : ℕ
backslash = 92

abbrev dot : ℕ
dot = b'.'

abbrev underscore : ℕ
underscore = b'_'

-- `_UNKNOWN_SEGMENT`
abbrev unknown_segment : Text
unknown_segment = b'u' ∷ b'n' ∷ b'k' ∷ b'n' ∷ b'o' ∷ b'w' ∷ b'n' ∷ []

abbrev json_suffix : Text
json_suffix = b'.' ∷ b'j' ∷ b's' ∷ b'o' ∷ b'n' ∷ []

-- segment.replace(c, "_"), where `c` is one character
unfoldable replace_char : ℕ → Text → Text
replace_char c [] = []
replace_char c (x ∷ t) = (if x == c then underscore else x) ∷ replace_char c t

-- segment.replace("..", "_")
unfoldable replace_dots : Text → Text
replace_dots [] = []
replace_dots (x ∷ []) = x ∷ []
replace_dots (x ∷ y ∷ t) =
    let both = replace_dots t in
    let one = replace_dots (y ∷ t) in if x == dot && y == dot then underscore ∷ both else x ∷ one

abbrev or_unknown : Text → Text
or_unknown [] = unknown_segment
or_unknown (c ∷ t) = c ∷ t

unfoldable pub sanitize_path_segment : Text → Text
unfolding replace_char replace_dots
sanitize_path_segment segment =
    or_unknown (replace_dots (replace_char backslash (replace_char slash segment)))

-- `run_id or _UNKNOWN_SEGMENT`
unfoldable pub present : Option Text → Text
present none = unknown_segment
present (some t) = or_unknown t

unfoldable pub make_blob_key : Text → Option Text → Option Text → Text → Text
unfolding sanitize_path_segment present
make_blob_key prefix run_id session_id request_id =
    prefix
    ++ slash ∷ sanitize_path_segment (present run_id)
    ++ slash ∷ sanitize_path_segment (present session_id)
    ++ slash ∷ sanitize_path_segment request_id
    ++ json_suffix

-- Two dots in a row.
unfoldable pub has_dots : Text → Bool
has_dots [] = false
has_dots (x ∷ []) = false
has_dots (x ∷ y ∷ t) = (x == dot && y == dot) || has_dots (y ∷ t)

starts_dot : Text → Bool
starts_dot [] = false
starts_dot (x ∷ t) = x == dot

contains-replace_char :
    (c d : ℕ) (t : Text)
    → (underscore == d) ≡ false
    → (d == c) ≡ true
    → contains d (replace_char c t) ≡ false
unfolding contains replace_char
contains-replace_char c d [] h e = refl
contains-replace_char c d (x ∷ t) h e = ground (arith, h, e, contains-replace_char c d t h e)

keeps-replace_char :
    (c d : ℕ) (t : Text)
    → (underscore == d) ≡ false
    → contains d t ≡ false
    → contains d (replace_char c t) ≡ false
unfolding contains replace_char
keeps-replace_char c d [] h e = refl
keeps-replace_char c d (x ∷ t) h e = ground (arith, h, e, keeps-replace_char c d t h)

keeps-replace_dots :
    (d : ℕ) (t : Text)
    → (underscore == d) ≡ false
    → contains d t ≡ false
    → contains d (replace_dots t) ≡ false
unfolding contains replace_dots
keeps-replace_dots d [] h e = refl
keeps-replace_dots d (x ∷ []) h e = e
keeps-replace_dots d (x ∷ y ∷ t) h e =
    ground (arith, h, e, keeps-replace_dots d t h, keeps-replace_dots d (y ∷ t) h)

-- The replaced text starts with a dot only if the text does, and a dot is then not followed by one.
starts-replace_dots : (t : Text) → starts_dot t ≡ false → starts_dot (replace_dots t) ≡ false
unfolding starts_dot replace_dots
starts-replace_dots [] e = refl
starts-replace_dots (x ∷ []) e = e
starts-replace_dots (x ∷ y ∷ t) e = ground (arith, e)

has_dots-cons :
    (x : ℕ) (t : Text)
    → has_dots t ≡ false
    → ((x == dot) && starts_dot t) ≡ false
    → has_dots (x ∷ t) ≡ false
unfolding has_dots starts_dot
has_dots-cons x [] h e = refl
has_dots-cons x (y ∷ t) h e = ground (arith, h, e)

has_dots-replace_dots : (t : Text) → has_dots (replace_dots t) ≡ false
unfolding replace_dots has_dots starts_dot
has_dots-replace_dots [] = refl
has_dots-replace_dots (x ∷ []) = refl
has_dots-replace_dots (x ∷ y ∷ t) = ground (
  arith,
  has_dots-cons underscore (replace_dots t) (has_dots-replace_dots t),
  has_dots-cons x (replace_dots (y ∷ t)) (has_dots-replace_dots (y ∷ t)),
  starts-replace_dots (y ∷ t),
)

-- A sanitized segment is not empty, and has no slash, no backslash and no two dots in a row.
pub sanitize_path_segment_lem :
    (t : Text)
    → (sanitize_path_segment t ≢ [])
      × (contains slash (sanitize_path_segment t) ≡ false)
      × (contains backslash (sanitize_path_segment t) ≡ false)
      × (has_dots (sanitize_path_segment t) ≡ false)
unfolding sanitize_path_segment contains has_dots
sanitize_path_segment_lem t =
    let a = replace_char slash t in
    let b = replace_char backslash a in
    let no_slash : contains slash b ≡ false =
      keeps-replace_char backslash slash a refl (contains-replace_char slash slash t refl refl) in
    let no_backslash : contains backslash b ≡ false =
      contains-replace_char backslash backslash a refl refl in
    go (replace_dots b) (keeps-replace_dots slash b refl no_slash)
      (keeps-replace_dots backslash b refl no_backslash) (has_dots-replace_dots b)
  where
    go :
        (u : Text)
        → contains slash u ≡ false
        → contains backslash u ≡ false
        → has_dots u ≡ false
        → (or_unknown u ≢ [])
          × (contains slash (or_unknown u) ≡ false)
          × (contains backslash (or_unknown u) ≡ false)
          × (has_dots (or_unknown u) ≡ false)
    go [] h k l = ((λ e. ground (arith, e)), refl, refl, refl)
    go (c ∷ u) h k l = ((λ e. ground (arith, e)), h, k, l)
