-- ===== src/Archiver/Keys.antt =====
-- The names of the archives: `archive` and `_safe_path` of traj_archiver/session_worker.py, which
-- traj_archiver/archiver.py has too. A text is the list of its code points.
pub mod Distinct
use trajproxy.Base.{
  ℕ, ◌≡◌, Bool, true, false, Option, none, some, List, [], ◌∷◌, ◌++◌, map, ◌==◌, nat_eq,
  if◌then◌else◌,
}
use trajproxy.Texts.{Text}

abbrev pub comma : ℕ
comma = 44

abbrev pub slash : ℕ
slash = 47

abbrev pub underscore : ℕ
underscore = 95

abbrev pub safe_char : ℕ → ℕ
safe_char c = if c == comma then underscore else if c == slash then underscore else c

unfoldable pub safe_path : Text → Text
safe_path segment = map safe_char segment

-- "_null_session"
abbrev pub null_session_dir : Text
null_session_dir = 95 ∷ 110 ∷ 117 ∷ 108 ∷ 108 ∷ 95 ∷ 115 ∷ 101 ∷ 115 ∷ 115 ∷ 105 ∷ 111 ∷ 110 ∷ []

-- `session_id or _NULL_SESSION_DIR`
unfoldable pub display : Option Text → Text
display none = null_session_dir
display (some []) = null_session_dir
display (some (c ∷ t)) = c ∷ t

-- ".jsonl.gz" and ".jsonl"
unfoldable pub suffix : Bool → Text
suffix true = 46 ∷ 106 ∷ 115 ∷ 111 ∷ 110 ∷ 108 ∷ 46 ∷ 103 ∷ 122 ∷ []
suffix false = 46 ∷ 106 ∷ 115 ∷ 111 ∷ 110 ∷ 108 ∷ []

-- The key under which an archive is uploaded.
unfoldable pub archive_key : Bool → Text → Option Text → Text
unfolding safe_path display suffix
archive_key compress run session =
    safe_path run ++ (slash ∷ (safe_path (display session) ++ suffix compress))
