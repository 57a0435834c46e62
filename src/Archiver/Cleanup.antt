-- ===== src/Archiver/Cleanup.antt =====
-- `_cleanup_run` of traj_archiver/archiver.py: the rows of the sessions that are archived. The two
-- statements stand in one transaction; a condition of SQL holds only if it is true, not NULL.
pub mod Exact
use trajproxy.Base.{
  ℕ, ◌≡◌, String, Bool, true, false, not, ◌&&◌, Option, none, some, List, [], ◌∷◌, map, ◌==◌,
  string_eq, option_eq, if◌then◌else◌, contains, not_empty,
}
use trajproxy.Archiver.{Session}

-- A row of `request_metadata`, with the columns that are read here.
pub record MetaRow : Type 0 where
  pub unique_id : String
  pub run_id : String
  pub session_id : Session
  pub archive_location : Option String
  pub archived_at : Option ℕ

-- `details` are the unique ids of `request_details_active`.
pub record Database : Type 0 where
  pub metadata : List MetaRow
  pub details : List String

-- The three forms of `session_filter`, with the parameters.
pub data SessionFilter : Type 0 where
  is_null : SessionFilter
  in_ids null_or_in : List String → SessionFilter

-- [sid for sid in successful_session_ids if sid is not None]
unfoldable pub non_null_ids : List Session → List String
non_null_ids [] = []
non_null_ids (none ∷ ss) = non_null_ids ss
non_null_ids (some s ∷ ss) = s ∷ non_null_ids ss

unfoldable pub session_filter : List Session → SessionFilter
unfolding non_null_ids contains
session_filter ids =
    let named = non_null_ids ids in
    let has_null = contains none ids in
    if has_null && not_empty named
    then null_or_in named
    else if has_null
    then is_null
    else in_ids named

abbrev pub is_null_id : Session → Bool
is_null_id none = true
is_null_id (some s) = false

-- A comparison with NULL is not true.
unfoldable pub is_in : List String → Session → Bool
unfolding contains
is_in ids none = false
is_in ids (some s) = contains s ids

unfoldable pub matches : SessionFilter → Session → Bool
unfolding is_in
matches is_null s = is_null_id s
matches (in_ids ids) s = is_in ids s
matches (null_or_in ids) s = if is_null_id s then true else is_in ids s

-- The subquery: is the unique id selected?
unfoldable pub selects : String → SessionFilter → List MetaRow → String → Bool
unfolding matches
selects run filter [] uid = false
selects run filter (row ∷ rows) uid =
    if (row.unique_id == uid) && ((row.run_id == run) && matches filter row.session_id)
    then true
    else selects run filter rows uid

unfoldable pub delete_details : String → SessionFilter → List MetaRow → List String → List String
unfolding selects
delete_details run filter rows [] = []
delete_details run filter rows (uid ∷ uids) =
    let rest = delete_details run filter rows uids in
    if selects run filter rows uid then rest else uid ∷ rest

abbrev pub has_no_location : MetaRow → Bool
has_no_location row = elim row.archive_location [ none ↦ true | some l ↦ false ]

unfoldable pub update_row : String → SessionFilter → String → ℕ → MetaRow → MetaRow
unfolding matches
update_row run filter location now row =
    if (row.run_id == run) && (matches filter row.session_id && has_no_location row)
    then record row { archive_location = some location; archived_at = some now }
    else row

unfoldable pub cleanup_run : String → String → ℕ → List Session → Database → Database
unfolding session_filter delete_details update_row
cleanup_run run location now [] db = db
cleanup_run run location now (s ∷ ss) db =
    let filter = session_filter (s ∷ ss) in
    record {
      metadata = map (update_row run filter location now) db.metadata;
      details = delete_details run filter db.metadata db.details;
    }
