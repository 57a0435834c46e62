-- ===== src/Archiver/Cleanup/Exact.antt =====
-- What the clean-up of a run takes out of the database, and what it marks.
use trajproxy.Base.{
  ℕ, ◌≡◌, refl, sym, ap, fun_ext, String, Bool, true, false, not, ◌&&◌, none, some, List, [], ◌∷◌,
  map, ◌==◌, string_eq, option_eq, if◌then◌else◌, contains, not_empty, arith, Bool-cases, inl, inr,
}
use trajproxy.Archiver.{Session}
use trajproxy.Archiver.Cleanup.{
  MetaRow, Database, SessionFilter, non_null_ids, session_filter, is_in, matches, selects,
  delete_details, update_row, cleanup_run, has_no_location,
}

contains-non_null :
    (s : String) (ids : List Session) → contains s (non_null_ids ids) ≡ contains (some s) ids
unfolding contains non_null_ids
contains-non_null s [] = refl
contains-non_null s (none ∷ ids) = contains-non_null s ids
contains-non_null s (some x ∷ ids) = ground (arith, contains-non_null s ids)

-- No name is left: only NULL can be in the list.
no_names :
    (s : String) (ids : List Session)
    → not_empty (non_null_ids ids) ≡ false
    → contains (some s) ids ≡ false
unfolding contains non_null_ids
no_names s [] h = refl
no_names s (none ∷ ids) h = no_names s ids h
no_names s (some x ∷ ids) h = cc (h)

-- The condition of SQL selects the sessions of the list, NULL among them, and no other.
matches-filter :
    (ids : List Session) (s : Session) → matches (session_filter ids) s ≡ contains s ids
unfolding session_filter matches is_in
matches-filter ids none = elim (Bool-cases (contains none ids)) [
  | inl e ↦ elim (Bool-cases (not_empty (non_null_ids ids))) [
    | inl f ↦ rw (e, f) refl
    | inr f ↦ rw (e, f) refl
  ]
  | inr e ↦ rw e refl
]
matches-filter ids (some x) = elim (Bool-cases (contains none ids)) [
  | inl e ↦ elim (Bool-cases (not_empty (non_null_ids ids))) [
    | inl f ↦ rw (e, f) (contains-non_null x ids)
    | inr f ↦ rw (e, f) (sym (no_names x ids f))
  ]
  | inr e ↦ rw e (contains-non_null x ids)
]

-- The row of a session that is archived with the run.
abbrev pub is_archived : String → List Session → MetaRow → Bool
is_archived run ids row = (row.run_id == run) && contains row.session_id ids

-- Is `uid` the id of a row of an archived session?
unfoldable pub belongs : String → List Session → List MetaRow → String → Bool
belongs run ids [] uid = false
belongs run ids (row ∷ rows) uid =
    if (row.unique_id == uid) && is_archived run ids row then true else belongs run ids rows uid

-- A row that has no location yet gets one, if its session is archived.
abbrev pub mark : String → List Session → String → ℕ → MetaRow → MetaRow
mark run ids location now row =
    if is_archived run ids row && has_no_location row
    then record row { archive_location = some location; archived_at = some now }
    else row

selects-belongs :
    (run : String) (ids : List Session) (rows : List MetaRow) (uid : String)
    → selects run (session_filter ids) rows uid ≡ belongs run ids rows uid
unfolding selects belongs
selects-belongs run ids [] uid = refl
selects-belongs run ids (row ∷ rows) uid =
    rw (matches-filter ids row.session_id, selects-belongs run ids rows uid) refl

details-contains :
    (run : String) (filter : SessionFilter) (rows : List MetaRow) (uid : String)
    (uids : List String)
    → contains uid (delete_details run filter rows uids)
      ≡ (contains uid uids && not (selects run filter rows uid))
unfolding delete_details contains
details-contains run filter rows uid [] = refl
details-contains run filter rows uid (x ∷ uids) =
    ground (arith, details-contains run filter rows uid uids, string_eq.beq_iff x uid)

mark-update :
    (run : String) (ids : List Session) (location : String) (now : ℕ) (row : MetaRow)
    → update_row run (session_filter ids) location now row ≡ mark run ids location now row
unfolding update_row
mark-update run ids location now row =
    rw (matches-filter ids row.session_id)
      (elim (Bool-cases (row.run_id == run)) [ inl e ↦ rw e refl | inr e ↦ rw e refl ])

and_true : (b : Bool) → (b && true) ≡ b
and_true true = refl
and_true false = refl

nothing_belongs :
    (run : String) (rows : List MetaRow) (uid : String) → belongs run [] rows uid ≡ false
unfolding belongs contains
nothing_belongs run [] uid = refl
nothing_belongs run (row ∷ rows) uid = ground (arith, nothing_belongs run rows uid)

mark_nothing :
    (run : String) (location : String) (now : ℕ) (rows : List MetaRow)
    → rows ≡ map (mark run [] location now) rows
unfolding contains
mark_nothing run location now [] = refl
mark_nothing run location now (row ∷ rows) = elim (Bool-cases (row.run_id == run)) [
  | inl e ↦ rw e (ap (◌∷◌ row) (mark_nothing run location now rows))
  | inr e ↦ rw e (ap (◌∷◌ row) (mark_nothing run location now rows))
]

-- The clean-up of a run deletes exactly the details of the rows whose session is among the archived
-- ones, NULL among them, and gives its location to exactly those of these rows that have none.
pub cleanup-Exact :
    (run location : String) (now : ℕ) (ids : List Session) (db : Database) (uid : String)
    → (contains uid (cleanup_run run location now ids db).details
        ≡ (contains uid db.details && not (belongs run ids db.metadata uid)))
      × ((cleanup_run run location now ids db).metadata
          ≡ map (mark run ids location now) db.metadata)
unfolding cleanup_run
cleanup-Exact run location now [] db uid = (
  rw (nothing_belongs run db.metadata uid) (sym (and_true (contains uid db.details))),
  mark_nothing run location now db.metadata,
)
cleanup-Exact run location now (s ∷ ss) db uid = (
  rw (← selects-belongs run (s ∷ ss) db.metadata uid)
      (details-contains run (session_filter (s ∷ ss)) db.metadata uid db.details),
  rw (fun_ext (mark-update run (s ∷ ss) location now)) refl,
)
