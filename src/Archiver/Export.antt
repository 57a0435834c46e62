-- ===== src/Archiver/Export.antt =====
-- `archive` and `_export_session` of traj_archiver/session_worker.py: the rows of a session are
-- fetched in batches from a cursor and written line by line, and the file is uploaded. `rows` are the
-- rows of the cursor, in its order; `line` is what `json.dumps` makes of a row, and `upload` gives
-- the location.
use trajproxy.Base.{
  ℕ, zero, suc, ◌+◌, ◌≤◌, ◌≡◌, refl, ap, Bool, false, Option, none, some, List, [], ◌∷◌, ◌++◌, ◌==◌,
  nat_eq, if◌then◌else◌, map, append-nil, append_assoc, length, length-append, take, drop,
  take-append-drop, length-drop, map-append, ◌∙◌, arith, inl, inr, Option-cases,
}
use trajproxy.Texts.{Text}
use trajproxy.Archiver.Keys.{archive_key}

abbrev pub batch_size : ℕ
batch_size = 500

pub record Exported (L : Type 0) : Type 0 where
  pub lines : List L
  pub record_count : ℕ

module _ {R L : Type 0} (line : R → L) where
  -- for row in batch
  unfoldable pub write_rows : List R → Exported L → Exported L
  write_rows [] x = x
  write_rows (r ∷ rs) x =
      write_rows rs (record { lines = x.lines ++ line r ∷ []; record_count = suc x.record_count })

  -- The loop, on fuel: it ends at the first batch that is empty.
  unfoldable pub export_batches : ℕ → List R → Exported L → Option (Exported L)
  unfolding write_rows
  export_batches zero rows x = none
  export_batches (suc fuel) rows x = elim (take batch_size rows) [
    | [] ↦ some x
    | r ∷ rs ↦ export_batches fuel (drop batch_size rows) (write_rows (r ∷ rs) x)
  ]

  unfoldable pub export_session : ℕ → List R → Option (Exported L)
  unfolding export_batches
  export_session fuel rows = export_batches fuel rows (record { lines = []; record_count = 0 })

  abbrev written : List R → Exported L → Exported L
  written rs x = record {
    lines = x.lines ++ map line rs;
    record_count = x.record_count + length rs;
  }

  written-append :
      (rs ss : List R) (x : Exported L) → written ss (written rs x) ≡ written (rs ++ ss) x
  written-append rs ss x =
      let lines = append_assoc x.lines (map line rs) (map line ss) in
      let count : x.record_count + length rs + length ss ≡ x.record_count + length (rs ++ ss) =
        omega (arith, length-append {0} rs ss) in
      rw (lines, count, map-append line rs ss) refl

  written-nil : (x : Exported L) → x ≡ written [] x
  written-nil x =
      let count : x.record_count + 0 ≡ x.record_count = omega arith in
      rw (append-nil x.lines, count) refl

  written-one :
      (r : R) (x : Exported L)
      → record { lines = x.lines ++ line r ∷ []; record_count = suc x.record_count }
        ≡ written (r ∷ []) x
  written-one r x =
      let count : x.record_count + suc zero ≡ suc x.record_count = omega arith in rw count refl

  write_rows-written : (rs : List R) (x : Exported L) → write_rows rs x ≡ written rs x
  unfolding write_rows
  write_rows-written [] x = written-nil x
  write_rows-written (r ∷ rs) x =
      write_rows-written rs
        (record { lines = x.lines ++ line r ∷ []; record_count = suc x.record_count })
      ∙ ap (written rs) (written-one r x)
      ∙ written-append (r ∷ []) rs x

  -- With more fuel than rows, the loop writes the line of every row once, in order.
  pub export_batches-written :
      (fuel : ℕ) (rows : List R) (x : Exported L)
      → suc (length rows) ≤ fuel
      → export_batches fuel rows x ≡ some (written rows x)
  unfolding export_batches
  export_batches-written zero rows x h = absurd (omega (arith, h))
  export_batches-written (suc fuel) [] x h = ap some (written-nil x)
  export_batches-written (suc fuel) (r ∷ rs) x h =
      let first = take batch_size (r ∷ rs) in
      let rest = drop batch_size (r ∷ rs) in
      export_batches-written fuel rest (write_rows first x) (omega (arith, h, length-drop 499 rs))
      ∙ ap some (
          ap (written rest) (write_rows-written first x)
          ∙ written-append first rest x
          ∙ ap (λ (l : List R). written l x) (take-append-drop batch_size (r ∷ rs)))

-- What `archive` comes to.
pub data Archive : Type 0 where
  stored : ℕ → Option Text → Archive
  upload_failed : Archive

module _ {R L : Type 0} (line : R → L) (upload : Text → List L → Option Text) where
  abbrev pub store : Text → Exported L → Archive
  store key x = elim (upload key x.lines) [
    | none ↦ upload_failed
    | some location ↦ stored x.record_count (some location)
  ]

  -- An empty file is not uploaded. `none`: the fuel does not last.
  unfoldable pub archive : ℕ → Bool → Text → Option Text → List R → Option Archive
  unfolding export_session archive_key
  archive fuel compress run session rows = elim (export_session line fuel rows) [
    | none ↦ none
    | some x ↦
        some (
          if x.record_count == 0 then stored 0 none else store (archive_key compress run session) x)
  ]

  -- What a worker does with the rows of a session.
  abbrev pub archive_of : Bool → Text → Option Text → List R → Archive
  archive_of compress run session [] = stored 0 none
  archive_of compress run session (r ∷ rs) =
      elim (upload (archive_key compress run session) (map line (r ∷ rs))) [
        | none ↦ upload_failed
        | some location ↦ stored (length (r ∷ rs)) (some location)
      ]

  -- With more fuel than rows, the export of a session ends: every row is written once and in order,
  -- all lines go under the key of the session in one upload, and the number of the rows is reported.
  -- A session with no rows is not uploaded, and a failed upload is reported as such.
  pub archive_complete :
      (fuel : ℕ) (compress : Bool) (run : Text) (session : Option Text) (rows : List R)
      → suc (length rows) ≤ fuel
      → archive fuel compress run session rows ≡ some (archive_of compress run session rows)
  unfolding archive export_session
  archive_complete fuel compress run session rows h =
      go rows (export_batches-written line fuel rows (record { lines = []; record_count = 0 }) h)
    where
      go :
          (l : List R)
          → export_batches line fuel l (record { lines = []; record_count = 0 })
            ≡ some (record { lines = map line l; record_count = 0 + length l })
          → archive fuel compress run session l ≡ some (archive_of compress run session l)
      go [] e = rw (e, archive) refl
      go (r ∷ rs) e =
          let count : 0 + length (r ∷ rs) ≡ length (r ∷ rs) = omega arith in
          let some_rows : (length (r ∷ rs) == 0) ≡ false = ground arith in
          rw (e, archive)
            (rw count (
              rw some_rows
                (elim (Option-cases
                  (upload (archive_key compress run session) (map line (r ∷ rs)))) [
                    | inl f ↦ rw (f, store, archive_of) refl
                    | inr (location, f) ↦ rw (f, store, archive_of) refl
                  ])))
