-- ===== src/Indexer/NoteRecords/Atomic.antt =====
-- Snapshots and their rollback in `_apply_note_records` of src/vault_search/core/indexer.py.
use vault_search_mcp.Prelude.{
  Bool, true, false, Option, none, some, List, [], ◌∷◌, ◌≡◌, if◌then◌else◌, refl, arith, Bool-cases,
  inl, inr, nat_eq, string_eq, ◌∙◌, ap,
}
use vault_search_mcp.Prelude.Text.{Text, text_eq}
use vault_search_mcp.Indexer.Database.{
  Lance, IsLawful, Table, Row, Call, same_table, without, effect, or_rows, overwrite, restore,
}
use vault_search_mcp.Indexer.State.{Indexer, call, done}
use vault_search_mcp.Indexer.NoteRecords.Apply.{rollback, rollback_table, failures}
use vault_search_mcp.Indexer.Rules.{same_table_iff, Exactly, rows-call_other}

abbrev pub Snapshots : Lance → Type 0
Snapshots L = List (Table × Option L.Version)

-- The transaction has a snapshot of the table.
unfoldable pub snapped : {V : Type 0} → Table → List (Table × Option V) → Bool
snapped u [] = false
snapped u ((t, v) ∷ rest) = if same_table t u then true else snapped u rest

module _ {L : Lance} (lawful : IsLawful L) (before : Table → List Row) where
  -- A snapshot holds the rows from before; a new table had none.
  abbrev pub Holds : L.Db → Table → Option L.Version → Type 0
  Holds db t (some v) = L.held t v db ≡ some (before t)
  Holds db t none = before t ≡ []

  abbrev AllHold : L.Db → Snapshots L → Type 0
  AllHold db [] = Unit {0}
  AllHold db ((t, v) ∷ rest) = Holds db t v × AllHold db rest

  -- Undoing the snapshots leads back.
  pub record Undoable (snapshots : Snapshots L) (db : L.Db) : Type 0 where
    pub untouched : (u : Table) → snapped u snapshots ≡ false → L.rows u db ≡ before u
    pub hold : AllHold db snapshots

  pub Holds-call :
      (t u : Table) (c : Call L.Version) (v : Option L.Version) (db : L.Db)
      → Holds db u v
      → Holds (L.call t c db).0 u v
  Holds-call t u c none db h = h
  Holds-call t u c (some v) db h = lawful.held-call t u c v db (before u) h

  pub AllHold-call :
      (t : Table) (c : Call L.Version) (snapshots : Snapshots L) (db : L.Db)
      → AllHold db snapshots
      → AllHold (L.call t c db).0 snapshots
  AllHold-call t c [] db h = tt
  AllHold-call t c ((u, v) ∷ rest) db h = (Holds-call t u c v db h.0, AllHold-call t c rest db h.1)

  -- A call on a table with a snapshot can be undone.
  pub Undoable-call :
      (t : Table) (c : Call L.Version) (snapshots : Snapshots L) (db : L.Db)
      → snapped t snapshots ≡ true
      → Undoable snapshots db
      → Undoable snapshots (L.call t c db).0
  Undoable-call t c snapshots db h v = record {
    untouched = λ u f. rows-call_other lawful t u c db (differs u f) ∙ v.untouched u f;
    hold = AllHold-call t c snapshots db v.hold;
  }
    where
      differs : (u : Table) → snapped u snapshots ≡ false → same_table t u ≡ false
      differs u f = ground (arith, same_table_iff t u)

  -- The rows and the old versions are as they were.
  abbrev pub Unmoved : L.Db → L.Db → Type 0
  Unmoved db after =
      ((u : Table) → L.rows u after ≡ L.rows u db)
      × ((u : Table) (v : L.Version) → L.held u v after ≡ L.held u v db)

  AllHold-Unmoved :
      (snapshots : Snapshots L) (db after : L.Db)
      → Unmoved db after
      → AllHold db snapshots
      → AllHold after snapshots
  AllHold-Unmoved [] db after m h = tt
  AllHold-Unmoved ((t, none) ∷ rest) db after m h = (h.0, AllHold-Unmoved rest db after m h.1)
  AllHold-Unmoved ((t, some v) ∷ rest) db after m h =
      (m.1 t v ∙ h.0, AllHold-Unmoved rest db after m h.1)

  pub Undoable-Unmoved :
      (snapshots : Snapshots L) (db after : L.Db)
      → Unmoved db after
      → Undoable snapshots db
      → Undoable snapshots after
  Undoable-Unmoved snapshots db after m v = record {
    untouched = λ u f. m.0 u ∙ v.untouched u f;
    hold = AllHold-Unmoved snapshots db after m v.hold;
  }

  -- A version taken before the table is touched.
  pub Undoable-push :
      (t : Table) (v : L.Version) (snapshots : Snapshots L) (db : L.Db)
      → snapped t snapshots ≡ false
      → L.held t v db ≡ some (L.rows t db)
      → Undoable snapshots db
      → Undoable ((t, some v) ∷ snapshots) db
  unfolding snapped
  Undoable-push t v snapshots db f e u = record {
    untouched = λ w k. u.untouched w (ground arith);
    hold = (e ∙ ap some (u.untouched t f), u.hold);
  }

  rollback_table-Holds :
      (t : Table) (v : Option L.Version) (s : Indexer L)
      → Holds s.db t v
      → failures (rollback_table t v s).1 ≡ 0
      → L.rows t (rollback_table t v s).0.db ≡ before t
  unfolding rollback_table call done failures effect or_rows
  rollback_table-Holds t none s h f =
      ground (arith, lawful.rows-call t t (overwrite []) s.db, same_table_iff t t)
  rollback_table-Holds t (some v) s h f =
      ground (arith, lawful.rows-call t t (restore v) s.db, same_table_iff t t)

  rollback_table-other :
      (t u : Table) (v : Option L.Version) (s : Indexer L)
      → same_table t u ≡ false
      → L.rows u (rollback_table t v s).0.db ≡ L.rows u s.db
  unfolding rollback_table call
  rollback_table-other t u none s f = rows-call_other lawful t u (overwrite []) s.db f
  rollback_table-other t u (some v) s f = rows-call_other lawful t u (restore v) s.db f

  rollback_table-AllHold :
      (t : Table) (v : Option L.Version) (snapshots : Snapshots L) (s : Indexer L)
      → AllHold s.db snapshots
      → AllHold (rollback_table t v s).0.db snapshots
  unfolding rollback_table call
  rollback_table-AllHold t none snapshots s h = AllHold-call t (overwrite []) snapshots s.db h
  rollback_table-AllHold t (some v) snapshots s h = AllHold-call t (restore v) snapshots s.db h

  -- A rollback of which no call failed leads back.
  pub rollback-Undoable :
      (snapshots : Snapshots L) (s : Indexer L)
      → Undoable snapshots s.db
      → (rollback snapshots s).1 ≡ 0
      → Exactly lawful before (rollback snapshots s).0
  unfolding rollback snapped
  rollback-Undoable [] s h f = λ u. h.untouched u refl
  rollback-Undoable ((t, v) ∷ rest) s h f =
      rollback-Undoable rest (rollback_table t v s).0
        (record { untouched = λ u e. back u e; hold = rollback_table-AllHold t v rest s h.hold.1 })
        (omega arith)
    where
      back : (u : Table) → snapped u rest ≡ false → L.rows u (rollback_table t v s).0.db ≡ before u
      back u e = elim (Bool-cases (same_table t u)) [
        | inl same ↦
            rw (← (same_table_iff t u).0 same) (rollback_table-Holds t v s h.hold.0 (omega arith))
        | inr other ↦ rollback_table-other t u v s other ∙ h.untouched u (rw other e)
      ]

  -- The other notes' rows outlive any rollback.
  module _ (path : Text) where
    abbrev pub Others : Indexer L → Type 0
    Others s = (u : Table) → without path (L.rows u s.db) ≡ without path (before u)

    rollback_table-Others :
        (t : Table) (v : Option L.Version) (s : Indexer L)
        → Holds s.db t v
        → Others s
        → Others (rollback_table t v s).0
    unfolding rollback_table call effect or_rows
    rollback_table-Others t none s h o u =
        ground (arith, lawful.rows-call t u (overwrite []) s.db, same_table_iff t u, o u)
    rollback_table-Others t (some v) s h o u =
        ground (arith, lawful.rows-call t u (restore v) s.db, same_table_iff t u, o u)

    pub rollback-Others :
        (snapshots : Snapshots L) (s : Indexer L)
        → AllHold s.db snapshots
        → Others s
        → Others (rollback snapshots s).0
    unfolding rollback
    rollback-Others [] s h o = λ u. o u
    rollback-Others ((t, v) ∷ rest) s h o =
        rollback-Others rest (rollback_table t v s).0 (rollback_table-AllHold t v rest s h.1)
          (rollback_table-Others t v s h.0 o)
