-- ===== src/Indexer/NoteRecords/Replaced.antt =====
-- What each step of a replacement of a note's records leaves in the tables.
use vault_search_mcp.Prelude.{
  Bool, true, List, ◌≡◌, refl, arith, inl, inr, nat_eq, string_eq, ◌∙◌, ◌++◌, ◌∷◌, ap, false,
  if◌then◌else◌, some, Option-cases, sym,
}
use vault_search_mcp.Prelude.Text.{Text, text_eq}
use vault_search_mcp.Indexer.Database.{
  Lance, IsLawful, Table, Kind, Row, chunks, links, aliases, without, delete_note, same_table,
}
use vault_search_mcp.Indexer.NoteRecords.Apply.{replace_rows}
use vault_search_mcp.Indexer.State.{
  Indexer, call, table_of, handle, add_unless_empty, push_snapshot, version,
}
use vault_search_mcp.Indexer.Rules.{
  Ensures, same_table_iff, put_rows, Owned, Ensures-continue, Ensures-weaken,
}
use vault_search_mcp.Indexer.NoteRecords.Atomic.{snapped, Undoable-Unmoved, Unmoved, Undoable-push}
use vault_search_mcp.Indexer.NoteRecords.Steps.{
  At, At-eq, Good, add_unless_empty-At, also, also_self, delete_note-At,
}

module _ {L : Lance} (lawful : IsLawful L) (before : Table → List Row) (path : Text)
    (h : Kind → Table) where
  -- Only the database differs, and it holds the same.
  pub Good-Unmoved :
      (db : L.Db) (s : Indexer L)
      → Unmoved lawful before s.db db
      → Good lawful before path h s
      → Good lawful before path h (record s { db = db })
  unfolding handle
  Good-Unmoved db s m g = record {
    undo = Undoable-Unmoved lawful before s.snapshots s.db db m g.undo;
    others = λ u. ap (without path) (m.0 u) ∙ g.others u;
    points = moved;
  }
    where
      moved : (k : Kind) → table_of (handle k (record s { db = db })) k ≡ h k
      moved chunks = g.points chunks
      moved links = g.points links
      moved aliases = g.points aliases

  pub At-Unmoved :
      (db : L.Db) (s : Indexer L) {want : Table → List Row} {kept : Table → Bool}
      → Unmoved lawful before s.db db
      → At lawful before path h want kept s
      → At lawful before path h want kept (record s { db = db })
  At-Unmoved db s m a = record {
    good = Good-Unmoved db s m a.good;
    exact = λ u. m.0 u ∙ a.exact u;
    snapshots = a.snapshots;
  }

  version-At :
      (t : Table) (want : Table → List Row) (kept : Table → Bool) (s : Indexer L)
      → At lawful before path h want kept s
      → Ensures
          (Good lawful before path h)
          (λ v s'.
            At lawful before path h want kept s' × (L.held t v s'.db ≡ some (L.rows t s'.db)))
          (version t s)
  unfolding version
  version-At t want kept s a =
      let m : Unmoved lawful before s.db (L.version t s.db).0 =
        (λ u. lawful.rows-version t u s.db, λ u v. lawful.held-version t u v s.db) in
      elim (Option-cases (L.version t s.db).1) [
        | inl e ↦ rw e (Good-Unmoved (L.version t s.db).0 s m a.good)
        | inr (v, e) ↦ rw e (
          At-Unmoved (L.version t s.db).0 s m a,
          m.1 t v ∙ lawful.current t s.db v e ∙ ap some (sym (m.0 t)),
        )
      ]

  push_snapshot-At :
      (t : Table) (v : L.Version) (want : Table → List Row) (kept : Table → Bool) (s : Indexer L)
      → kept t ≡ false
      → L.held t v s.db ≡ some (L.rows t s.db)
      → At lawful before path h want kept s
      → Ensures
          (Good lawful before path h)
          (λ _. At lawful before path h want (also t kept))
          (push_snapshot t (some v) s)
  unfolding push_snapshot also handle snapped
  push_snapshot-At t v want kept s k e a = record {
    good = record {
      undo = Undoable-push lawful before t v s.snapshots s.db (a.snapshots t ∙ k) e a.good.undo;
      others = a.good.others;
      points = points;
    };
    exact = a.exact;
    snapshots = snaps;
  }
    where
      points :
          (k : Kind)
          → table_of (handle k (record s { snapshots = (t, some v) ∷ s.snapshots })) k ≡ h k
      points chunks = a.good.points chunks
      points links = a.good.points links
      points aliases = a.good.points aliases

      snaps :
          (u : Table)
          → snapped u ((t, some v) ∷ s.snapshots) ≡ (if same_table t u then true else kept u)
      snaps u = ground (arith, a.snapshots u)

  put_twice :
      (t : Table) (new : List Row) (want : Table → List Row) (u : Table)
      → put_rows t
          (put_rows t (without path (want t)) want t ++ new)
          (put_rows t (without path (want t)) want)
          u
        ≡ put_rows t (without path (want t) ++ new) want u
  unfolding put_rows
  put_twice t new want u = ground (arith, same_table_iff t t)

  pub replace_rows-At :
      (t : Table) (new : List Row) (want : Table → List Row) (kept : Table → Bool) (s : Indexer L)
      → Owned path new
      → kept t ≡ false
      → At lawful before path h want kept s
      → Ensures
          (Good lawful before path h)
          (λ _.
            At lawful before path h (put_rows t (without path (want t) ++ new) want) (also t kept))
          (replace_rows t path new s)
  unfolding replace_rows
  replace_rows-At t new want kept s o k a =
      let gone : Table → List Row = put_rows t (without path (want t)) want in
      let end : Unit {0} → Indexer L → Type 0 = λ _.
        At lawful before path h (put_rows t (without path (want t) ++ new) want) (also t kept) in
      Ensures-continue (Good lawful before path h)
        (λ v s'. At lawful before path h want kept s' × (L.held t v s'.db ≡ some (L.rows t s'.db)))
        end (version t s) _ (version-At t want kept s a)
        λ v s1 b.
          Ensures-continue (Good lawful before path h)
            (λ _. At lawful before path h want (also t kept)) end (push_snapshot t (some v) s1) _
            (push_snapshot-At t v want kept s1 k b.1 b.0)
            λ _ s2 c.
              Ensures-continue (Good lawful before path h)
                (λ _. At lawful before path h gone (also t kept)) end (call t (delete_note path) s2)
                _ (delete_note-At lawful before path h t s2 (also_self t kept) c)
                λ _ s3 d.
                  Ensures-weaken (Good lawful before path h)
                    (λ _. At lawful before path h (put_rows t (gone t ++ new) gone) (also t kept))
                    end (add_unless_empty t new s3)
                    (add_unless_empty-At lawful before path h t new s3 o (also_self t kept) d)
                    λ _ s4.
                      At-eq lawful before path h (put_rows t (gone t ++ new) gone)
                        (put_rows t (without path (want t) ++ new) want) (also t kept) (also t kept)
                        s4 (put_twice t new want) (λ u. refl)
