-- ===== src/Indexer/FullReindex/Commit.antt =====
-- The commit of `full_reindex`: what has been published, and the snapshots that undo it.
use vault_search_mcp.Prelude.{
  Bool, true, false, Option, none, some, List, [], ◌≡◌, refl, arith, Bool-cases, Option-cases, inl,
  inr, ◌∙◌, ap, sym, nat_eq, string_eq,
}
use vault_search_mcp.Indexer.Database.{
  Lance, IsLawful, Table, Kind, Row, Call, canonical, staging, chunks, links, aliases, same_table,
  same_kind, effect, create, overwrite, open_table,
}
use vault_search_mcp.Indexer.State.{
  Indexer, ◌>>◌, call, done, list_tables, version, read, push_snapshot,
}
use vault_search_mcp.Indexer.Rules.{
  Ensures, Ensures-continue, Ensures-weaken, put_rows, Exactly, rows-call_other, rows-call_raised,
  rows-call_returned, rows_still,
}
use vault_search_mcp.Indexer.NoteRecords.Atomic.{
  snapped, Undoable, Unmoved, Undoable-Unmoved, AllHold-call, Holds, Holds-call,
}
use vault_search_mcp.Indexer.NoteRecords.Steps.{also}
use vault_search_mcp.Indexer.FullReindex.Run.{put_canonical, replace_table_from_staging, commit}

-- Each public table holds what its staging table holds.
unfoldable pub published : (Table → List Row) → Table → List Row
published before (canonical k) = before (staging k)
published before (staging k) = before (staging k)

module _ {L : Lance} (lawful : IsLawful L) (before : Table → List Row) where
  abbrev pub Left : Indexer L → Type 0
  Left s = Undoable lawful before s.snapshots s.db

  pub record Put (want : Table → List Row) (kept : Table → Bool) (s : Indexer L) : Type 0 where
    pub undo : Left s
    pub exact : Exactly lawful want s
    pub snapshots : (u : Table) → snapped u s.snapshots ≡ kept u

  module _ (want : Table → List Row) (kept : Table → Bool) where
    abbrev Here : Indexer L → Type 0
    Here = Put want kept

    Put-Unmoved :
        (db : L.Db) (s : Indexer L)
        → Unmoved lawful before s.db db
        → Here s
        → Here (record s { db = db })
    Put-Unmoved db s m a = record {
      undo = Undoable-Unmoved lawful before s.snapshots s.db db m a.undo;
      exact = λ u. m.0 u ∙ a.exact u;
      snapshots = a.snapshots;
    }

    list_tables-Put :
        (s : Indexer L)
        → Here s
        → Ensures Left
            (λ names s'. Here s' × ((t : Table) → names t ≡ false → L.rows t s'.db ≡ []))
            (list_tables s)
    unfolding list_tables
    list_tables-Put s a =
        let m : Unmoved lawful before s.db (L.list_tables s.db).0 =
          (λ u. lawful.rows-list_tables u s.db, λ u v. lawful.held-list_tables u v s.db) in
        let b = Put-Unmoved (L.list_tables s.db).0 s m a in
        elim (Option-cases (L.list_tables s.db).1) [
          | inl e ↦ rw e b.undo
          | inr (names, e) ↦ rw e (b, λ t f. m.0 t ∙ lawful.absent t s.db names e f)
        ]

    read-Put :
        (t : Table) (s : Indexer L)
        → Here s
        → Ensures Left
            (λ rows s'. Here s' × (rows ≡ want t) × ((u : Table) → L.rows u s'.db ≡ L.rows u s.db))
            (read t s)
    unfolding read
    read-Put t s a =
        let b =
          Put-Unmoved (L.read t s.db).0 s
            (λ u. lawful.rows-read t u s.db, λ u v. lawful.held-read t u v s.db) a in
        elim (Option-cases (L.read t s.db).1) [
          | inl e ↦ rw e b.undo
          | inr (rows, e) ↦
              rw e (b, lawful.read_lem t s.db rows e ∙ a.exact t, λ u. lawful.rows-read t u s.db)
        ]

    version-Put :
        (t : Table) (s : Indexer L)
        → Here s
        → Ensures Left (λ v s'. Here s' × (L.held t v s'.db ≡ some (L.rows t s'.db))) (version t s)
    unfolding version
    version-Put t s a =
        let m : Unmoved lawful before s.db (L.version t s.db).0 =
          (λ u. lawful.rows-version t u s.db, λ u v. lawful.held-version t u v s.db) in
        let b = Put-Unmoved (L.version t s.db).0 s m a in
        elim (Option-cases (L.version t s.db).1) [
          | inl e ↦ rw e b.undo
          | inr (v, e) ↦ rw e (b, m.1 t v ∙ lawful.current t s.db v e ∙ ap some (sym (m.0 t)))
        ]

    -- A call that leaves every row where it is.
    still-Put :
        (t : Table) (c : Call L.Version) (s : Indexer L)
        → ((u : Table) → L.rows u (L.call t c s.db).0 ≡ L.rows u s.db)
        → Here s
        → Here (call t c s).0
    unfolding call
    still-Put t c s m a = record {
      undo = record {
        untouched = λ u f. m u ∙ a.undo.untouched u f;
        hold = AllHold-call lawful before t c s.snapshots s.db a.undo.hold;
      };
      exact = λ u. m u ∙ a.exact u;
      snapshots = a.snapshots;
    }

    open_table-Put :
        (t : Table) (s : Indexer L) → Here s → Ensures Left (λ _. Here) (call t open_table s)
    unfolding call done effect
    open_table-Put t s a =
        let b = still-Put t open_table s (rows_still lawful t open_table s refl) a in
        elim (Bool-cases (L.call t open_table s.db).1) [
          | inl returned ↦ rw returned b
          | inr failed ↦ rw failed b.undo
        ]

    -- A table's new rows, and then its snapshot.
    write-Put :
        (t : Table) (c : Call L.Version) (rows : List Row) (v : Option L.Version) (s : Indexer L)
        → ((held : L.Version → Option (List Row)) (old : List Row) → effect held c old ≡ rows)
        → kept t ≡ false
        → Holds lawful before s.db t v
        → Here s
        → Ensures Left
            (λ _. Put (put_rows t rows want) (also t kept))
            ((call t c >> push_snapshot t v) s)
    unfolding call done push_snapshot snapped also put_rows
    write-Put t c rows v s e k h a = elim (Bool-cases (L.call t c s.db).1) [
      | inl returned ↦ rw returned (record {
        undo = record {
          untouched = λ u f.
              rows-call_other lawful t u c s.db (ground arith) ∙ a.undo.untouched u (ground arith);
          hold = (
            Holds-call lawful before t t c v s.db h,
            AllHold-call lawful before t c s.snapshots s.db a.undo.hold,
          );
        };
        exact = λ u. ground (
          arith,
          rows-call_returned lawful t u c s.db,
          e (λ w. L.held t w s.db) (L.rows t s.db),
          a.exact u,
        );
        snapshots = λ u. ground (arith, a.snapshots u);
      })
      | inr failed ↦
          rw failed (still-Put t c s (λ u. rows-call_raised lawful t u c s.db failed) a).undo
    ]

    -- A table without a snapshot holds what it did before.
    before_of : (t : Table) (s : Indexer L) → kept t ≡ false → Here s → L.rows t s.db ≡ before t
    before_of t s k a = a.undo.untouched t (a.snapshots t ∙ k)

    abbrev Published : Kind → List Row → Indexer L → Type 0
    Published k rows = Put (put_rows (canonical k) rows want) (also (canonical k) kept)

    put_canonical-Put :
        (k : Kind) (found : Bool) (rows : List Row) (s : Indexer L)
        → kept (canonical k) ≡ false
        → (found ≡ false → L.rows (canonical k) s.db ≡ [])
        → Here s
        → Ensures Left (λ _. Published k rows) (put_canonical k found rows s)
    unfolding put_canonical effect
    put_canonical-Put k false rows s f e a =
        write-Put (canonical k) (create rows) rows none s (λ held old. refl) f
          (sym (before_of (canonical k) s f a) ∙ e refl) a
    put_canonical-Put k true rows s f e a =
        let end : Unit {0} → Indexer L → Type 0 = λ _. Published k rows in
        Ensures-continue Left (λ _. Here) end (call (canonical k) open_table s) _
          (open_table-Put (canonical k) s a)
          λ _ s1 a1.
            Ensures-continue Left
              (λ v s'. Here s' × (L.held (canonical k) v s'.db ≡ some (L.rows (canonical k) s'.db)))
              end (version (canonical k) s1) _ (version-Put (canonical k) s1 a1)
              λ v s2 b.
                write-Put (canonical k) (overwrite rows) rows (some v) s2 (λ held old. refl) f
                  (b.1 ∙ ap some (before_of (canonical k) s2 f b.0)) b.0

    replace-Put :
        (k : Kind) (s : Indexer L)
        → kept (canonical k) ≡ false
        → Here s
        → Ensures Left (λ _. Published k (want (staging k))) (replace_table_from_staging k s)
    unfolding replace_table_from_staging
    replace-Put k s f a =
        let end : Unit {0} → Indexer L → Type 0 = λ _. Published k (want (staging k)) in
        Ensures-continue Left
          (λ names s'. Here s' × ((t : Table) → names t ≡ false → L.rows t s'.db ≡ [])) end
          (list_tables s) _ (list_tables-Put s a)
          λ names s1 b.
            Ensures-continue Left
              (λ rows s'.
                Here s'
                × (rows ≡ want (staging k))
                × ((u : Table) → L.rows u s'.db ≡ L.rows u s1.db))
              end (read (staging k) s1) _ (read-Put (staging k) s1 b.0)
              λ rows s2 c.
                Ensures-weaken Left (λ _. Published k rows) end
                  (put_canonical k (names (canonical k)) rows s2)
                  (put_canonical-Put k (names (canonical k)) rows s2 f
                    (λ g. c.2 (canonical k) ∙ b.1 (canonical k) g) c.0)
                  λ _ s3 p. rw (← c.1) p

  -- The commit publishes all three tables.
  pub commit-Put :
      (s : Indexer L)
      → Put before (λ u. false) s
      → Ensures Left (λ _. Exactly lawful (published before)) (commit s)
  unfolding commit also published put_rows same_table same_kind
  commit-Put s a =
      let w1 : Table → List Row = put_rows (canonical links) (before (staging links)) before in
      let k1 : Table → Bool = also (canonical links) (λ u. false) in
      let w2 : Table → List Row = put_rows (canonical aliases) (w1 (staging aliases)) w1 in
      let k2 : Table → Bool = also (canonical aliases) k1 in
      let w3 : Table → List Row = put_rows (canonical chunks) (w2 (staging chunks)) w2 in
      let k3 : Table → Bool = also (canonical chunks) k2 in
      let end : Unit {0} → Indexer L → Type 0 = λ _. Exactly lawful (published before) in
      Ensures-continue Left (λ _. Put w1 k1) end (replace_table_from_staging links s) _
        (replace-Put before (λ u. false) links s refl a)
        λ _ s1 a1.
          Ensures-continue Left (λ _. Put w2 k2) end (replace_table_from_staging aliases s1) _
            (replace-Put w1 k1 aliases s1 refl a1)
            λ _ s2 a2.
              Ensures-weaken Left (λ _. Put w3 k3) end (replace_table_from_staging chunks s2)
                (replace-Put w2 k2 chunks s2 refl a2) λ _ s3 a3 u. a3.exact u ∙ all u
    where
      all :
          (u : Table)
          → put_rows
              (canonical chunks)
              (put_rows
                (canonical aliases)
                (put_rows (canonical links) (before (staging links)) before (staging aliases))
                (put_rows (canonical links) (before (staging links)) before)
                (staging chunks))
              (put_rows
                (canonical aliases)
                (put_rows (canonical links) (before (staging links)) before (staging aliases))
                (put_rows (canonical links) (before (staging links)) before))
              u
            ≡ published before u
      all (canonical chunks) = refl
      all (canonical links) = refl
      all (canonical aliases) = refl
      all (staging k) = refl
