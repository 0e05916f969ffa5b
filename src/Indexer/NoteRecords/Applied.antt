-- ===== src/Indexer/NoteRecords/Applied.antt =====
-- Opening a table while the records of a note are replaced.
use vault_search_mcp.Prelude.{
  Bool, true, false, List, [], ◌≡◌, refl, Bool-cases, inl, inr, Option-cases, nat_eq, string_eq,
  ◌∙◌, sym, ap,
}
use vault_search_mcp.Prelude.Text.{Text, text_eq}
use vault_search_mcp.Indexer.Database.{
  Lance, IsLawful, Table, Kind, Row, Call, canonical, chunks, links, aliases, without, effect,
  create, open_table,
}
use vault_search_mcp.Indexer.State.{
  Indexer, call, list_tables, done, table_of, handle, Handle, closed, on_canonical, on_staging,
  set_handle, ensure_table, ensure_open, open_or_create, opened,
}
use vault_search_mcp.Indexer.Rules.{Ensures, Ensures-continue, rows_still}
use vault_search_mcp.Indexer.NoteRecords.Atomic.{Unmoved, AllHold-call}
use vault_search_mcp.Indexer.NoteRecords.Replaced.{Good-Unmoved, At-Unmoved}
use vault_search_mcp.Indexer.NoteRecords.Steps.{Good, At, call_points}

module _ {L : Lance} (lawful : IsLawful L) (before : Table → List Row) (path : Text)
    (h : Kind → Table) where
  abbrev Left : Indexer L → Type 0
  Left = Good lawful before path h

  abbrev Known : (Table → List Row) → (Table → Bool) → Indexer L → Type 0
  Known = At lawful before path h

  still-Good :
      (t : Table) (c : Call L.Version) (s : Indexer L)
      → effect (λ v. L.held t v s.db) c (L.rows t s.db) ≡ L.rows t s.db
      → Left s
      → Left (call t c s).0
  unfolding call
  still-Good t c s e g = record {
    undo = record {
      untouched = λ u f. rows_still lawful t c s e u ∙ g.undo.untouched u f;
      hold = AllHold-call lawful before t c s.snapshots s.db g.undo.hold;
    };
    others = λ u. ap (without path) (rows_still lawful t c s e u) ∙ g.others u;
    points = λ k. rw (call_points lawful before path h t c s k) (g.points k);
  }

  still-At :
      (t : Table) (c : Call L.Version) (want : Table → List Row) (kept : Table → Bool)
      (s : Indexer L)
      → effect (λ v. L.held t v s.db) c (L.rows t s.db) ≡ L.rows t s.db
      → Known want kept s
      → Ensures Left (λ _. Known want kept) (call t c s)
  unfolding call done
  still-At t c want kept s e a = elim (Bool-cases (L.call t c s.db).1) [
    | inl returned ↦ rw returned (record {
      good = still-Good t c s e a.good;
      exact = λ u. rows_still lawful t c s e u ∙ a.exact u;
      snapshots = a.snapshots;
    })
    | inr failed ↦ rw failed (still-Good t c s e a.good)
  ]

  -- A name that is not listed is a table without rows.
  list_tables-At :
      (want : Table → List Row) (kept : Table → Bool) (s : Indexer L)
      → Known want kept s
      → Ensures Left
          (λ names s'. Known want kept s' × ((t : Table) → names t ≡ false → L.rows t s'.db ≡ []))
          (list_tables s)
  unfolding list_tables
  list_tables-At want kept s a =
      let m : Unmoved lawful before s.db (L.list_tables s.db).0 =
        (λ u. lawful.rows-list_tables u s.db, λ u v. lawful.held-list_tables u v s.db) in
      elim (Option-cases (L.list_tables s.db).1) [
        | inl e ↦ rw e (Good-Unmoved lawful before path h (L.list_tables s.db).0 s m a.good)
        | inr (names, e) ↦ rw e (
          At-Unmoved lawful before path h (L.list_tables s.db).0 s m a,
          λ t f. m.0 t ∙ lawful.absent t s.db names e f,
        )
      ]

  open_or_create-At :
      (k : Kind) (found : Bool) (want : Table → List Row) (kept : Table → Bool) (s : Indexer L)
      → (found ≡ false → L.rows (canonical k) s.db ≡ [])
      → Known want kept s
      → Ensures Left (λ _. Known want kept) (open_or_create k found s)
  unfolding open_or_create effect
  open_or_create-At k true want kept s e a = still-At (canonical k) open_table want kept s refl a
  open_or_create-At k false want kept s e a =
      still-At (canonical k) (create []) want kept s (sym (e refl)) a

  -- A handle that is set points where the closed one would have been opened.
  set_handle_points :
      (k j : Kind) (s : Indexer L)
      → canonical k ≡ h k
      → ((i : Kind) → table_of (handle i s) i ≡ h i)
      → table_of (handle j (set_handle k on_canonical s)) j ≡ h j
  unfolding set_handle handle table_of
  set_handle_points chunks chunks s e p = e
  set_handle_points chunks links s e p = p links
  set_handle_points chunks aliases s e p = p aliases
  set_handle_points links chunks s e p = p chunks
  set_handle_points links links s e p = e
  set_handle_points links aliases s e p = p aliases
  set_handle_points aliases chunks s e p = p chunks
  set_handle_points aliases links s e p = p links
  set_handle_points aliases aliases s e p = e

  set_handle-Known :
      (k : Kind) (want : Table → List Row) (kept : Table → Bool) (s : Indexer L)
      → ((j : Kind) → table_of (handle j (set_handle k on_canonical s)) j ≡ h j)
      → Known want kept s
      → Known want kept (set_handle k on_canonical s)
  unfolding set_handle
  set_handle-Known chunks want kept s p a = record {
    good = record { undo = a.good.undo; others = a.good.others; points = p };
    exact = a.exact;
    snapshots = a.snapshots;
  }
  set_handle-Known links want kept s p a = record {
    good = record { undo = a.good.undo; others = a.good.others; points = p };
    exact = a.exact;
    snapshots = a.snapshots;
  }
  set_handle-Known aliases want kept s p a = record {
    good = record { undo = a.good.undo; others = a.good.others; points = p };
    exact = a.exact;
    snapshots = a.snapshots;
  }

  opened-At :
      (k : Kind) (want : Table → List Row) (kept : Table → Bool) (s : Indexer L)
      → canonical k ≡ h k
      → Known want kept s
      → Ensures Left (λ t s'. Known want kept s' × (t ≡ h k)) (opened k s)
  unfolding opened
  opened-At k want kept s e a =
      (set_handle-Known k want kept s (λ j. set_handle_points k j s e a.good.points) a, e)

  ensure_open-At :
      (k : Kind) (handle' : Handle) (want : Table → List Row) (kept : Table → Bool) (s : Indexer L)
      → table_of handle' k ≡ h k
      → Known want kept s
      → Ensures Left (λ t s'. Known want kept s' × (t ≡ h k)) (ensure_open k handle' s)
  unfolding ensure_open table_of
  ensure_open-At k on_canonical want kept s e a = (a, e)
  ensure_open-At k on_staging want kept s e a = (a, e)
  ensure_open-At k closed want kept s e a =
      let end : Table → Indexer L → Type 0 = λ t s'. Known want kept s' × (t ≡ h k) in
      Ensures-continue Left
        (λ names s'. Known want kept s' × ((t : Table) → names t ≡ false → L.rows t s'.db ≡ [])) end
        (list_tables s) _ (list_tables-At want kept s a)
        λ names s1 b.
          Ensures-continue Left (λ _. Known want kept) end
            (open_or_create k (names (canonical k)) s1) _
            (open_or_create-At k (names (canonical k)) want kept s1 (b.1 (canonical k)) b.0)
            λ _ s2 c. opened-At k want kept s2 e c

  pub ensure_table-At :
      (k : Kind) (want : Table → List Row) (kept : Table → Bool) (s : Indexer L)
      → Known want kept s
      → Ensures Left (λ t s'. Known want kept s' × (t ≡ h k)) (ensure_table k s)
  unfolding ensure_table
  ensure_table-At k want kept s a = ensure_open-At k (handle k s) want kept s (a.good.points k) a
