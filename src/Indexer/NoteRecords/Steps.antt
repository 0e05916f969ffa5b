-- ===== src/Indexer/NoteRecords/Steps.antt =====
-- What a call leaves in the tables while the records of a note are replaced.
use mathlib.Core.List.{append-nil}
use vault_search_mcp.Prelude.{
  Bool, true, Option, List, ◌≡◌, refl, arith, Bool-cases, inl, inr, nat_eq, string_eq, ◌∙◌, [],
  ◌++◌, ◌∷◌, if◌then◌else◌,
}
use vault_search_mcp.Prelude.Text.{Text, text_eq}
use vault_search_mcp.Indexer.Database.{
  Lance, IsLawful, Table, Kind, Row, Call, chunks, links, aliases, without, effect, add,
  delete_note, same_table,
}
use vault_search_mcp.Indexer.State.{Indexer, call, done, table_of, handle, add_unless_empty}
use vault_search_mcp.Indexer.Rules.{
  Ensures, same_table_iff, put_rows, Exactly, rows-call_returned, Owned, without-Owned,
  without-append, without_idem,
}
use vault_search_mcp.Indexer.NoteRecords.Atomic.{snapped, Undoable, Undoable-call, Others}

unfoldable pub also : Table → (Table → Bool) → Table → Bool
also t kept u = if same_table t u then true else kept u

pub also_self : (t : Table) (kept : Table → Bool) → also t kept t ≡ true
unfolding also
also_self t kept = ground (arith, same_table_iff t t)

module _ {L : Lance} (lawful : IsLawful L) (before : Table → List Row) (path : Text)
    (h : Kind → Table) where
  -- What may be left where a step raises.
  pub record Good (s : Indexer L) : Type 0 where
    pub undo : Undoable lawful before s.snapshots s.db
    pub others : Others lawful before path s
    pub points : (k : Kind) → table_of (handle k s) k ≡ h k

  -- What is known where it returns: the rows, and which tables have a snapshot.
  pub record At (want : Table → List Row) (kept : Table → Bool) (s : Indexer L) : Type 0 where
    pub good : Good s
    pub exact : Exactly lawful want s
    pub snapshots : (u : Table) → snapped u s.snapshots ≡ kept u

  pub call_points :
      (t : Table) (c : Call L.Version) (s : Indexer L) (k : Kind)
      → handle k (call t c s).0 ≡ handle k s
  unfolding call handle
  call_points t c s chunks = refl
  call_points t c s links = refl
  call_points t c s aliases = refl

  -- A call that leaves the other notes' rows alone.
  abbrev Spares : Call L.Version → Type 0
  Spares c =
      (held : L.Version → Option (List Row)) (rows : List Row)
      → without path (effect held c rows) ≡ without path rows

  pub call-Good :
      (t : Table) (c : Call L.Version) (s : Indexer L)
      → Spares c
      → snapped t s.snapshots ≡ true
      → Good s
      → Good (call t c s).0
  unfolding call
  call-Good t c s spares k g = record {
    undo = Undoable-call lawful before t c s.snapshots s.db k g.undo;
    others = λ u. ground (
      arith,
      lawful.rows-call t u c s.db,
      same_table_iff t u,
      g.others u,
      spares (λ v. L.held t v s.db) (L.rows t s.db),
    );
    points = λ k. rw (call_points t c s k) (g.points k);
  }

  call-At :
      (t : Table) (c : Call L.Version) (f : List Row → List Row) {want : Table → List Row}
      {kept : Table → Bool} (s : Indexer L)
      → Spares c
      → ((held : L.Version → Option (List Row)) (rows : List Row) → effect held c rows ≡ f rows)
      → kept t ≡ true
      → At want kept s
      → Ensures Good (λ _. At (put_rows t (f (want t)) want) kept) (call t c s)
  unfolding call put_rows done
  call-At t c f s spares e k a = elim (Bool-cases (L.call t c s.db).1) [
    | inl returned ↦ rw returned (record {
      good = call-Good t c s spares (a.snapshots t ∙ k) a.good;
      exact = λ u. ground (
        arith,
        rows-call_returned lawful t u c s.db,
        e (λ v. L.held t v s.db) (L.rows t s.db),
        a.exact t,
        a.exact u,
      );
      snapshots = a.snapshots;
    })
    | inr failed ↦ rw failed (call-Good t c s spares (a.snapshots t ∙ k) a.good)
  ]

  pub delete_note-At :
      (t : Table) {want : Table → List Row} {kept : Table → Bool} (s : Indexer L)
      → kept t ≡ true
      → At want kept s
      → Ensures Good
          (λ _. At (put_rows t (without path (want t)) want) kept)
          (call t (delete_note path) s)
  unfolding effect
  delete_note-At t s k a =
      call-At t (delete_note path) (without path) s (λ held rows. without_idem path rows)
        (λ held rows. refl) k a

  without-add : (old new : List Row) → Owned path new → without path (old ++ new) ≡ without path old
  without-add old new o = rw (without-append, without-Owned path new o, append-nil) (refl)

  add-At :
      (t : Table) (new : List Row) {want : Table → List Row} {kept : Table → Bool} (s : Indexer L)
      → Owned path new
      → kept t ≡ true
      → At want kept s
      → Ensures Good (λ _. At (put_rows t (want t ++ new) want) kept) (call t (add new) s)
  unfolding effect
  add-At t new s o k a =
      call-At t (add new) (λ old. old ++ new) s (λ held rows. without-add rows new o)
        (λ held rows. refl) k a

  -- The same contents, known by another name.
  pub At-eq :
      (want want' : Table → List Row) (kept kept' : Table → Bool) (s : Indexer L)
      → ((u : Table) → want u ≡ want' u)
      → ((u : Table) → kept u ≡ kept' u)
      → At want kept s
      → At want' kept' s
  At-eq want want' kept kept' s e k a = record {
    good = a.good;
    exact = λ u. a.exact u ∙ e u;
    snapshots = λ u. a.snapshots u ∙ k u;
  }

  pub add_unless_empty-At :
      (t : Table) (new : List Row) {want : Table → List Row} {kept : Table → Bool} (s : Indexer L)
      → Owned path new
      → kept t ≡ true
      → At want kept s
      → Ensures Good (λ _. At (put_rows t (want t ++ new) want) kept) (add_unless_empty t new s)
  unfolding add_unless_empty put_rows
  add_unless_empty-At t [] {want} {kept} s o k a =
      At-eq want _ kept kept s (λ u. ground (arith, append-nil (want t), same_table_iff t u))
        (λ u. refl) a
  add_unless_empty-At t (row ∷ rows) s o k a = add-At t (row ∷ rows) s o k a
