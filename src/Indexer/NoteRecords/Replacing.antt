-- ===== src/Indexer/NoteRecords/Replacing.antt =====
-- The blocks of `_apply_note_records`: what they leave in the tables, and where the handles point.
use vault_search_mcp.Prelude.{
  ℕ, Bool, true, false, Option, none, some, List, [], ◌∷◌, ◌++◌, ◌≡◌, if◌then◌else◌, refl, arith,
  nat_eq, string_eq, ◌∙◌, ap, map, length,
}
use mathlib.Core.List.{append-nil}
use vault_search_mcp.Prelude.Text.{Text, text_eq}
use vault_search_mcp.Indexer.Database.{
  Lance, IsLawful, Table, Kind, Row, canonical, chunks, links, aliases, same_table, same_kind,
  without, note_of, ChunkWithVector, LinkRecord, chunk_row, link_row,
}
use vault_search_mcp.Indexer.State.{
  set_handle, open_or_create, ensure_open, call, list_tables, opened, Indexer, Io, continue,
  table_of, handle, Handle, closed, on_canonical, on_staging, add_unless_empty, ensure_table,
  index_aliases, alias_records,
}
use vault_search_mcp.Indexer.NoteRecords.Apply.{
  replace_rows, replace_records, outcome, Applied, applied, raised,
}
use vault_search_mcp.Indexer.Rules.{
  Ensures, Ensures-continue, same_table_iff, Owned, put_rows, Exactly,
}
use vault_search_mcp.Indexer.NoteRecords.Atomic.{Others, rollback-Undoable, rollback-Others}
use vault_search_mcp.Indexer.NoteRecords.Replaced.{replace_rows-At}
use vault_search_mcp.Indexer.NoteRecords.Steps.{
  Good, At, add_unless_empty-At, also, also_self, At-eq,
}
use vault_search_mcp.Indexer.NoteRecords.Applied.{ensure_table-At}

-- All rows of a note replaced, at once.
unfoldable pub replaced :
    (Kind → Table) → Text → List Row → List Row → List Row → (Table → List Row) → Table → List Row
replaced h path new_chunks new_links new_aliases before u =
    if same_table (h chunks) u
    then without path (before u) ++ new_chunks
    else if same_table (h links) u
    then without path (before u) ++ new_links
    else if same_table (h aliases) u
    then without path (before u) ++ new_aliases
    else before u

pub record Apart (h : Kind → Table) : Type 0 where
  pub chunks_links : same_table (h chunks) (h links) ≡ false
  pub chunks_aliases : same_table (h chunks) (h aliases) ≡ false
  pub links_aliases : same_table (h links) (h aliases) ≡ false

alias_records-Owned :
    (normalize : Text → Text) (path : Text) (names : List Text)
    → Owned path (alias_records normalize path names)
unfolding alias_records note_of
alias_records-Owned normalize path [] = tt
alias_records-Owned normalize path (name ∷ names) =
    ground (arith, alias_records-Owned normalize path names)

put_nothing :
    (t : Table) (want : Table → List Row) (u : Table) → want u ≡ put_rows t (want t ++ []) want u
unfolding put_rows
put_nothing t want u = ground (arith, append-nil (want t), same_table_iff t u)

also_other :
    (t u : Table) (kept : Table → Bool)
    → same_table t u ≡ false
    → kept u ≡ false
    → also t kept u ≡ false
unfolding also
also_other t u kept f k = ground arith

-- Replacing the rows table by table comes to the same.
replaced_steps :
    (h : Kind → Table)
    → Apart h
    → (path : Text) (cs ls names : List Row) (before : Table → List Row) (u : Table)
    → let w1 : Table → List Row =
        put_rows (h chunks) (without path (before (h chunks)) ++ cs) before in
      let w2 : Table → List Row = put_rows (h links) (without path (w1 (h links)) ++ ls) w1 in
      let w3 : Table → List Row = put_rows (h aliases) (without path (w2 (h aliases)) ++ []) w2 in
      put_rows (h aliases) (w3 (h aliases) ++ names) w3 u ≡ replaced h path cs ls names before u
unfolding put_rows replaced
replaced_steps h apart path cs ls names before u = ground (
  arith,
  same_table_iff (h chunks) u,
  same_table_iff (h links) u,
  same_table_iff (h aliases) u,
  same_table_iff (h aliases) (h aliases),
  append-nil (without path (before (h aliases))),
  apart.chunks_links,
  apart.chunks_aliases,
  apart.links_aliases,
)

module _ {L : Lance} (lawful : IsLawful L) (normalize : Text → Text) (before : Table → List Row)
    (path : Text) (h : Kind → Table) where
  abbrev Left : Indexer L → Type 0
  Left = Good lawful before path h

  abbrev Known : (Table → List Row) → (Table → Bool) → Indexer L → Type 0
  Known = At lawful before path h

  index_aliases-At :
      (names : List Text) (want : Table → List Row) (kept : Table → Bool) (s : Indexer L)
      → kept (h aliases) ≡ true
      → Known want kept s
      → Ensures Left
          (λ count s'.
            Known
              (put_rows (h aliases) (want (h aliases) ++ alias_records normalize path names) want)
              kept
              s'
            × (count ≡ length (alias_records normalize path names)))
          (index_aliases normalize path names s)
  unfolding index_aliases
  index_aliases-At [] want kept s k a = (
    At-eq lawful before path h want _ kept kept s (λ u. put_nothing (h aliases) want u) (λ u. refl)
        a,
    refl,
  )
  index_aliases-At (name ∷ names) want kept s k a =
      let records = alias_records normalize path (name ∷ names) in
      let after : Indexer L → Type 0 =
        Known (put_rows (h aliases) (want (h aliases) ++ records) want) kept in
      let end : ℕ → Indexer L → Type 0 = λ count s'. after s' × (count ≡ length records) in
      Ensures-continue Left (λ t s'. Known want kept s' × (t ≡ h aliases)) end
        (ensure_table aliases s) _ (ensure_table-At lawful before path h aliases want kept s a)
        λ t s1 b. rw b.1 (
          Ensures-continue Left (λ _. after) end (add_unless_empty (h aliases) records s1) _
            (add_unless_empty-At lawful before path h (h aliases) records s1
              (alias_records-Owned normalize path (name ∷ names)) k b.0)
            λ _ s2 c. (c, refl))

  pub replace_records-At :
      Apart h
      → (new_chunks : List ChunkWithVector) (new_links : List LinkRecord) (names : List Text)
        (kept : Table → Bool) (s : Indexer L)
      → Owned path (map chunk_row new_chunks)
      → Owned path (map link_row new_links)
      → ((k : Kind) → kept (h k) ≡ false)
      → Known before kept s
      → Ensures Left
          (λ counts s'.
            Exactly lawful
              (replaced h path
                (map chunk_row new_chunks)
                (map link_row new_links)
                (alias_records normalize path names)
                before)
              s'
            × (counts ≡ (length new_links, length (alias_records normalize path names))))
          (replace_records normalize (h chunks) path new_chunks new_links names s)
  unfolding replace_records
  replace_records-At apart new_chunks new_links names kept s oc ol k a =
      let cs = map chunk_row new_chunks in
      let ls = map link_row new_links in
      let as' = alias_records normalize path names in
      let w1 : Table → List Row =
        put_rows (h chunks) (without path (before (h chunks)) ++ cs) before in
      let k1 : Table → Bool = also (h chunks) kept in
      let w2 : Table → List Row = put_rows (h links) (without path (w1 (h links)) ++ ls) w1 in
      let k2 : Table → Bool = also (h links) k1 in
      let w3 : Table → List Row = put_rows (h aliases) (without path (w2 (h aliases)) ++ []) w2 in
      let k3 : Table → Bool = also (h aliases) k2 in
      let w4 : Table → List Row = put_rows (h aliases) (w3 (h aliases) ++ as') w3 in
      let end : ℕ × ℕ → Indexer L → Type 0 = λ counts s'.
        Exactly lawful (replaced h path cs ls as' before) s'
        × (counts ≡ (length new_links, length as')) in
      Ensures-continue Left (λ _. Known w1 k1) end (replace_rows (h chunks) path cs s) _
        (replace_rows-At lawful before path h (h chunks) cs before kept s oc (k chunks) a)
        λ _ s1 b1.
          Ensures-continue Left (λ t s'. Known w1 k1 s' × (t ≡ h links)) end (ensure_table links s1)
            _ (ensure_table-At lawful before path h links w1 k1 s1 b1)
            λ lt s2 b2. rw b2.1 (
              Ensures-continue Left (λ _. Known w2 k2) end (replace_rows (h links) path ls s2) _
                (replace_rows-At lawful before path h (h links) ls w1 k1 s2 ol
                  (also_other (h chunks) (h links) kept apart.chunks_links (k links)) b2.0)
                λ _ s3 b3.
                  Ensures-continue Left (λ t s'. Known w2 k2 s' × (t ≡ h aliases)) end
                    (ensure_table aliases s3) _
                    (ensure_table-At lawful before path h aliases w2 k2 s3 b3)
                    λ at s4 b4. rw b4.1 (
                      Ensures-continue Left (λ _. Known w3 k3) end
                        (replace_rows (h aliases) path [] s4) _
                        (replace_rows-At lawful before path h (h aliases) [] w2 k2 s4 tt
                          (also_other (h links) (h aliases) k1 apart.links_aliases (
                            also_other (h chunks) (h aliases) kept apart.chunks_aliases
                              (k aliases)))
                          b4.0)
                        λ _ s5 b5.
                          Ensures-continue Left (λ count s'. Known w4 k3 s' × (count ≡ length as'))
                            end (index_aliases normalize path names s5) _
                            (index_aliases-At names w3 k3 s5 (also_self (h aliases) k2) b5)
                            λ count s6 b6. (
                              λ u. b6.0.exact u ∙ replaced_steps h apart path cs ls as' before u,
                              ap (λ (n : ℕ). (length new_links, n)) b6.1,
                            )))

  -- Either the tables hold what is wanted, or the call raised: then the tables hold what they did if
  -- no restore failed, and other notes' rows are there in any case.
  abbrev pub IsAtomic : (Table → List Row) → ℕ × ℕ → Indexer L × Applied → Type 0
  IsAtomic want counts (s, applied l a) = Exactly lawful want s × ((l, a) ≡ counts)
  IsAtomic want counts (s, raised n) =
      (n ≡ 0 → Exactly lawful before s) × Others lawful before path s

  pub outcome-IsAtomic :
      (want : Table → List Row) (counts : ℕ × ℕ) (r : Indexer L × Option (ℕ × ℕ))
      → Ensures Left (λ counts' s'. Exactly lawful want s' × (counts' ≡ counts)) r
      → IsAtomic want counts (outcome r)
  unfolding outcome
  outcome-IsAtomic want counts (s, some (l, a)) e = e
  outcome-IsAtomic want counts (s, none) e = (
    rollback-Undoable lawful before s.snapshots s e.undo,
    rollback-Others lawful before path s.snapshots s e.undo.hold e.others,
  )

-- The tables that the handles stand for.
unfoldable pub target : {L : Lance} → Indexer L → Kind → Table
target s k = table_of (handle k s) k

pub target-Apart : {L : Lance} (s : Indexer L) → Apart (target s)
unfolding target handle same_table same_kind table_of
target-Apart s = record {
  chunks_links = apart_of s.table s.links_table chunks links refl;
  chunks_aliases = apart_of s.table s.aliases_table chunks aliases refl;
  links_aliases = apart_of s.links_table s.aliases_table links aliases refl;
}
  where
    apart_of :
        (a b : Handle) (k l : Kind)
        → same_kind k l ≡ false
        → same_table (table_of a k) (table_of b l) ≡ false
    apart_of closed closed k l e = e
    apart_of closed on_canonical k l e = e
    apart_of closed on_staging k l e = refl
    apart_of on_canonical closed k l e = e
    apart_of on_canonical on_canonical k l e = e
    apart_of on_canonical on_staging k l e = refl
    apart_of on_staging closed k l e = refl
    apart_of on_staging on_canonical k l e = refl
    apart_of on_staging on_staging k l e = e

set_handle_snapshots :
    {L : Lance} (k : Kind) (hd : Handle) (s : Indexer L)
    → (set_handle k hd s).snapshots ≡ s.snapshots
unfolding set_handle
set_handle_snapshots chunks hd s = refl
set_handle_snapshots links hd s = refl
set_handle_snapshots aliases hd s = refl

open_or_create_snapshots :
    {L : Lance} (k : Kind) (found : Bool) (s : Indexer L)
    → (open_or_create k found s).0.snapshots ≡ s.snapshots
unfolding open_or_create call
open_or_create_snapshots k true s = refl
open_or_create_snapshots k false s = refl

continue_snapshots {ℓ κ} :
    {L : Lance} {A : Type ℓ} {B : Type κ} (r : Indexer L × Option A) (f : A → Io L B)
    (kept : List (Table × Option L.Version))
    → r.0.snapshots ≡ kept
    → ((a : A) (s : Indexer L) → s.snapshots ≡ kept → (f a s).0.snapshots ≡ kept)
    → (continue r f).0.snapshots ≡ kept
continue_snapshots (s, none) f kept e k = e
continue_snapshots (s, some a) f kept e k = k a s e

-- Opening a table keeps no version.
pub ensure_open_snapshots :
    {L : Lance} (k : Kind) (hd : Handle) (s : Indexer L)
    → (ensure_open k hd s).0.snapshots ≡ s.snapshots
unfolding ensure_open list_tables opened
ensure_open_snapshots k on_canonical s = refl
ensure_open_snapshots k on_staging s = refl
ensure_open_snapshots k closed s =
    continue_snapshots (list_tables s) _ s.snapshots refl λ names s1 e1.
      continue_snapshots (open_or_create k (names (canonical k)) s1) _ s.snapshots
        (open_or_create_snapshots k (names (canonical k)) s1 ∙ e1)
        λ _ s2 e2. set_handle_snapshots k on_canonical s2 ∙ e2
