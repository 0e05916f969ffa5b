-- ===== src/Indexer/FullReindex/Guarded.antt =====
-- Blocks that leave some tables alone while the handles are on the staging tables.
use vault_search_mcp.Prelude.{
  ℕ, Bool, true, false, Option, none, some, List, [], ◌∷◌, ◌≡◌, refl, arith, Bool-cases,
  Option-cases, inl, inr, ◌∙◌, length, nat_eq, string_eq, map, take,
}
use vault_search_mcp.Prelude.Text.{Text}
use vault_search_mcp.Dict.{Dict}
use vault_search_mcp.Indexer.Database.{
  Lance, IsLawful, Table, Kind, Row, Call, LinkRecord, staging, chunks, links, aliases, same_table,
  add, delete_link, link_row,
}
use vault_search_mcp.Indexer.State.{
  Indexer, Io, ◌>>=◌, pure, call, read, list_tables, done, handle, on_staging, ensure_table,
  ensure_open,
}
use vault_search_mcp.Indexer.Resolve.{
  attempt, replace_link, update_link, update_links, first_link, resolve_found, resolve_with,
  resolve_link_targets, updates, unresolved, alias_targets_if, path_targets,
}
use vault_search_mcp.Indexer.FullReindex.Staging.{index_links}
use vault_search_mcp.Indexer.Rules.{Ensures, Ensures-continue, same_table_iff, rows-call_other}

pub record OnStaging {L : Lance} (s : Indexer L) : Type 0 where
  pub table : s.table ≡ on_staging
  pub links_table : s.links_table ≡ on_staging
  pub aliases_table : s.aliases_table ≡ on_staging

handle_staging : {L : Lance} (k : Kind) (s : Indexer L) → OnStaging s → handle k s ≡ on_staging
unfolding handle
handle_staging chunks s h = h.table
handle_staging links s h = h.links_table
handle_staging aliases s h = h.aliases_table

module _ {L : Lance} (lawful : IsLawful L) (guard : Table → Bool) (before : Table → List Row) where
  -- The guarded tables hold what they did.
  pub record Guarded (s : Indexer L) : Type 0 where
    pub handles : OnStaging s
    pub same : (u : Table) → guard u ≡ true → L.rows u s.db ≡ before u

  abbrev pub Stays {ℓ} : {A : Type ℓ} → Io L A → Type 0
  Stays m = (s : Indexer L) → Guarded s → Ensures Guarded (λ _. Guarded) (m s)

  pub Stays-bind {ℓ κ} :
      {A : Type ℓ} {B : Type κ} (m : Io L A) (f : A → Io L B)
      → Stays m
      → ((a : A) → Stays (f a))
      → Stays (m >>= f)
  Stays-bind m f h k s g = Ensures-continue Guarded (λ _. Guarded) (λ _. Guarded) (m s) f (h s g) k

  moved :
      (db : L.Db) (s : Indexer L)
      → ((u : Table) → L.rows u db ≡ L.rows u s.db)
      → Guarded s
      → Guarded (record s { db = db })
  moved db s m g = record {
    handles = record {
      table = g.handles.table;
      links_table = g.handles.links_table;
      aliases_table = g.handles.aliases_table;
    };
    same = λ u h. m u ∙ g.same u h;
  }

  pub Stays-call : (t : Table) (c : Call L.Version) → guard t ≡ false → Stays (call t c)
  unfolding call done
  Stays-call t c f s g = elim (Bool-cases (L.call t c s.db).1) [
    | inl returned ↦ rw returned after
    | inr failed ↦ rw failed after
  ]
    where
      apart : (u : Table) → guard u ≡ true → same_table t u ≡ false
      apart u h = ground (arith, same_table_iff t u)

      after : Guarded (record s { db = (L.call t c s.db).0 })
      after = record {
        handles = record {
          table = g.handles.table;
          links_table = g.handles.links_table;
          aliases_table = g.handles.aliases_table;
        };
        same = λ u h. rows-call_other lawful t u c s.db (apart u h) ∙ g.same u h;
      }

  pub Stays-read : (t : Table) → Stays (read t)
  unfolding read
  Stays-read t s g = elim (Option-cases (L.read t s.db).1) [
    | inl e ↦ rw e (moved (L.read t s.db).0 s (λ u. lawful.rows-read t u s.db) g)
    | inr (rows, e) ↦ rw e (moved (L.read t s.db).0 s (λ u. lawful.rows-read t u s.db) g)
  ]

  pub Stays-list_tables : Stays list_tables
  unfolding list_tables
  Stays-list_tables s g = elim (Option-cases (L.list_tables s.db).1) [
    | inl e ↦ rw e (moved (L.list_tables s.db).0 s (λ u. lawful.rows-list_tables u s.db) g)
    | inr (names, e) ↦ rw e (moved (L.list_tables s.db).0 s (λ u. lawful.rows-list_tables u s.db) g)
  ]

  Guarded-end {ℓ} :
      {A : Type ℓ} (r : Indexer L × Option A) → Ensures Guarded (λ _. Guarded) r → Guarded r.0
  Guarded-end (s, none) e = e
  Guarded-end (s, some a) e = e

  pub Stays-attempt {ℓ} : {A : Type ℓ} (m : Io L A) → Stays m → Stays (attempt m)
  unfolding attempt
  Stays-attempt m h s g = Guarded-end (m s) (h s g)

  pub ensure_staging :
      (k : Kind) (s : Indexer L) → Guarded s → ensure_table k s ≡ (s, some (staging k))
  unfolding ensure_table ensure_open
  ensure_staging k s g = rw (handle_staging k s g.handles) refl

  pub Stays-ensure {ℓ} :
      {B : Type ℓ} (k : Kind) (f : Table → Io L B)
      → Stays (f (staging k))
      → Stays (ensure_table k >>= f)
  Stays-ensure k f h s g = rw (ensure_staging k s g) (h s g)

  -- Resolving the links changes the table of the links alone.
  module _ (free : guard (staging links) ≡ false) where
    replace_link-Stays :
        (to : Text) (l : Option LinkRecord) → Stays (replace_link (staging links) to l)
    unfolding replace_link
    replace_link-Stays to none = λ s g. g
    replace_link-Stays to (some l) =
        Stays-bind (call (staging links) (delete_link l.from_note_path l.link_type l.link_target)) _
          (Stays-call (staging links) _ free) (λ _. Stays-call (staging links) _ free)

    update_links-Stays :
        (changes : List (LinkRecord × Text)) → Stays (update_links (staging links) changes)
    unfolding update_links update_link
    update_links-Stays [] = λ s g. g
    update_links-Stays ((l, to) ∷ rest) =
        Stays-bind (attempt (update_link (staging links) l to)) _
          (Stays-attempt (update_link (staging links) l to) (
            Stays-bind (read (staging links)) _ (Stays-read (staging links)) (λ rows.
              replace_link-Stays to (first_link l.from_note_path l.link_type l.link_target rows))))
          (λ _. update_links-Stays rest)

    resolve_found-Stays :
        (targets : Dict Text Text) (rows : Option (List Row))
        → Stays (resolve_found (staging links) targets rows)
    unfolding resolve_found
    resolve_found-Stays targets none = λ s g. g
    resolve_found-Stays targets (some rows) =
        let changes = updates targets (take 100000 (unresolved rows)) in
        Stays-bind {B = ℕ} (update_links (staging links) changes) (λ _. pure (length changes))
          (update_links-Stays changes) (λ _ s g. g)

    resolve_with-Stays :
        (normalize stem : Text → Text) (rows : Option (List Row))
        → Stays (resolve_with normalize stem (staging links) (staging aliases) rows)
    unfolding resolve_with
    resolve_with-Stays normalize stem none = λ s g. g
    resolve_with-Stays normalize stem (some []) = λ s g. g
    resolve_with-Stays normalize stem (some (row ∷ rows)) =
        Stays-bind (attempt (read (staging aliases))) _
          (Stays-attempt (read (staging aliases)) (Stays-read (staging aliases)))
          (λ named.
            Stays-bind (attempt (read (staging links))) _
              (Stays-attempt (read (staging links)) (Stays-read (staging links)))
              (λ found.
                resolve_found-Stays
                  (alias_targets_if named (path_targets normalize stem (row ∷ rows) [])) found))

    pub resolve_link_targets-Stays :
        (normalize stem : Text → Text) → Stays (resolve_link_targets normalize stem)
    unfolding resolve_link_targets
    resolve_link_targets-Stays normalize stem = Stays-ensure links _ (
        Stays-ensure aliases _ (
          Stays-ensure chunks _ (
            Stays-bind (attempt (read (staging chunks))) _
              (Stays-attempt (read (staging chunks)) (Stays-read (staging chunks)))
              (λ rows. resolve_with-Stays normalize stem rows))))

    pub index_links-Stays : (new : List LinkRecord) → Stays (index_links new)
    unfolding index_links
    index_links-Stays [] = λ s g. g
    index_links-Stays (l ∷ rest) = Stays-ensure links _ (
        Stays-bind (call (staging links) (add (map link_row (l ∷ rest)))) _
          (Stays-call (staging links) _ free) (λ _ s g. g))
