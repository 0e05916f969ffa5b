-- ===== src/Indexer/FullReindex/Live.antt =====
-- The blocks of `full_reindex` over a database whose calls return.
use vault_search_mcp.Prelude.{
  Bool, true, false, Option, none, some, is_some, List, [], ◌∷◌, ◌≡◌, refl, nat_eq, string_eq, take,
}
use vault_search_mcp.Prelude.Text.{Text}
use vault_search_mcp.Dict.{Dict}
use vault_search_mcp.Indexer.Database.{
  Lance, Table, Kind, Row, Call, canonical, staging, chunks, links, aliases, LinkRecord, create,
  open_table, overwrite,
}
use vault_search_mcp.Indexer.State.{
  Indexer, Io, continue, ◌>>=◌, call, done, list_tables, version, read, push_snapshot,
  add_unless_empty, alias_records, index_aliases, ensure_table, ensure_open, open_or_create, opened,
  handle, Handle, closed, on_canonical, on_staging,
}
use vault_search_mcp.Indexer.Resolve.{
  attempt, update_links, update_link, resolve_found, resolve_with, resolve_link_targets, updates,
  unresolved, alias_targets_if, path_targets,
}
use vault_search_mcp.Indexer.FullReindex.Staging.{
  Progress, reset_staging_tables, index_links, index_all_aliases, index_graph,
}
use vault_search_mcp.Indexer.FullReindex.Run.{put_canonical, replace_table_from_staging, commit}

-- No call of the database raises.
pub record IsReliable (L : Lance) : Type 0 where
  pub calls : (t : Table) (c : Call L.Version) (db : L.Db) → (L.call t c db).1 ≡ true
  pub lists : (db : L.Db) → is_some (L.list_tables db).1 ≡ true
  pub versions : (t : Table) (db : L.Db) → is_some (L.version t db).1 ≡ true
  pub reads : (t : Table) (db : L.Db) → is_some (L.read t db).1 ≡ true

module _ {L : Lance} (reliable : IsReliable L) where
  abbrev pub IsDone {ℓ} : {A : Type ℓ} → Indexer L × Option A → Type 0
  IsDone r = is_some r.1 ≡ true

  abbrev pub Returns {ℓ} : {A : Type ℓ} → Io L A → Type 0
  Returns m = (s : Indexer L) → IsDone (m s)

  pub continue-IsDone {ℓ κ} :
      {A : Type ℓ} {B : Type κ} (r : Indexer L × Option A) (f : A → Io L B)
      → IsDone r
      → ((a : A) → Returns (f a))
      → IsDone (continue r f)
  continue-IsDone (s, none) f h k = cc
  continue-IsDone (s, some a) f h k = k a s

  pub bind-Returns {ℓ κ} :
      {A : Type ℓ} {B : Type κ} (m : Io L A) (f : A → Io L B)
      → Returns m
      → ((a : A) → Returns (f a))
      → Returns (m >>= f)
  bind-Returns m f h k s = continue-IsDone (m s) f (h s) k

  pub call-Returns : (t : Table) (c : Call L.Version) → Returns (call t c)
  unfolding call done
  call-Returns t c s = rw (reliable.calls t c s.db) refl

  list_tables-Returns : Returns list_tables
  unfolding list_tables
  list_tables-Returns s = reliable.lists s.db

  read-Returns : (t : Table) → Returns (read t)
  unfolding read
  read-Returns t s = reliable.reads t s.db

  version-Returns : (t : Table) → Returns (version t)
  unfolding version
  version-Returns t s = reliable.versions t s.db

  open_or_create-Returns : (k : Kind) (found : Bool) → Returns (open_or_create k found)
  unfolding open_or_create
  open_or_create-Returns k true = call-Returns (canonical k) open_table
  open_or_create-Returns k false = call-Returns (canonical k) (create [])

  ensure_open-Returns : (k : Kind) (hd : Handle) → Returns (ensure_open k hd)
  unfolding ensure_open opened
  ensure_open-Returns k on_canonical = λ s. refl
  ensure_open-Returns k on_staging = λ s. refl
  ensure_open-Returns k closed = bind-Returns list_tables _ list_tables-Returns (λ names.
      bind-Returns (open_or_create k (names (canonical k))) _
        (open_or_create-Returns k (names (canonical k))) (λ _ s. refl))

  ensure_table-Returns : (k : Kind) → Returns (ensure_table k)
  unfolding ensure_table
  ensure_table-Returns k s = ensure_open-Returns k (handle k s) s

  add_unless_empty-Returns : (t : Table) (rows : List Row) → Returns (add_unless_empty t rows)
  unfolding add_unless_empty
  add_unless_empty-Returns t [] = λ s. refl
  add_unless_empty-Returns t (row ∷ rows) = call-Returns t _

  pub reset_staging_tables-Returns : Returns reset_staging_tables
  unfolding reset_staging_tables
  reset_staging_tables-Returns = bind-Returns list_tables _ list_tables-Returns (λ names.
      bind-Returns (call (staging chunks) (create [])) _ (call-Returns (staging chunks) (create []))
        (λ _.
          bind-Returns (call (staging links) (create [])) _
            (call-Returns (staging links) (create []))
            (λ _. call-Returns (staging aliases) (create []))))

  put_canonical-Returns :
      (k : Kind) (found : Bool) (rows : List Row) → Returns (put_canonical k found rows)
  unfolding put_canonical push_snapshot
  put_canonical-Returns k true rows =
      bind-Returns (call (canonical k) open_table) _ (call-Returns (canonical k) open_table) (λ _.
        bind-Returns (version (canonical k)) _ (version-Returns (canonical k)) (λ v.
          bind-Returns (call (canonical k) (overwrite rows)) _
            (call-Returns (canonical k) (overwrite rows)) (λ _ s. refl)))
  put_canonical-Returns k false rows =
      bind-Returns (call (canonical k) (create rows)) _ (call-Returns (canonical k) (create rows))
        (λ _ s. refl)

  replace-Returns : (k : Kind) → Returns (replace_table_from_staging k)
  unfolding replace_table_from_staging
  replace-Returns k = bind-Returns list_tables _ list_tables-Returns (λ names.
      bind-Returns (read (staging k)) _ (read-Returns (staging k))
        (λ rows. put_canonical-Returns k (names (canonical k)) rows))

  pub commit-Returns : Returns commit
  unfolding commit
  commit-Returns = bind-Returns (replace_table_from_staging links) _ (replace-Returns links) (λ _.
      bind-Returns (replace_table_from_staging aliases) _ (replace-Returns aliases)
        (λ _. replace-Returns chunks))

  -- Resolving the links catches every exception of its own.
  attempt-Returns {ℓ} : {A : Type ℓ} (m : Io L A) → Returns (attempt m)
  unfolding attempt
  attempt-Returns m s = refl

  update_links-Returns :
      (t : Table) (changes : List (LinkRecord × Text)) → Returns (update_links t changes)
  unfolding update_links
  update_links-Returns t [] = λ s. refl
  update_links-Returns t ((l, to) ∷ rest) =
      bind-Returns (attempt (update_link t l to)) (λ _. update_links t rest)
        (attempt-Returns (update_link t l to)) (λ _. update_links-Returns t rest)

  resolve_found-Returns :
      (t : Table) (targets : Dict Text Text) (rows : Option (List Row))
      → Returns (resolve_found t targets rows)
  unfolding resolve_found
  resolve_found-Returns t targets none = λ s. refl
  resolve_found-Returns t targets (some rows) =
      bind-Returns (update_links t (updates targets (take 100000 (unresolved rows)))) _
        (update_links-Returns t (updates targets (take 100000 (unresolved rows)))) (λ _ s. refl)

  resolve_with-Returns :
      (normalize stem : Text → Text) (t u : Table) (rows : Option (List Row))
      → Returns (resolve_with normalize stem t u rows)
  unfolding resolve_with
  resolve_with-Returns normalize stem t u none = λ s. refl
  resolve_with-Returns normalize stem t u (some []) = λ s. refl
  resolve_with-Returns normalize stem t u (some (row ∷ rows)) =
      let targets = λ (named : Option (List Row)).
        alias_targets_if named (path_targets normalize stem (row ∷ rows) []) in
      bind-Returns (attempt (read u))
        (λ named. attempt (read t) >>= resolve_found t (targets named)) (attempt-Returns (read u))
        (λ named.
          bind-Returns (attempt (read t)) (resolve_found t (targets named))
            (attempt-Returns (read t)) (resolve_found-Returns t (targets named)))

  resolve_link_targets-Returns :
      (normalize stem : Text → Text) → Returns (resolve_link_targets normalize stem)
  unfolding resolve_link_targets
  resolve_link_targets-Returns normalize stem =
      bind-Returns (ensure_table links) _ (ensure_table-Returns links) (λ t.
        bind-Returns (ensure_table aliases) _ (ensure_table-Returns aliases) (λ u.
          bind-Returns (ensure_table chunks) _ (ensure_table-Returns chunks) (λ w.
            bind-Returns (attempt (read w)) (resolve_with normalize stem t u)
              (attempt-Returns (read w)) (resolve_with-Returns normalize stem t u))))

  module _ (normalize stem : Text → Text) where
    index_aliases-Returns :
        (path : Text) (names : List Text) → Returns (index_aliases normalize path names)
    unfolding index_aliases
    index_aliases-Returns path [] = λ s. refl
    index_aliases-Returns path (name ∷ names) =
        bind-Returns (ensure_table aliases) _ (ensure_table-Returns aliases) (λ t.
          bind-Returns (add_unless_empty t (alias_records normalize path (name ∷ names))) _
            (add_unless_empty-Returns t (alias_records normalize path (name ∷ names)))
            (λ _ s. refl))

    index_all_aliases-Returns :
        (names : List (Text × List Text)) → Returns (index_all_aliases normalize names)
    unfolding index_all_aliases
    index_all_aliases-Returns [] = λ s. refl
    index_all_aliases-Returns ((path, names) ∷ rest) =
        bind-Returns (index_aliases normalize path names) _ (index_aliases-Returns path names) (λ n.
          bind-Returns (index_all_aliases normalize rest) _ (index_all_aliases-Returns rest)
            (λ m s. refl))

    index_links-Returns : (new : List LinkRecord) → Returns (index_links new)
    unfolding index_links
    index_links-Returns [] = λ s. refl
    index_links-Returns (l ∷ rest) =
        bind-Returns (ensure_table links) _ (ensure_table-Returns links)
          (λ t. bind-Returns (call t _) _ (call-Returns t _) (λ _ s. refl))

    pub index_graph-Returns : (p : Progress) → Returns (index_graph normalize stem p)
    unfolding index_graph
    index_graph-Returns p =
        bind-Returns (index_all_aliases normalize p.all_aliases) _
          (index_all_aliases-Returns p.all_aliases)
          (λ n. bind-Returns (index_links p.all_links) _ (index_links-Returns p.all_links) (λ m.
            bind-Returns (resolve_link_targets normalize stem) _
              (resolve_link_targets-Returns normalize stem) (λ k s. refl)))
