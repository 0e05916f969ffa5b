-- ===== src/Indexer/SyncCheck/Stale.antt =====
-- What `sync_check` reindexes.
use vault_search_mcp.Prelude.{
  ℕ, Bool, true, false, not, Option, none, some, List, [], ◌∷◌, ◌++◌, ◌≡◌, ◌+◌, if◌then◌else◌, refl,
  arith, suc, ltb, nat_eq, string_eq, ◌==◌, ◌&&◌, String, Bool-cases, inl, inr, is_some, ap,
}
use vault_search_mcp.Prelude.Text.{Text, text_eq}
use vault_search_mcp.Dict.{Dict, lookup, contains, Distinct}
use vault_search_mcp.Dict.Laws.{insert-Distinct, contains-eq-lookup}
use vault_search_mcp.Indexer.Database.{Lance, Row, chunk_row, link_row, alias_row}
use vault_search_mcp.Indexer.State.{Indexer}
use vault_search_mcp.Indexer.SyncCheck.Run.{
  Attempt, runs, raises, reindex_one, FileEntry, scan_vault, map_file, vault_map, add_first,
  indexed_map, only_in, is_newer, is_modified, modified, reindex_all, synced, sync_check,
  read_index, rows_or_none,
}

-- How often a path stands in a list.
unfoldable pub times : Text → List Text → ℕ
times path [] = 0
times path (other ∷ rest) = if other == path then suc (times path rest) else times path rest

times-append :
    (path : Text) (xs ys : List Text) → times path (xs ++ ys) ≡ times path xs + times path ys
unfolding times
times-append path [] ys = omega arith
times-append path (x ∷ xs) ys = ground (arith, times-append path xs ys)

unfoldable pub once : Bool → ℕ
once true = 1
once false = 0

times-only_in_absent {ℓ κ} :
    {V : Type ℓ} {W : Type κ} (path : Text) (d : Dict Text V) (other : Dict Text W)
    → lookup path d ≡ none
    → times path (only_in d other) ≡ 0
unfolding times only_in lookup
times-only_in_absent path [] other h = refl
times-only_in_absent path ((p, v) ∷ d) other h = ground (arith, times-only_in_absent path d other)

times-only_in {ℓ κ} :
    {V : Type ℓ} {W : Type κ} (path : Text) (d : Dict Text V) (other : Dict Text W)
    → Distinct d
    → times path (only_in d other) ≡ once (contains path d && not (contains path other))
unfolding times only_in contains once
times-only_in path [] other u = refl
times-only_in path ((p, v) ∷ d) other u = ground (
  arith,
  times-only_in path d other u.1,
  times-only_in_absent path d other,
  text_eq.beq_iff p path,
  contains-eq-lookup path d,
  u.0,
)

module _ (timestamp : Text → Option ℕ) where
  times-modified_absent :
      (path : Text) (d : Dict Text ℕ) (index : Dict Text Text)
      → lookup path d ≡ none
      → times path (modified timestamp d index) ≡ 0
  unfolding times modified lookup
  times-modified_absent path [] index h = refl
  times-modified_absent path ((p, m) ∷ d) index h =
      ground (arith, times-modified_absent path d index)

  -- The file is there, and newer than what is indexed of it.
  unfoldable pub newer : Option ℕ → Option Text → Bool
  unfolding is_modified
  newer none found = false
  newer (some mtime) found = is_modified timestamp mtime found

  times-modified :
      (path : Text) (d : Dict Text ℕ) (index : Dict Text Text)
      → Distinct d
      → times path (modified timestamp d index) ≡ once (newer (lookup path d) (lookup path index))
  unfolding times modified once newer lookup
  times-modified path [] index u = refl
  times-modified path ((p, m) ∷ d) index u = elim (Bool-cases (p == path)) [
    | inl same ↦
        let e : p ≡ path = (text_eq.beq_iff p path).0 same in
        rw (e, (text_eq.beq_iff path path).1 refl)
          (ground
            (arith, times-modified_absent path d index (rw (← e) u.0), text_eq.beq_iff path path))
    | inr other ↦ rw other (ground (arith, times-modified path d index u.1))
  ]

  -- Newer by more than a second, or the indexed time cannot be read.
  abbrev is_later : ℕ → Option ℕ → Bool
  is_later mtime none = true
  is_later mtime (some indexed) = ltb (indexed + 1000) mtime

  is_newer-later :
      (mtime : ℕ) (time : Option ℕ) → is_newer timestamp mtime time ≡ is_later mtime time
  unfolding is_newer
  is_newer-later mtime none = refl
  is_newer-later mtime (some indexed) = refl

  -- A path is out of date: in the vault alone, in the index alone, or newer in the vault.
  unfoldable pub is_stale : Option ℕ → Option Text → Bool
  is_stale none none = false
  is_stale none (some time) = true
  is_stale (some mtime) none = true
  is_stale (some mtime) (some time) = is_later mtime (timestamp time)

map_file-Distinct :
    (path : Text) (mtime : Option ℕ) (d : Dict Text ℕ)
    → Distinct d
    → Distinct (map_file path mtime d)
unfolding map_file
map_file-Distinct path none d u = u
map_file-Distinct path (some m) d u = insert-Distinct path m d u

vault_map-Distinct :
    (files : List FileEntry) (d : Dict Text ℕ) → Distinct d → Distinct (vault_map files d)
unfolding vault_map
vault_map-Distinct [] d u = u
vault_map-Distinct (f ∷ files) d u =
    vault_map-Distinct files _ (map_file-Distinct f.relative_path f.mtime d u)

add_first-Distinct :
    (path time : Text) (d : Dict Text Text) → Distinct d → Distinct (add_first path time d)
unfolding add_first
add_first-Distinct path time d u = elim (Bool-cases (contains path d)) [
  | inl known ↦ rw known u
  | inr new ↦ rw new (insert-Distinct path time d u)
]

indexed_map-Distinct :
    (rows : List Row) (d : Dict Text Text) → Distinct d → Distinct (indexed_map rows d)
unfolding indexed_map
indexed_map-Distinct [] d u = u
indexed_map-Distinct (chunk_row c ∷ rows) d u =
    indexed_map-Distinct rows _ (add_first-Distinct c.chunk.note_path c.chunk.modified_at d u)
indexed_map-Distinct (link_row l ∷ rows) d u = indexed_map-Distinct rows d u
indexed_map-Distinct (alias_row a ∷ rows) d u = indexed_map-Distinct rows d u

module _ (timestamp : Text → Option ℕ) where
  times-stale :
      (path : Text) (vault : Dict Text ℕ) (index : Dict Text Text)
      → Distinct vault
      → Distinct index
      → times path (only_in index vault ++ (only_in vault index ++ modified timestamp vault index))
        ≡ once (is_stale timestamp (lookup path vault) (lookup path index))
  unfolding once is_stale newer is_modified
  times-stale path vault index u w =
      rw
        (
          times-append,
          times-only_in path index vault w,
          times-append,
          times-only_in path vault index u,
          times-modified timestamp path vault index u,
          contains-eq-lookup path vault,
          contains-eq-lookup path index,
        )
        (cases (lookup path vault) (lookup path index))
    where
      cases :
          (v : Option ℕ) (i : Option Text)
          → once (is_some i && not (is_some v))
              + (once (is_some v && not (is_some i)) + once (newer timestamp v i))
            ≡ once (is_stale timestamp v i)
      cases none none = refl
      cases none (some t) = refl
      cases (some m) none = refl
      cases (some m) (some t) = omega (arith, ap once (is_newer-later timestamp m (timestamp t)))

module _ {L : Lance} (normalize : Text → Text) (max_chunks : ℕ) (attempts : Text → Attempt L) where
  -- Whether the call returns, whatever it returns.
  abbrev returns : Attempt L → ℕ
  returns (runs answers) = 1
  returns (raises left) = 0

  -- How many of the calls return.
  unfoldable pub returned : List Text → ℕ
  returned [] = 0
  returned (path ∷ paths) = returns (attempts path) + returned paths

  returned-append : (xs ys : List Text) → returned (xs ++ ys) ≡ returned xs + returned ys
  unfolding returned
  returned-append [] ys = omega arith
  returned-append (x ∷ xs) ys = omega (arith, returned-append xs ys)

  reindex_one_count :
      (a : Attempt L) (path : Text) (s : Indexer L)
      → (reindex_one normalize max_chunks attempts a path s).1 ≡ returns a
  unfolding reindex_one
  reindex_one_count (runs answers) path s = refl
  reindex_one_count (raises left) path s = refl

  reindex_all_count :
      (paths : List Text) (s : Indexer L)
      → (reindex_all normalize max_chunks attempts paths s).1 ≡ returned paths
  unfolding reindex_all returned
  reindex_all_count [] s = refl
  reindex_all_count (path ∷ paths) s =
      omega (arith, reindex_one_count (attempts path) path s, reindex_all_count paths _)

  reindex_all-append :
      (xs ys : List Text) (s : Indexer L)
      → (reindex_all normalize max_chunks attempts ys
          (reindex_all normalize max_chunks attempts xs s).0).0
        ≡ (reindex_all normalize max_chunks attempts (xs ++ ys) s).0
  unfolding reindex_all
  reindex_all-append [] ys s = refl
  reindex_all-append (x ∷ xs) ys s = reindex_all-append xs ys _

  module _ (timestamp : Text → Option ℕ) (extensions ignored : List String) (files : List FileEntry)
      (s : Indexer L) where
    abbrev vault : Dict Text ℕ
    vault = vault_map (scan_vault extensions ignored files) []

    abbrev after_read : Indexer L × Option (List Row)
    after_read = read_index normalize max_chunks attempts timestamp s

    abbrev index : Dict Text Text
    index = indexed_map (rows_or_none after_read.1) []

    -- The paths to reindex, those that are gone first.
    abbrev pub stale : List Text
    stale = only_in index vault ++ (only_in vault index ++ modified timestamp vault index)

    -- What `sync_check` reindexes is a list in which each path stands once if it is in the vault alone,
    -- in the index alone, or in both and newer by more than a second in the vault (or its indexed time
    -- cannot be read), and not at all otherwise. It reindexes that list in order if `auto_sync` is
    -- set, also past a call that raises, and counts as synced the calls that do not raise, whatever
    -- they return; else it reindexes nothing.
    pub sync_check_lem :
        (auto_sync : Bool)
        → ((path : Text)
            → times path stale ≡ once (is_stale timestamp (lookup path vault) (lookup path index)))
          × ((sync_check normalize max_chunks attempts timestamp extensions ignored files auto_sync
                s).0
              ≡ (if auto_sync
                  then (reindex_all normalize max_chunks attempts stale after_read.0).0
                  else after_read.0))
          × ((sync_check normalize max_chunks attempts timestamp extensions ignored files auto_sync
                s).1.synced
              ≡ (if auto_sync then returned stale else 0))
    unfolding sync_check synced
    sync_check_lem true = (
      λ path.
          times-stale timestamp path vault index
            (vault_map-Distinct (scan_vault extensions ignored files) [] tt)
            (indexed_map-Distinct (rows_or_none after_read.1) [] tt),
      reindex_all-append (only_in index vault) _ after_read.0,
      omega (
        arith,
        reindex_all_count (only_in index vault) after_read.0,
        reindex_all_count (only_in vault index ++ modified timestamp vault index)
            (reindex_all normalize max_chunks attempts (only_in index vault) after_read.0).0,
        returned-append (only_in index vault)
            (only_in vault index ++ modified timestamp vault index),
      ),
    )
    sync_check_lem false = (
      λ path.
          times-stale timestamp path vault index
            (vault_map-Distinct (scan_vault extensions ignored files) [] tt)
            (indexed_map-Distinct (rows_or_none after_read.1) [] tt),
      refl,
      refl,
    )
