-- ===== src/Indexer/FullReindex/Still.antt =====
-- Blocks that change neither a row nor a handle, as building the indexes.
use vault_search_mcp.Prelude.{
  ℕ, Bool, true, false, not, Option, none, some, List, ◌≡◌, if◌then◌else◌, refl, ◌∙◌, nat_eq,
  string_eq, ◌&&◌, length,
}
use vault_search_mcp.Indexer.Database.{
  Lance, IsLawful, Table, Kind, Row, Call, canonical, chunks, links, aliases, effect, optimize,
  create_index, create_fts_index,
}
use vault_search_mcp.Indexer.State.{
  Indexer, Io, ◌>>=◌, ◌>>◌, pure, call, read, handle, Handle, on_staging, on_canonical, closed,
  table_of,
}
use vault_search_mcp.Indexer.Rules.{Ensures, Ensures-continue, Ensures-ended, rows_still}
use vault_search_mcp.Indexer.Vector.{
  VectorSettings, Reason, IndexType, ivf_pq, ivf_hnsw_sq, unknown_type, created, make_index,
  create_for, create_on, or_error, maybe_create_vector_index, divides, has_vector_index,
  get_vector_index_config, invalid_num_sub_vectors, already_exists,
}
use vault_search_mcp.Indexer.FullReindex.Run.{build_indexes}

unfoldable pub is_staging : Handle → Bool
is_staging closed = false
is_staging on_canonical = false
is_staging on_staging = true

module _ {L : Lance} (lawful : IsLawful L) where
  -- No handle is on a staging table.
  abbrev pub OffStaging : Indexer L → Type 0
  OffStaging s = (k : Kind) → is_staging (handle k s) ≡ false

  call_handle :
      (t : Table) (c : Call L.Version) (s : Indexer L) (k : Kind)
      → handle k (call t c s).0 ≡ handle k s
  unfolding call handle
  call_handle t c s chunks = refl
  call_handle t c s links = refl
  call_handle t c s aliases = refl

  read_handle : (t : Table) (s : Indexer L) (k : Kind) → handle k (read t s).0 ≡ handle k s
  unfolding read handle
  read_handle t s chunks = refl
  read_handle t s links = refl
  read_handle t s aliases = refl

  -- The rows and the handles are the same.
  pub record SameAs (s s' : Indexer L) : Type 0 where
    pub rows : (u : Table) → L.rows u s'.db ≡ L.rows u s.db
    pub handles : (k : Kind) → handle k s' ≡ handle k s

  SameAs-trans : (s s' s'' : Indexer L) → SameAs s s' → SameAs s' s'' → SameAs s s''
  SameAs-trans s s' s'' a b = record {
    rows = λ u. b.rows u ∙ a.rows u;
    handles = λ k. b.handles k ∙ a.handles k;
  }

  abbrev IsStill {ℓ} : {A : Type ℓ} → Io L A → Type 0
  IsStill m = (s : Indexer L) → Ensures (SameAs s) (λ _. SameAs s) (m s)

  SameAs-refl : (s : Indexer L) → SameAs s s
  SameAs-refl s = record { rows = λ u. refl; handles = λ k. refl }

  Ensures-after {ℓ} :
      {A : Type ℓ} (s s' : Indexer L) (r : Indexer L × Option A)
      → SameAs s s'
      → Ensures (SameAs s') (λ _. SameAs s') r
      → Ensures (SameAs s) (λ _. SameAs s) r
  Ensures-after s s' (t, none) h e = SameAs-trans s s' t h e
  Ensures-after s s' (t, some a) h e = SameAs-trans s s' t h e

  IsStill-bind {ℓ κ} :
      {A : Type ℓ} {B : Type κ} (m : Io L A) (f : A → Io L B)
      → IsStill m
      → ((a : A) → IsStill (f a))
      → IsStill (m >>= f)
  IsStill-bind m f h k s =
      Ensures-continue (SameAs s) (λ _. SameAs s) (λ _. SameAs s) (m s) f (h s)
        (λ a s' e. Ensures-after s s' (f a s') e (k a s'))

  pub call_same :
      (t : Table) (c : Call L.Version) (s : Indexer L)
      → ((held : L.Version → Option (List Row)) (rows : List Row) → effect held c rows ≡ rows)
      → SameAs s (call t c s).0
  call_same t c s e = record {
    rows = rows_still lawful t c s (e (λ v. L.held t v s.db) (L.rows t s.db));
    handles = call_handle t c s;
  }

  call-IsStill :
      (t : Table) (c : Call L.Version)
      → ((held : L.Version → Option (List Row)) (rows : List Row) → effect held c rows ≡ rows)
      → IsStill (call t c)
  call-IsStill t c e s = Ensures-ended (SameAs s) (call t c s) (call_same t c s e)

  read-IsStill : (t : Table) → IsStill (read t)
  unfolding read
  read-IsStill t s =
      Ensures-ended (SameAs s) (read t s)
        (record { rows = λ u. lawful.rows-read t u s.db; handles = read_handle t s })

  if-IsStill {ℓ} :
      {A : Type ℓ} (test : Bool) (m n : Io L A)
      → IsStill m
      → IsStill n
      → IsStill (if test then m else n)
  if-IsStill true m n h k = h
  if-IsStill false m n h k = k

  module _ (v : VectorSettings) where
    made-IsStill :
        (t : Table) (partitions : ℕ) → IsStill (call t create_index >> pure (created partitions))
    unfolding effect
    made-IsStill t partitions =
        IsStill-bind (call t create_index) (λ _. pure (created partitions))
          (call-IsStill t create_index (λ held rows. refl)) (λ _ s. SameAs-refl s)

    make_index-IsStill :
        (type : IndexType) (t : Table) (partitions : ℕ) → IsStill (make_index v type t partitions)
    unfolding make_index effect
    make_index-IsStill unknown_type t partitions = λ s. SameAs-refl s
    make_index-IsStill ivf_hnsw_sq t partitions = made-IsStill t partitions
    make_index-IsStill ivf_pq t partitions =
        if-IsStill (divides v v.num_sub_vectors v.dimension)
          (call t create_index >> pure (created partitions)) (pure invalid_num_sub_vectors)
          (made-IsStill t partitions) (λ s. SameAs-refl s)

    create_for-IsStill :
        (hd : Handle) (replace_existing : Bool) (total : ℕ) (config : Option ℕ)
        → IsStill (create_for v hd replace_existing total config)
    unfolding create_for
    create_for-IsStill hd replace_existing total none = λ s. SameAs-refl s
    create_for-IsStill hd replace_existing total (some partitions) =
        if-IsStill (has_vector_index v hd && not replace_existing) (pure already_exists)
          (make_index v v.index_type (table_of hd chunks) partitions) (λ s. SameAs-refl s)
          (make_index-IsStill v.index_type (table_of hd chunks) partitions)

    create_on-IsStill :
        (hd : Handle) (replace_existing : Bool) → IsStill (create_on v hd replace_existing)
    unfolding create_on
    create_on-IsStill closed replace_existing = λ s. SameAs-refl s
    create_on-IsStill on_canonical replace_existing =
        IsStill-bind (read (table_of on_canonical chunks)) _ (read-IsStill _) (λ rows.
          create_for-IsStill on_canonical replace_existing (length rows)
            (get_vector_index_config v (length rows)))
    create_on-IsStill on_staging replace_existing =
        IsStill-bind (read (table_of on_staging chunks)) _ (read-IsStill _) (λ rows.
          create_for-IsStill on_staging replace_existing (length rows)
            (get_vector_index_config v (length rows)))

    or_error_same :
        (s : Indexer L) (r : Indexer L × Option Reason)
        → Ensures (SameAs s) (λ _. SameAs s) r
        → SameAs s (or_error v r).0
    unfolding or_error
    or_error_same s (s', none) e = e
    or_error_same s (s', some reason) e = e

    pub build_indexes_same : (s : Indexer L) → SameAs s (build_indexes v s).0
    unfolding build_indexes maybe_create_vector_index effect
    build_indexes_same s =
        let s1 = (call (canonical chunks) create_fts_index s).0 in
        let s2 = (call (canonical chunks) optimize s1).0 in
        SameAs-trans s s1 _ (call_same (canonical chunks) create_fts_index s (λ held rows. refl)) (
          SameAs-trans s1 s2 _ (call_same (canonical chunks) optimize s1 (λ held rows. refl))
            (or_error_same s2 (create_on v s2.table true s2) (create_on-IsStill s2.table true s2)))
