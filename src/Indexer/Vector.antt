-- ===== src/Indexer/Vector.antt =====
-- `_has_vector_index`, `_maybe_create_vector_index` and `get_vector_index_status` of
-- src/vault_search/core/indexer.py, with `get_vector_index_config` of config/search.py. Counting the
-- rows is reading them.
use vault_search_mcp.Prelude.{
  ℕ, Bool, true, false, not, Option, none, some, List, [], ◌∷◌, ◌*◌, if◌then◌else◌, nat_eq,
  string_eq, ◌==◌, length, ◌&&◌, ◌||◌, max, min, ltb, ◌/◌, String, is_some,
}
use text.Mathlib.Text.{starts_with}
use vault_search_mcp.Indexer.Database.{Lance, Table, chunks, create_index}
use vault_search_mcp.Indexer.State.{
  Indexer, Io, continue, ◌>>=◌, ◌>>◌, pure, call, read, Handle, closed, on_canonical, on_staging,
  table_of, ensure_table,
}

pub data IndexType : Type 0 where
  ivf_pq ivf_hnsw_sq unknown_type : IndexType

-- The settings, with EMBEDDING_DIMENSION and what `list_indices` lists, `none` if it raises: the
-- columns and the name of each index.
pub record VectorSettings : Type 0 where
  pub auto_create : Bool
  pub min_chunks : ℕ
  pub index_type : IndexType
  pub num_sub_vectors : ℕ
  pub dimension : ℕ
  pub indices : Option (List (List String × String))

pub data Reason : Type 0 where
  table_not_initialized below_threshold auto_create_disabled already_exists invalid_num_sub_vectors
        unknown_index_type index_error :
      Reason
  created : ℕ → Reason

unfoldable pub is_vector_column : List String → Bool
is_vector_column (column ∷ []) = column == "vector"
is_vector_column _ = false

unfoldable pub any_vector : List (List String × String) → Bool
unfolding is_vector_column
any_vector [] = false
any_vector ((columns, name) ∷ rest) =
    if is_vector_column columns || starts_with name "vector" then true else any_vector rest

unfoldable pub listed_vector : Option (List (List String × String)) → Bool
unfolding any_vector
listed_vector none = false
listed_vector (some indices) = any_vector indices

pub record VectorIndexStatus : Type 0 where
  pub found : Bool
  pub auto_create_enabled : Bool
  pub threshold : ℕ
  pub total_chunks : ℕ
  pub would_create : Bool

module _ (v : VectorSettings) where
  unfoldable pub get_vector_index_config : ℕ → Option ℕ
  get_vector_index_config total =
      if not v.auto_create
      then none
      else if ltb total v.min_chunks
      then none
      else some (max 1 (min 256 (total / 8192)))

  unfoldable pub has_vector_index : Handle → Bool
  unfolding listed_vector
  has_vector_index closed = false
  has_vector_index on_canonical = listed_vector v.indices
  has_vector_index on_staging = listed_vector v.indices

  -- The sub-vectors divide the dimension.
  unfoldable pub divides : ℕ → ℕ → Bool
  divides k n = n / k * k == n

  unfoldable pub status_of : Handle → ℕ → VectorIndexStatus
  unfolding has_vector_index get_vector_index_config
  status_of hd total = record {
    found = has_vector_index hd;
    auto_create_enabled = v.auto_create;
    threshold = v.min_chunks;
    total_chunks = total;
    would_create = is_some (get_vector_index_config total) && not (has_vector_index hd);
  }

  module _ {L : Lance} where
    unfoldable pub make_index : IndexType → Table → ℕ → Io L Reason
    unfolding divides call
    make_index unknown_type t partitions = pure unknown_index_type
    make_index ivf_hnsw_sq t partitions = do call t create_index; pure (created partitions)
    make_index ivf_pq t partitions =
        let made = (do call t create_index; pure (created partitions)) in
        if divides v.num_sub_vectors v.dimension then made else pure invalid_num_sub_vectors

    unfoldable pub create_for : Handle → Bool → ℕ → Option ℕ → Io L Reason
    unfolding make_index has_vector_index
    create_for hd replace_existing total none =
        pure (if ltb total v.min_chunks then below_threshold else auto_create_disabled)
    create_for hd replace_existing total (some partitions) =
        let made = make_index v.index_type (table_of hd chunks) partitions in
        if has_vector_index hd && not replace_existing then pure already_exists else made

    unfoldable pub create_on : Handle → Bool → Io L Reason
    unfolding read create_for get_vector_index_config
    create_on closed replace_existing = pure table_not_initialized
    create_on on_canonical replace_existing = do
      rows ← read (table_of on_canonical chunks)
      create_for on_canonical replace_existing (length rows) (get_vector_index_config (length rows))
    create_on on_staging replace_existing = do
      rows ← read (table_of on_staging chunks)
      create_for on_staging replace_existing (length rows) (get_vector_index_config (length rows))

    -- Any exception is logged.
    unfoldable pub or_error : Indexer L × Option Reason → Indexer L × Reason
    or_error (s, none) = (s, index_error)
    or_error (s, some reason) = (s, reason)

    unfoldable pub maybe_create_vector_index : Bool → Indexer L → Indexer L × Reason
    unfolding create_on or_error
    maybe_create_vector_index replace_existing s = or_error (create_on s.table replace_existing s)

    -- The table that is open, or else is opened now; if that fails, nothing is counted.
    unfoldable pub count_on : Indexer L × Option Table → Indexer L × Option VectorIndexStatus
    unfolding read has_vector_index get_vector_index_config status_of
    count_on (s, none) =
        (s, some (record (status_of s.table 0) { found = false; would_create = false }))
    count_on (s, some t) =
        continue (read t s) (λ rows s'. (s', some (status_of s'.table (length rows))))

    unfoldable pub get_vector_index_status : Io L VectorIndexStatus
    unfolding count_on ensure_table
    get_vector_index_status s = count_on (ensure_table chunks s)
