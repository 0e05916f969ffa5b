-- ===== src/MetadataCache.antt =====
-- `MetadataCache` of src/vault_search/crud/cache.py. The OrderedDict is a dictionary whose order
-- is from the least to the most recently used; each method is one step under `_lock`.
pub mod Order
pub mod Invalidation
pub mod Laws
use text.Mathlib.TextEquality.{eq_iff}
use vault_search_mcp.Prelude.{
  ℕ, Bool, EqType, List, Option, String, [], arith, if◌then◌else◌, leb, length, none, some, true,
  ◌&&◌, ◌++◌, ◌+◌, ◌==◌, ◌↔◌, ◌∷◌, ◌≡◌, nat_eq, string_eq,
}
use vault_search_mcp.Prelude.Result.{Result, key_error, ok, raise, ◌>>=◌}
use vault_search_mcp.Dict.{Dict, insert, lookup, remove}

pub record CacheKey : Type 0 where
  pub path : String
  pub mtime_ns : ℕ
  pub size : ℕ

-- The equality of the frozen dataclass.
abbrev pub same_key : CacheKey → CacheKey → Bool
same_key a b = a.path == b.path && (a.mtime_ns == b.mtime_ns && a.size == b.size)

pub same_key_iff : (a b : CacheKey) → (same_key a b ≡ true) ↔ (a ≡ b)
same_key_iff a b = ground (arith, eq_iff a.path b.path)

instance abbrev pub cache_key_eq : EqType CacheKey
cache_key_eq = record { beq = same_key; beq_iff = same_key_iff }

-- `os.stat_result`, as far as the key reads it.
pub record Stat : Type 0 where
  pub st_mtime_ns : ℕ
  pub st_size : ℕ

unfoldable pub from_stat : String → Stat → CacheKey
from_stat path stat = record { path = path; mtime_ns = stat.st_mtime_ns; size = stat.st_size }

-- `M` is `NoteMetadata`, which the cache does not look into.
pub record Cache {ℓ} (M : Type ℓ) : Type ℓ where
  pub max_size : ℕ
  pub entries : Dict CacheKey M
  pub hits : ℕ
  pub misses : ℕ

pub record Stats : Type 0 where
  pub size : ℕ
  pub max_size : ℕ
  pub hits : ℕ
  pub misses : ℕ

module _ {ℓ} {M : Type ℓ} where
  unfoldable pub init : ℕ → Cache M
  init max_size = record { max_size = max_size; entries = []; hits = 0; misses = 0 }

  -- `move_to_end`
  unfoldable pub move_to_end : CacheKey → M → Dict CacheKey M → Dict CacheKey M
  move_to_end key m entries = remove key entries ++ (key, m) ∷ []

  unfoldable pub get : CacheKey → Cache M → Cache M × Option M
  unfolding move_to_end
  get key c = elim (lookup key c.entries) [
    | some m ↦ (record c { entries = move_to_end key m c.entries; hits = c.hits + 1 }, some m)
    | none ↦ (record c { misses = c.misses + 1 }, none)
  ]

  -- The loop that evicts: `popitem(last=False)` raises a KeyError on an empty dictionary.
  unfoldable pub evict : ℕ → Dict CacheKey M → Result (Dict CacheKey M)
  evict max_size [] = if leb max_size 0 then raise key_error else ok []
  evict max_size (entry ∷ entries) =
      if leb max_size (length (entry ∷ entries))
      then evict max_size entries
      else ok (entry ∷ entries)

  -- An entry that is there is moved to the end and then assigned.
  unfoldable pub set : CacheKey → M → Cache M → Result (Cache M)
  unfolding move_to_end evict
  set key metadata c = elim (lookup key c.entries) [
    | some m ↦ ok (record c { entries = insert key metadata (move_to_end key m c.entries) })
    | none ↦ do
      kept ← evict c.max_size c.entries
      ok (record c { entries = insert key metadata kept })
  ]

  unfoldable pub path_keys : String → Dict CacheKey M → List CacheKey
  path_keys path [] = []
  path_keys path ((k, m) ∷ d) = if k.path == path then k ∷ path_keys path d else path_keys path d

  unfoldable pub remove_all : List CacheKey → Dict CacheKey M → Dict CacheKey M
  remove_all [] d = d
  remove_all (k ∷ ks) d = remove_all ks (remove k d)

  unfoldable pub invalidate : String → Cache M → Cache M × ℕ
  unfolding path_keys remove_all
  invalidate path c =
      let to_remove = path_keys path c.entries in
      (record c { entries = remove_all to_remove c.entries }, length to_remove)

  unfoldable pub clear : Cache M → Cache M
  clear c = record c { entries = []; hits = 0; misses = 0 }

  unfoldable pub size : Cache M → ℕ
  size c = length c.entries

  -- `stats`, with the rate left as the two counts that it divides.
  unfoldable pub stats : Cache M → Stats
  stats c = record {
    size = length c.entries;
    max_size = c.max_size;
    hits = c.hits;
    misses = c.misses;
  }
