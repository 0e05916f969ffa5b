-- ===== src/Tests/Chunker.antt =====
-- The chunker of src/vault_search/core/chunker.py and the records of
-- src/vault_search/utils/chunking.py, run on a short text.
use vault_search_mcp.Prelude.{List, [], ◌∷◌, ◌≡◌, refl, arith, All, ◌++◌}
use vault_search_mcp.Prelude.Text.{Text}
use vault_search_mcp.Prelude.Result.{ok}
use vault_search_mcp.Chunker.{
  chunk_text, add_overlaps, candidate, chunk_with_separators, cuts, emit, find_space,
  get_overlap_prefix, group, hard_cuts, is_prefix, last, overlapped, refine, skip_word, split,
  split_from, trim_prefix,
}
use vault_search_mcp.Chunker.Bounds.{chunk_text-Fits, Fits, NonEmpty}
use vault_search_mcp.Chunker.Content.{keep, concat}
use vault_search_mcp.Chunker.Overlap.{chunk_text-content, Extends}
use vault_search_mcp.Collect.{
  FileMetadata, IsIndexable, chunk_and_collect, chunk_and_collect-IsIndexable, ChunkRecord,
}

program : Unit {0}
unfolding chunk_text chunk_with_separators split split_from is_prefix group emit candidate hard_cuts
    cuts refine overlapped add_overlaps get_overlap_prefix last find_space skip_word trim_prefix
program = tt

abbrev separators : List Text
separators = (b'\n' ∷ []) ∷ (b' ' ∷ []) ∷ []

-- ab cd efghi
abbrev text : Text
text = b'a' ∷ b'b' ∷ b' ' ∷ b'c' ∷ b'd' ∷ b' ' ∷ b'e' ∷ b'f' ∷ b'g' ∷ b'h' ∷ b'i' ∷ []

separators-NonEmpty : All NonEmpty separators
separators-NonEmpty = (omega arith, (omega arith, tt))

chunks_of_text :
    chunk_text separators text 4 1
    ≡ ok (
        (b'a' ∷ b'b' ∷ [])
        ∷ (b'b' ∷ b'c' ∷ b'd' ∷ [])
        ∷ (b'e' ∷ b'f' ∷ b'g' ∷ b'h' ∷ [])
        ∷ (b'h' ∷ b'i' ∷ [])
        ∷ [])
unfolding program
chunks_of_text = refl

chunk_text-Fits_example :
    (chunks : List Text) × (chunk_text separators text 4 1 ≡ ok chunks) × All (Fits 4) chunks
chunk_text-Fits_example = chunk_text-Fits separators text 4 1 (omega arith) separators-NonEmpty

chunk_text-content_example :
    (base chunks : List Text) × (chunk_text separators text 4 1 ≡ ok chunks)
    × Extends 1 base chunks
    × (keep separators (concat base) ≡ keep separators text)
chunk_text-content_example =
    chunk_text-content separators text 4 1 (omega arith) separators-NonEmpty

abbrev meta : FileMetadata
meta = record { relative_path = b'n' ∷ []; folder = []; title = b'n' ∷ []; modified_at = [] }

chunk_and_collect-IsIndexable_example :
    (new : List ChunkRecord) × (chunk_and_collect [] meta [] [] separators 4 1 text []
      ≡ ok ([] ++ new))
    × All (IsIndexable [] meta [] [] 4) new
chunk_and_collect-IsIndexable_example =
    chunk_and_collect-IsIndexable [] meta [] [] separators 4 1 text [] (omega arith)
      separators-NonEmpty
