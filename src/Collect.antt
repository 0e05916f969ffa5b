-- ===== src/Collect.antt =====
-- src/vault_search/utils/chunking.py: the chunk records that go into the index. Sizes and
-- separators are CHUNK_SIZE, CHUNK_OVERLAP and CHUNK_SEPARATORS of config/chunking.py.
use vault_search_mcp.Prelude.{
  ℕ, All, Bool-cases, List, String, [], false, if◌then◌else◌, inl, inr, length, none, some, ◌++◌,
  ◌∷◌, ◌≡◌, ◌≤◌, nat_eq, string_eq, arith, refl, ◌<◌,
}
use vault_search_mcp.Prelude.Text.{Text, is_blank, strip, length-strip-le, strip_idem}
use vault_search_mcp.Prelude.Result.{Result, ok, ◌>>=◌}
use vault_search_mcp.Dict.{Dict, lookup}
use vault_search_mcp.Chunker.{chunk_text}
use vault_search_mcp.Chunker.Bounds.{Fits, NonEmpty, chunk_text-Fits}

-- The part of `FileMetadata` of utils/metadata.py that the records copy.
pub record FileMetadata : Type 0 where
  pub relative_path : Text
  pub folder : Text
  pub title : Text
  pub modified_at : Text

pub record ChunkRecord : Type 0 where
  pub note_path : Text
  pub note_title : Text
  pub folder : Text
  pub headers : Text
  pub tags : Text
  pub modified_at : Text
  pub text : Text
  pub id : Text
  pub created_at : Text
  pub updated_at : Text
  pub description : Text
  pub status : Text
  pub note_type : Text
  pub category : Text
  pub project : Text
  pub source : Text

-- `if value := frontmatter_fields.get(key): ...`, over the field's empty default.
unfoldable pub fill : String → Dict String Text → Text
fill key fields = elim (lookup key fields) [
  | none ↦ []
  | some value ↦ if is_blank value then [] else value
]

unfoldable pub make_chunk : Text → Text → FileMetadata → Text → Dict String Text → ChunkRecord
unfolding fill
make_chunk text headers meta tags fields = record {
  note_path = meta.relative_path;
  note_title = meta.title;
  folder = meta.folder;
  headers = headers;
  tags = tags;
  modified_at = meta.modified_at;
  text = text;
  id = fill "id" fields;
  created_at = fill "created_at" fields;
  updated_at = fill "updated_at" fields;
  description = fill "description" fields;
  status = fill "status" fields;
  note_type = fill "note_type" fields;
  category = fill "category" fields;
  project = fill "project" fields;
  source = fill "source" fields;
}

module _ (headers : Text) (meta : FileMetadata) (tags : Text) (fields : Dict String Text) where
  -- The loop over the parts; a part that is blank once stripped is skipped.
  unfoldable pub collect : List Text → List ChunkRecord
  unfolding make_chunk
  collect [] = []
  collect (part ∷ parts) =
      let stripped = strip part in
      let rest = collect parts in
      if is_blank stripped then rest else make_chunk stripped headers meta tags fields ∷ rest

  unfoldable pub chunk_and_collect :
      List Text → ℕ → ℕ → Text → List ChunkRecord → Result (List ChunkRecord)
  unfolding collect
  chunk_and_collect separators size overlap text chunks = do
    parts ← chunk_text separators text size overlap
    ok (chunks ++ collect parts)

  -- A record that the index can hold: its text is stripped, not blank and within the size, and
  -- names its note.
  pub record IsIndexable (size : ℕ) (c : ChunkRecord) : Type 0 where
    pub fits : length c.text ≤ size
    pub not_blank : is_blank c.text ≡ false
    pub stripped : strip c.text ≡ c.text
    pub note : c.note_path ≡ meta.relative_path
    pub heading : c.headers ≡ headers

  collect-IsIndexable :
      (size : ℕ) (parts : List Text)
      → All (Fits size) parts
      → All (IsIndexable size) (collect parts)
  unfolding collect make_chunk
  collect-IsIndexable size [] h = tt
  collect-IsIndexable size (part ∷ parts) h = elim (Bool-cases (is_blank (strip part))) [
    | inl t ↦ rw t (collect-IsIndexable size parts h.1)
    | inr f ↦ rw f (
        (
          record {
            fits = omega (arith, h.0, length-strip-le part);
            not_blank = f;
            stripped = strip_idem part;
            note = refl;
            heading = refl;
          },
          collect-IsIndexable size parts h.1,
        ))
  ]

  -- Collecting the chunks of a text keeps the records that were there, in front, and appends
  -- records of which each is stripped, not blank, at most `size` characters long and of this note.
  pub chunk_and_collect-IsIndexable :
      (separators : List Text) (size overlap : ℕ) (text : Text) (chunks : List ChunkRecord)
      → 0 < size
      → All NonEmpty separators
      → (new : List ChunkRecord) × (chunk_and_collect separators size overlap text chunks
          ≡ ok (chunks ++ new))
        × All (IsIndexable size) new
  unfolding chunk_and_collect
  chunk_and_collect-IsIndexable separators size overlap text chunks p n =
      let (parts, e, fit) = chunk_text-Fits separators text size overlap p n in
      (collect parts, rw e, collect-IsIndexable size parts fit)
