-- ===== src/Indexer/ReindexNote/Truthful.antt =====
-- The statuses of `reindex_note` and what is in the index.
use vault_search_mcp.Prelude.{
  ℕ, Bool, true, false, not, Option, none, some, List, [], ◌∷◌, ◌≡◌, if◌then◌else◌, refl, nat_eq,
  string_eq, take, ◌&&◌, map, ap,
}
use vault_search_mcp.Prelude.Text.{Text, text_eq}
use vault_search_mcp.Collect.{ChunkRecord}
use vault_search_mcp.Indexer.Database.{Lance, IsLawful, ChunkWithVector, link_row}
use vault_search_mcp.Indexer.State.{Indexer}
use vault_search_mcp.Indexer.NoteRecords.Apply.{apply_note_records}
use vault_search_mcp.Indexer.Rules.{Owned}
use vault_search_mcp.Indexer.NoteRecords.Refines.{apply_note_records-IsAtomic}
use vault_search_mcp.Indexer.Breaker.{check_circuit_breaker}
use vault_search_mcp.Indexer.ReindexNote.Run.{
  Answers, parse_failed, rejected_path_traversal, rejected_extension, circuit_breaker_open, plain,
  ParseStatus, success, no_chunks, parse_error, unsupported, IdOutcome, id_generated, id_kept,
  file_missing, id_failed, embed, delete_records, store, index_chunks, index_parsed, index_with_id,
  index_locked, reindex_note,
}
use vault_search_mcp.Indexer.ReindexNote.Statuses.{
  ChunksOf, IsTruthful, Promise-counted, checked-Owned, delete-IsTruthful, end_empty-IsTruthful,
  end_update-IsTruthful, if-IsTruthful, take-ChunksOf,
}

module _ {L : Lance} (lawful : IsLawful L) (normalize : Text → Text) (max_chunks : ℕ) (a : Answers)
    (path : Text) where
  module _ (ofChunks : ChunksOf path a.parsed.chunks)
      (ofLinks : Owned path (map link_row a.parsed.links)) where
    store-IsTruthful :
        (id_added : Bool) (new : Option (List ChunkWithVector)) (s : Indexer L)
        → embed a (take max_chunks a.parsed.chunks) ≡ new
        → IsTruthful lawful normalize max_chunks a path s
            (store normalize max_chunks a path id_added new s)
    unfolding store plain embed
    store-IsTruthful id_added none s e = (λ z u. refl, λ u. refl)
    store-IsTruthful id_added (some cs) s e =
        end_update-IsTruthful lawful normalize max_chunks a path cs id_added _ s
          (apply_note_records normalize path cs a.parsed.links a.parsed.aliases s) e
          (apply_note_records-IsAtomic lawful normalize s path cs a.parsed.links a.parsed.aliases
            (checked-Owned lawful normalize max_chunks a path (take max_chunks a.parsed.chunks) _ cs
              (take-ChunksOf lawful normalize max_chunks a path max_chunks a.parsed.chunks ofChunks)
              e)
            ofLinks)

    index_chunks-IsTruthful :
        (id_added : Bool) (cs : List ChunkRecord) (s : Indexer L)
        → take max_chunks a.parsed.chunks ≡ cs
        → IsTruthful lawful normalize max_chunks a path s
            (index_chunks normalize max_chunks a path id_added cs s)
    unfolding index_chunks
    index_chunks-IsTruthful id_added [] s e =
        end_empty-IsTruthful lawful normalize max_chunks a path _ s
          (apply_note_records normalize path [] [] [] s)
          (apply_note_records-IsAtomic lawful normalize s path [] [] [] tt tt)
    index_chunks-IsTruthful id_added (c ∷ cs) s e =
        store-IsTruthful id_added (embed a (c ∷ cs)) s (ap (embed a) e)

    index_parsed-IsTruthful :
        (id_added : Bool) (status : ParseStatus) (s : Indexer L)
        → IsTruthful lawful normalize max_chunks a path s
            (index_parsed normalize max_chunks a path id_added status s)
    unfolding index_parsed plain
    index_parsed-IsTruthful id_added success s = index_chunks-IsTruthful id_added _ s refl
    index_parsed-IsTruthful id_added no_chunks s = index_chunks-IsTruthful id_added _ s refl
    index_parsed-IsTruthful id_added unsupported s = index_chunks-IsTruthful id_added _ s refl
    index_parsed-IsTruthful id_added parse_error s =
        if-IsTruthful lawful normalize max_chunks a path s a.still_found (s, plain parse_failed, 0)
          (delete_records normalize max_chunks a path s) (λ u. refl)
          (delete-IsTruthful lawful normalize max_chunks a path s)

    index_with_id-IsTruthful :
        (id : IdOutcome) (s : Indexer L)
        → IsTruthful lawful normalize max_chunks a path s
            (index_with_id normalize max_chunks a path id s)
    unfolding index_with_id
    index_with_id-IsTruthful file_missing s = delete-IsTruthful lawful normalize max_chunks a path s
    index_with_id-IsTruthful id_generated s = index_parsed-IsTruthful true a.parsed.status s
    index_with_id-IsTruthful id_kept s = index_parsed-IsTruthful false a.parsed.status s
    index_with_id-IsTruthful id_failed s = index_parsed-IsTruthful false a.parsed.status s

    index_locked-IsTruthful :
        (auto_generate_id : Bool) (s : Indexer L)
        → IsTruthful lawful normalize max_chunks a path s
            (index_locked normalize max_chunks a path auto_generate_id s)
    unfolding index_locked
    index_locked-IsTruthful auto_generate_id s =
        let id = if auto_generate_id && a.is_md then a.id else id_kept in
        if-IsTruthful lawful normalize max_chunks a path s (not a.found)
          (delete_records normalize max_chunks a path s)
          (index_with_id normalize max_chunks a path id s)
          (delete-IsTruthful lawful normalize max_chunks a path s) (index_with_id-IsTruthful id s)

    -- Over a database that obeys the laws, and where the parser's chunks and links are the note's, the
    -- status that `reindex_note` returns says what is in the index afterwards: the note's records
    -- are those of the parsed file with their vectors, or are gone, or the tables are unchanged. Where
    -- the update failed they are unchanged if no restore failed, and the other notes' records are
    -- there in any case.
    pub reindex_note-IsTruthful :
        (auto_generate_id : Bool) (s : Indexer L)
        → IsTruthful lawful normalize max_chunks a path s
            (reindex_note normalize max_chunks a path auto_generate_id s)
    unfolding reindex_note plain
    reindex_note-IsTruthful auto_generate_id s =
        let checked_in = check_circuit_breaker path a.now s.reindex_attempts in
        let counted = record s { reindex_attempts = checked_in.0 } in
        let locked = index_locked normalize max_chunks a path auto_generate_id counted in
        let blocked = if checked_in.1 then (counted, plain circuit_breaker_open, 0) else locked in
        let allowed = if not a.is_indexable then (s, plain rejected_extension, 0) else blocked in
        if-IsTruthful lawful normalize max_chunks a path s (not a.path_is_valid)
          (s, plain rejected_path_traversal, 0) allowed (λ u. refl)
          (if-IsTruthful lawful normalize max_chunks a path s (not a.is_indexable)
            (s, plain rejected_extension, 0) blocked (λ u. refl)
            (if-IsTruthful lawful normalize max_chunks a path s checked_in.1
              (counted, plain circuit_breaker_open, 0) locked (λ u. refl)
              (Promise-counted lawful normalize max_chunks a path locked.1.status s checked_in.0
                locked.1 locked.2 locked.0 (index_locked-IsTruthful auto_generate_id counted))))
