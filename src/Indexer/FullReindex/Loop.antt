-- ===== src/Indexer/FullReindex/Loop.antt =====
-- What the loop over the notes leaves in the staging table of the chunks.
use mathlib.Core.List.{append-nil, append_assoc}
use vault_search_mcp.Prelude.{
  ℕ, Bool, true, false, Option, List, [], ◌∷◌, ◌++◌, ◌≡◌, if◌then◌else◌, refl, arith, length, ◌+◌,
  nat_eq, string_eq, ap, length-append,
}
use vault_search_mcp.Prelude.Text.{Text}
use vault_search_mcp.Collect.{ChunkRecord}
use vault_search_mcp.Indexer.Database.{Lance, IsLawful, Table, Row}
use vault_search_mcp.Indexer.State.{Indexer}
use vault_search_mcp.Indexer.ReindexNote.Run.{
  ParseStatus, success, no_chunks, parse_error, unsupported,
}
use vault_search_mcp.Indexer.FullReindex.Staging.{
  Completed, Progress, Stop, finished, interrupted, raised, with_aliases, extend, note_result,
  is_success, store_if, collect_notes,
}
use vault_search_mcp.Indexer.FullReindex.Batches.{
  Safe, Stored, StoredIf, chunks_of, chunks_so_far, count_so_far, errors_in, names_of, one_error,
  parsed_chunks, parsed_names, store_if-Stored,
}

module _ {L : Lance} (lawful : IsLawful L) (before : Table → List Row)
    (embed_corpus : List Text → Option (List (List ℕ))) where
  -- What the loop changes in the variables.
  pub record Collected (notes : List Completed) (p : Progress) (s : Indexer L) (p' : Progress)
      (s' : Indexer L) : Type 0 where
    pub together :
        (chunks_so_far lawful before embed_corpus) p' s'
        ≡ chunks_so_far lawful before embed_corpus p s ++ parsed_chunks notes
    pub counted :
        (count_so_far lawful before embed_corpus) p'
        ≡ count_so_far lawful before embed_corpus p + length (parsed_chunks notes)
    pub errors : p'.parse_errors ≡ p.parse_errors + errors_in notes
    pub names : p'.all_aliases ≡ p.all_aliases ++ parsed_names notes

  abbrev pub CollectedIf :
      List Completed → Progress → Indexer L → Indexer L × Progress × Stop → Type 0
  CollectedIf notes p s (s', p', finished) =
      Safe lawful before embed_corpus s' × Collected notes p s p' s'
  CollectedIf notes p s (s', p', interrupted) = Safe lawful before embed_corpus s'
  CollectedIf notes p s (s', p', raised) = Safe lawful before embed_corpus s'

  if-CollectedIf :
      (notes : List Completed) (p : Progress) (s : Indexer L) (test : Bool)
      (x y : Indexer L × Progress × Stop)
      → CollectedIf notes p s x
      → CollectedIf notes p s y
      → CollectedIf notes p s (if test then x else y)
  if-CollectedIf notes p s true x y f g = f
  if-CollectedIf notes p s false x y f g = g

  -- One note's part.
  record Noted (e : Completed) (status : ParseStatus) (p : Progress) (q : Progress) : Type 0 where
    together : q.batch ≡ p.batch ++ chunks_of status e.result.chunks
    counted : q.total_chunks ≡ p.total_chunks
    errors : q.parse_errors ≡ p.parse_errors + one_error status
    names : q.all_aliases ≡ p.all_aliases ++ names_of e status

  with_aliases-append :
      (path : Text) (names : List Text) (known : List (Text × List Text))
      → with_aliases path names known ≡ known ++ with_aliases path names []
  unfolding with_aliases
  with_aliases-append path [] known = rw append-nil refl
  with_aliases-append path (name ∷ names) known = refl

  note_result-Noted :
      (e : Completed) (status : ParseStatus) (p : Progress)
      → Noted e status p (note_result e status p)
  unfolding note_result extend chunks_of one_error names_of
  note_result-Noted e success p = record {
    together = refl;
    counted = refl;
    errors = omega arith;
    names = with_aliases-append e.path e.result.aliases p.all_aliases;
  }
  note_result-Noted e parse_error p = record {
    together = rw append-nil refl;
    counted = refl;
    errors = refl;
    names = rw append-nil refl;
  }
  note_result-Noted e no_chunks p = record {
    together = rw append-nil refl;
    counted = refl;
    errors = omega arith;
    names = rw append-nil refl;
  }
  note_result-Noted e unsupported p = record {
    together = rw append-nil refl;
    counted = refl;
    errors = omega arith;
    names = rw append-nil refl;
  }

  join :
      (e : Completed) (rest : List Completed) (p q p' : Progress) (s s' : Indexer L)
      (next : Indexer L × Progress × Stop)
      → Noted e e.result.status p q
      → Stored lawful before embed_corpus q s p' s'
      → CollectedIf rest p' s' next
      → CollectedIf (e ∷ rest) p s next
  unfolding parsed_chunks parsed_names errors_in
  join e rest p q p' s s' (t, w, interrupted) n k c = c
  join e rest p q p' s s' (t, w, raised) n k c = c
  join e rest p q p' s s' (t, w, finished) n k c =
      let cs = chunks_of e.result.status e.result.chunks in
      (
        c.0,
        record {
          together = rw (c.1.together, k.together, n.together) (simp append_assoc);
          counted = omega (
            arith,
            c.1.counted,
            k.counted,
            n.counted,
            ap (length {A = ChunkRecord}) n.together,
            length-append p.batch cs,
            length-append cs (parsed_chunks rest),
          );
          errors = omega (arith, c.1.errors, k.errors, n.errors);
          names = rw (c.1.names, k.names, n.names) (simp append_assoc);
        },
      )

  next-CollectedIf :
      (e : Completed) (rest : List Completed) (p q : Progress) (s : Indexer L)
      (r : Indexer L × Progress × Stop) (next : Indexer L × Progress × Stop)
      → Noted e e.result.status p q
      → StoredIf lawful before embed_corpus q s r
      → (Safe lawful before embed_corpus r.0 → CollectedIf rest r.1 r.0 next)
      → CollectedIf (e ∷ rest) p s (elim r.2 [
        | finished ↦ next
        | interrupted ↦ (r.0, r.1, interrupted)
        | raised ↦ (r.0, r.1, raised)
      ])
  next-CollectedIf e rest p q s (s', p', interrupted) next n k ih = k
  next-CollectedIf e rest p q s (s', p', raised) next n k ih = k
  next-CollectedIf e rest p q s (s', p', finished) next n k ih =
      join e rest p q p' s s' next n k.1 (ih k.0)

  pub collect_notes-Collected :
      (batch_size : ℕ) (notes : List Completed) (p : Progress) (s : Indexer L)
      → Safe lawful before embed_corpus s
      → CollectedIf notes p s (collect_notes embed_corpus batch_size notes p s)
  unfolding collect_notes parsed_chunks parsed_names errors_in
  collect_notes-Collected batch_size [] p s g = (
    g,
    record {
      together = rw append-nil refl;
      counted = omega arith;
      errors = omega arith;
      names = rw append-nil refl;
    },
  )
  collect_notes-Collected batch_size (e ∷ rest) p s g =
      let q = note_result e e.result.status p in
      let r = store_if embed_corpus batch_size (is_success e.result.status) q s in
      let next = collect_notes embed_corpus batch_size rest r.1 r.0 in
      if-CollectedIf (e ∷ rest) p s e.shutdown (s, p, interrupted)
        (elim r.2 [
          | finished ↦ next
          | interrupted ↦ (r.0, r.1, interrupted)
          | raised ↦ (r.0, r.1, raised)
        ])
        g
        (next-CollectedIf e rest p q s r next (note_result-Noted e e.result.status p)
          (store_if-Stored lawful before embed_corpus batch_size (is_success e.result.status) q s g)
          (collect_notes-Collected batch_size rest r.1 r.0))
