-- ===== src/Indexer/FullReindex/Graph.antt =====
-- The graph's part of `full_reindex`: which tables it changes.
use vault_search_mcp.Prelude.{Bool, false, List, [], ◌∷◌, ◌≡◌, ◌+◌, length, nat_eq, string_eq}
use vault_search_mcp.Prelude.Text.{Text}
use vault_search_mcp.Indexer.Database.{Lance, IsLawful, Table, Row, staging, links, aliases, add}
use vault_search_mcp.Indexer.State.{Io, pure, add_unless_empty, alias_records, index_aliases}
use vault_search_mcp.Indexer.FullReindex.Staging.{
  Progress, index_links, index_all_aliases, index_graph,
}
use vault_search_mcp.Indexer.Resolve.{resolve_link_targets}
use vault_search_mcp.Indexer.FullReindex.Guarded.{
  Stays, Stays-bind, Stays-call, Stays-ensure, resolve_link_targets-Stays, index_links-Stays,
}

module _ {L : Lance} (lawful : IsLawful L) (guard : Table → Bool) (before : Table → List Row)
    (free_links : guard (staging links) ≡ false)
    (free_aliases : guard (staging aliases) ≡ false) where
  abbrev IsCalm {ℓ} : {A : Type ℓ} → Io L A → Type 0
  IsCalm m = Stays lawful guard before m

  add_unless_empty-Stays : (rows : List Row) → IsCalm (add_unless_empty (staging aliases) rows)
  unfolding add_unless_empty
  add_unless_empty-Stays [] = λ s g. g
  add_unless_empty-Stays (row ∷ rows) =
      Stays-call lawful guard before (staging aliases) (add (row ∷ rows)) free_aliases

  module _ (normalize : Text → Text) where
    index_aliases-Stays :
        (path : Text) (names : List Text) → IsCalm (index_aliases normalize path names)
    unfolding index_aliases
    index_aliases-Stays path [] = λ s g. g
    index_aliases-Stays path (name ∷ names) =
        let records = alias_records normalize path (name ∷ names) in
        Stays-ensure lawful guard before aliases _ (
          Stays-bind lawful guard before (add_unless_empty (staging aliases) records)
            (λ _. pure (length records)) (add_unless_empty-Stays records) (λ _ s g. g))

    index_all_aliases-Stays :
        (names : List (Text × List Text)) → IsCalm (index_all_aliases normalize names)
    unfolding index_all_aliases
    index_all_aliases-Stays [] = λ s g. g
    index_all_aliases-Stays ((path, names) ∷ rest) =
        Stays-bind lawful guard before (index_aliases normalize path names) _
          (index_aliases-Stays path names)
          (λ n.
            Stays-bind lawful guard before (index_all_aliases normalize rest) (λ m. pure (n + m))
              (index_all_aliases-Stays rest) (λ m s g. g))

    pub index_graph-Stays :
        (stem : Text → Text) (p : Progress) → IsCalm (index_graph normalize stem p)
    unfolding index_graph
    index_graph-Stays stem p =
        Stays-bind lawful guard before (index_all_aliases normalize p.all_aliases) _
          (index_all_aliases-Stays p.all_aliases)
          (λ n.
            Stays-bind lawful guard before (index_links p.all_links) _
              (index_links-Stays lawful guard before free_links p.all_links)
              (λ m.
                Stays-bind lawful guard before (resolve_link_targets normalize stem)
                  (λ resolved. pure (m, n))
                  (resolve_link_targets-Stays lawful guard before free_links normalize stem)
                  (λ k s g. g)))
