-- ===== src/Indexer/FullReindex/Ending.antt =====
-- The ends of `full_reindex`: reopening the public tables.
use vault_search_mcp.Prelude.{
  Bool, true, false, Option, none, some, List, ◌≡◌, if◌then◌else◌, refl, arith, Option-cases, inl,
  inr, ◌∙◌, nat_eq, string_eq,
}
use vault_search_mcp.Indexer.Database.{
  Lance, IsLawful, Table, Kind, Row, canonical, chunks, links, aliases, same_kind, effect,
  open_table,
}
use vault_search_mcp.Indexer.State.{
  Indexer, ◌>>◌, call, list_tables, handle, set_handle, Handle, on_canonical, closed,
}
use vault_search_mcp.Indexer.Rules.{Ensures, Ensures-continue, Ensures-weaken, Exactly}
use vault_search_mcp.Indexer.FullReindex.Run.{reopen, restore_canonical_handles}
use vault_search_mcp.Indexer.FullReindex.Still.{OffStaging, call_same, is_staging}

module _ {L : Lance} (lawful : IsLawful L) where
  -- Setting a handle.
  set_handle_off :
      (k j : Kind) (hd : Handle) (s : Indexer L)
      → is_staging hd ≡ false
      → (same_kind k j ≡ false → is_staging (handle j s) ≡ false)
      → is_staging (handle j (set_handle k hd s)) ≡ false
  unfolding set_handle handle same_kind
  set_handle_off chunks chunks hd s e g = e
  set_handle_off chunks links hd s e g = g refl
  set_handle_off chunks aliases hd s e g = g refl
  set_handle_off links chunks hd s e g = g refl
  set_handle_off links links hd s e g = e
  set_handle_off links aliases hd s e g = g refl
  set_handle_off aliases chunks hd s e g = g refl
  set_handle_off aliases links hd s e g = g refl
  set_handle_off aliases aliases hd s e g = e

  set_handle_rows :
      (k : Kind) (hd : Handle) (s : Indexer L) (u : Table)
      → L.rows u (set_handle k hd s).db ≡ L.rows u s.db
  unfolding set_handle
  set_handle_rows chunks hd s u = refl
  set_handle_rows links hd s u = refl
  set_handle_rows aliases hd s u = refl

  module _ (before : Table → List Row) where
    abbrev Unchanged : Indexer L → Type 0
    Unchanged = Exactly lawful before

    -- The handles of these kinds are off the staging tables.
    abbrev Off : (Kind → Bool) → Indexer L → Type 0
    Off kinds s = Unchanged s × ((k : Kind) → kinds k ≡ true → is_staging (handle k s) ≡ false)

    abbrev and_kind : Kind → (Kind → Bool) → Kind → Bool
    and_kind k kinds j = if same_kind k j then true else kinds j

    set_handle-Off :
        (k : Kind) (hd : Handle) (kinds : Kind → Bool) (s : Indexer L)
        → is_staging hd ≡ false
        → Off kinds s
        → Off (and_kind k kinds) (set_handle k hd s)
    set_handle-Off k hd kinds s e o = (
      λ u. set_handle_rows k hd s u ∙ o.0 u,
      λ j h. set_handle_off k j hd s e (λ f. o.1 j (ground arith)),
    )

    reopen-Off :
        (k : Kind) (found : Bool) (kinds : Kind → Bool) (s : Indexer L)
        → Off kinds s
        → Ensures Unchanged (λ _. Off (and_kind k kinds)) (reopen k found s)
    unfolding reopen effect is_staging
    reopen-Off k false kinds s o = set_handle-Off k closed kinds s refl o
    reopen-Off k true kinds s o =
        let same = call_same lawful (canonical k) open_table s (λ held rows. refl) in
        let after : Off kinds (call (canonical k) open_table s).0 =
          (λ u. same.rows u ∙ o.0 u, λ j h. rw (same.handles j) (o.1 j h)) in
        Ensures-continue Unchanged (λ _. Off kinds) (λ _. Off (and_kind k kinds))
          (call (canonical k) open_table s) _ (ended (call (canonical k) open_table s) after)
          (λ _ s' p. set_handle-Off k on_canonical kinds s' refl p)
      where
        ended :
            (r : Indexer L × Option (Unit {0}))
            → Off kinds r.0
            → Ensures Unchanged (λ _. Off kinds) r
        ended (s', none) p = p.0
        ended (s', some a) p = p

    pub restore_canonical_handles-Off :
        (s : Indexer L)
        → Exactly lawful before s
        → Ensures
            (Exactly lawful before)
            (λ _ s'. Exactly lawful before s' × OffStaging lawful s')
            (restore_canonical_handles s)
    unfolding restore_canonical_handles list_tables same_kind
    restore_canonical_handles-Off s e =
        let db = (L.list_tables s.db).0 in
        let listed : Unchanged (record s { db = db }) = λ u. lawful.rows-list_tables u s.db ∙ e u in
        elim (Option-cases (L.list_tables s.db).1) [
          | inl raised ↦ rw raised listed
          | inr (names, returned) ↦ rw returned (reopened names (record s { db = db }) listed)
        ]
      where
        all :
            (k : Kind)
            → (if same_kind aliases k
                then true
                else if same_kind links k
                then true
                else if same_kind chunks k
                then true
                else false)
              ≡ true
        all chunks = refl
        all links = refl
        all aliases = refl

        reopened :
            (names : Table → Bool) (s : Indexer L)
            → Exactly lawful before s
            → Ensures
                (Exactly lawful before)
                (λ _ s'. Exactly lawful before s' × OffStaging lawful s')
                ((reopen chunks (names (canonical chunks))
                    >> (reopen links (names (canonical links))
                        >> reopen aliases (names (canonical aliases))))
                  s)
        reopened names s e =
            let none_yet : Kind → Bool = λ k. false in
            let one = and_kind chunks none_yet in
            let two = and_kind links one in
            let three = and_kind aliases two in
            let end : Unit {0} → Indexer L → Type 0 =
              λ _ s'. Exactly lawful before s' × OffStaging lawful s' in
            Ensures-continue Unchanged (λ _. Off one) end
              (reopen chunks (names (canonical chunks)) s) _
              (reopen-Off chunks (names (canonical chunks)) none_yet s (e, λ k h. cc))
              λ _ s1 o1.
                Ensures-continue Unchanged (λ _. Off two) end
                  (reopen links (names (canonical links)) s1) _
                  (reopen-Off links (names (canonical links)) one s1 o1)
                  λ _ s2 o2.
                    Ensures-weaken Unchanged (λ _. Off three) end
                      (reopen aliases (names (canonical aliases)) s2)
                      (reopen-Off aliases (names (canonical aliases)) two s2 o2)
                      λ _ s3 o3. (o3.0, λ k. o3.1 k (all k))
