-- ===== src/Crud/Effects/Unraced.antt =====
-- What `create_note`, `move_note` and `delete_note` write over, when no other process gets in between the last
-- look at the target and the write.
use vault_search_mcp.Prelude.{
  ℕ, String, List, Option, Bool, [], ◌∷◌, ◌≡◌, refl, none, some, arith, ◌++◌,
}
use vault_search_mcp.Prelude.Text.{Text}
use vault_search_mcp.Crud.World.{
  Look, World, File, Files, Frontmatter, OperationResult, Outcome, Value, Write, relocated,
  replaced,
}
use vault_search_mcp.Crud.Calls.{revision_at}
use vault_search_mcp.Crud.Env.{Env, serialize_frontmatter}
use vault_search_mcp.Crud.Write.{create_note, with_id}
use vault_search_mcp.Crud.Delete.{move_note, delete_note}
use vault_search_mcp.Crud.Ends.Writing.{Over}
use vault_search_mcp.Crud.Effects.{
  Effect, Replaces, create_note-Effect, created_from, failed, wrote,
}
use vault_search_mcp.Crud.Effects.Moves.{Moves, move_note-Effect}
use vault_search_mcp.Crud.Effects.Trash.{Trashes, CreatesNothing, delete_note-Effect}

Effect-map :
    (w : World) (P Q : List Look → Write → Type 0) (r : World × Outcome OperationResult)
    → ((looks : List Look) (x : Write) → P looks x → Q looks x)
    → Effect w P r
    → Effect w Q r
Effect-map w P Q r f (failed s e) = failed s e
Effect-map w P Q r f (wrote x s e p) = wrote x s e (f _ x p)

no_file : (before : Option File) → revision_at before ≡ none → before ≡ none
unfolding revision_at
no_file none h = refl
no_file (some file) h = ground arith

Over-none :
    (races : List (Files → Files)) (before : Option File)
    → races ≡ []
    → Over races none before
    → before ≡ none
Over-none [] before e h = no_file before h
Over-none (race ∷ races) before e h = ground arith

Replaces-map :
    (T U : Option File → Text → Type 0) (looks : List Look) (x : Write)
    → ((before : Option File) (t : Text) → T before t → U before t)
    → Replaces T looks x
    → Replaces U looks x
Replaces-map T U looks (replaced file before t) f h = f before t h
Replaces-map T U looks (relocated source target over) f h = h

Moves-map :
    (T U : Option File → Type 0) (looks : List Look) (x : Write)
    → ((over : Option File) → T over → U over)
    → Moves T looks x
    → Moves U looks x
Moves-map T U looks (replaced file before t) f h = h
Moves-map T U looks (relocated source target over) f h = f over h

Trashes-map :
    (env : Env) (path : Text) (T U : Option File → Type 0) (looks : List Look) (x : Write)
    → ((over : Option File) → T over → U over)
    → Trashes env path T looks x
    → Trashes env path U looks x
Trashes-map env path T U looks (replaced file before t) f h = h
Trashes-map env path T U looks (relocated source target over) f h = (h.0, h.1, f over h.2)

module _ (env : Env) (w : World) (quiet : w.races ≡ []) where
  -- If no other process gets in between the last look and the replacement, `create_note` never
  -- overwrites a note, whatever others do before and whichever calls fail: it succeeds with one
  -- file written where there was none, the text being the serialized frontmatter, validated if
  -- asked for and with an id, and the content; or it fails or raises and writes nothing.
  pub create_note_unraced :
      (path : Text) (new_id : Value) (content : Text) (frontmatter : Frontmatter)
      (validate_schema : Bool)
      → let fields = with_id env new_id (created_from env validate_schema frontmatter) in
        Effect w
          (Replaces
            (λ before t. (before ≡ none) × (t ≡ serialize_frontmatter env fields ++ content)))
          (create_note env new_id path content frontmatter validate_schema w)
  create_note_unraced path new_id content frontmatter validate_schema =
      Effect-map w _ _ _
        (λ looks x p.
          Replaces-map _ _ looks x (λ before t h. (Over-none w.races before quiet h.0, h.1)) p)
        (create_note-Effect env path w new_id content frontmatter validate_schema)

  -- If no other process gets in between the last look and the move, `move_note` never moves over a
  -- note: it succeeds with one move, onto a path where nothing was; or it fails or raises, and
  -- moves nothing.
  pub move_note_unraced :
      (from_path to_path : Text)
      → Effect w (Moves (λ over. over ≡ none)) (move_note env from_path to_path w)
  move_note_unraced from_path to_path =
      Effect-map w _ _ _
        (λ looks x p. Moves-map _ _ looks x (λ over h. Over-none w.races over quiet h) p)
        (move_note-Effect env w from_path to_path)

  -- If no other process creates a file between the calls, or gets in between the last look and the
  -- move, `delete_note` never moves over a file, whichever calls fail and whatever else other
  -- processes do: it succeeds with one move, of the file that the path leads to, onto the name that
  -- it looked at last, where nothing was; or it fails or raises, and moves nothing.
  pub delete_note_unraced :
      CreatesNothing w.events
      → (path trash : Text) (unique : ℕ → String)
      → Effect w (Trashes env path (λ over. over ≡ none)) (delete_note env path trash unique w)
  delete_note_unraced nothing path trash unique =
      Effect-map w _ _ _
        (λ looks x p. Trashes-map env path _ _ looks x (λ over h. Over-none w.races over quiet h) p)
        (delete_note-Effect env w nothing path trash unique)
