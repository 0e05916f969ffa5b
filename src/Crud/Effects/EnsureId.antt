-- ===== src/Crud/Effects/EnsureId.antt =====
-- What `ensure_note_id` does to the notes.
use vault_search_mcp.Prelude.{
  List, String, Option, Bool, ◌≡◌, refl, true, false, none, some, inl, inr, ◌++◌, [], ◌∷◌, arith,
  is_some, ap, Option-cases, nat_eq, string_eq,
}
use vault_search_mcp.Prelude.Text.{Text, ends_md}
use vault_search_mcp.Dict.{lookup, insert, remove}
use vault_search_mcp.Dict.Laws.{lookup-insert}
use vault_search_mcp.Crud.World.{
  Look, read_as, World, FileRevision, Frontmatter, OperationResult, Value, Write, validation_failed,
  Io, only_md, pure, replaced,
}
use vault_search_mcp.Crud.Calls.{return_write_lock_timeout}
use vault_search_mcp.Crud.Env.{Env, serialize_frontmatter}
use vault_search_mcp.Crud.Files.{safe_write_text}
use vault_search_mcp.Crud.Frontmatter.{
  ensure_note_id, add_id, id_fields, merged, without_fields, new_id_fields, validated, ensure_body,
  ensure_note_id_locked, has_id_result,
}
use vault_search_mcp.Crud.Ends.{
  Others, others, Calm, Ends, Ends-bind, bail_unless-Keeps, lock-Keeps,
}
use vault_search_mcp.Crud.Ends.Reading.{
  error_result-fails, read_stable-Ends, Read, resolve_path-Keeps,
}
use vault_search_mcp.Crud.Ends.Writing.{safe_write_text-Wrote, Keeps-Wrote, Ends-Wrote, Wrote-bind}
use vault_search_mcp.Crud.Effects.{if-Ends, Wrote, Rewrites}
use vault_search_mcp.Crud.Write.{read_stable}
use vault_search_mcp.Crud.Effects.Flagged.{
  Flagged, FlaggedEnd, is_on, marked-Wrote, timeout-Flagged,
}

-- The frontmatter with the id that it did not have.
abbrev given_id : Env → Bool → Value → Frontmatter → Frontmatter
given_id env false new_id existing = ("id", new_id) ∷ existing
given_id env true new_id existing =
    id_fields env new_id existing (env.validate existing).validated_data

-- A text without an id was read of the file, and it was given one, its body being kept.
abbrev pub GivesId : Env → Bool → Value → List Look → List Look → Write → Type 0
GivesId env b new_id earlier = Rewrites earlier (λ content t.
    let (existing, body) = env.parse_frontmatter content in
    let fields = given_id env b new_id existing in
    (lookup "id" existing ≡ none)
    × (is_some (lookup "id" fields) ≡ true)
    × (t ≡ serialize_frontmatter env fields ++ body))

lookup-merged_kept :
    (k : String) (old new : Frontmatter)
    → is_some (lookup k old) ≡ true
    → is_some (lookup k (merged old new)) ≡ true
unfolding merged
lookup-merged_kept k old [] h = h
lookup-merged_kept k old ((i, v) ∷ new) h =
    lookup-merged_kept k (insert i v old) new (ground (arith, lookup-insert i k v old))

given_id-id :
    (env : Env) (b : Bool) (new_id : Value) (existing : Frontmatter)
    → is_some (lookup "id" (given_id env b new_id existing)) ≡ true
unfolding id_fields lookup
given_id-id env false new_id existing = refl
given_id-id env true new_id existing =
    elim (Option-cases (lookup "id" (env.validate existing).validated_data)) [
      | inl e ↦ rw (e, id_fields) refl
      | inr (made, e) ↦
          rw (e, id_fields)
            (lookup-merged_kept "id" (("id", made) ∷ remove "id" existing)
              (without_fields existing (remove "id" (env.validate existing).validated_data)) refl)
    ]

new_id_fields-Ends :
    {ws : List Write} {rs : Others} {ds : List Look} (env : Env) (b : Bool) (new_id : Value)
    (path : Text) (fields : Frontmatter) (w : World)
    → Calm ws rs ds w
    → Ends ws
        (λ p w'. Calm ws rs ds w' × (p.0 ≡ given_id env b new_id fields))
        (new_id_fields env b new_id path fields w)
unfolding new_id_fields validated
new_id_fields-Ends env false new_id path fields w c = record { holds = (c, refl) }
new_id_fields-Ends {ws = ws} {rs = rs} {ds = ds} env true new_id path fields w c =
    Ends-bind {V = λ p w'. Calm ws rs ds w' × (p.0 ≡ (env.validate fields).validated_data)}
      (validated env true path fields)
      (if-Ends _ _ (env.validate fields).valid w (record { holds = (c, refl) })
        (record {
          holds =
              (c.0, error_result-fails path (validation_failed (env.validate fields).errors) none);
        }))
      λ p w c. record { holds = (c.0, ap (id_fields env new_id fields) c.1) }

abbrev Done : Env → Bool → Value → List Write → List Look → OperationResult → World → Type 0
Done env b new_id ws earlier = FlaggedEnd (λ r. r.id_was_added) ws (GivesId env b new_id earlier)

module _ (ws : List Write) (rs : Others) (ds : List Look) (env : Env) (b : Bool) (new_id : Value)
    (file : String) (path : Text) (revision : FileRevision) (content : Text) where
  abbrev existing : Frontmatter
  existing = (env.parse_frontmatter content).0

  abbrev body : Text
  body = (env.parse_frontmatter content).1

  add_id-Wrote :
      (w : World)
      → Read ws rs ds file content w
      → lookup "id" existing ≡ none
      → Wrote ws (Done env b new_id ws ds) (add_id env b new_id file path revision existing body w)
  unfolding add_id
  add_id-Wrote w c absent =
      Ends-Wrote (new_id_fields env b new_id path existing)
        (new_id_fields-Ends env b new_id path existing w c)
        λ p w1 (c1, e).
          let text = serialize_frontmatter env p.0 ++ body in
          Wrote-bind (safe_write_text true file text (some revision) path)
            (safe_write_text-Wrote ws rs (read_as file content ∷ ds) file text (some revision) path
              w1 c1)
            λ _ w2 done. marked-Wrote ws env path (Done env b new_id ws ds) _ w2 (
              inr (
                replaced file done.before text,
                refl,
                done.once,
                (
                  content,
                  done.looks,
                  (
                    absent,
                    given_id-id env b new_id existing,
                    ap (λ f. serialize_frontmatter env f ++ body) e,
                  ),
                ),
              ))

has_id_result-id :
    (env : Env) (b : Bool) (path : Text) (id : Value) (fields : Frontmatter)
    → is_on (has_id_result env b path id fields).id_was_added ≡ false
unfolding has_id_result
has_id_result-id env b path id fields = refl

module _ (ws : List Write) (rs : Others) (ds : List Look) (env : Env) (b : Bool) (new_id : Value)
    (file : String) (path : Text) (revision : FileRevision) (content : Text) where
  branch-Wrote :
      (w : World)
      → Read ws rs ds file content w
      → (o : Option Value) → lookup "id" (env.parse_frontmatter content).0 ≡ o
      → let m : Io OperationResult = elim o [
        | some id ↦ pure (has_id_result env b path id (env.parse_frontmatter content).0)
        | none ↦
            add_id env b new_id file path revision
              (env.parse_frontmatter content).0
              (env.parse_frontmatter content).1
      ] in
        Wrote ws (Done env b new_id ws ds) (m w)
  branch-Wrote w c none e = add_id-Wrote ws rs ds env b new_id file path revision content w c e
  branch-Wrote w c (some id) e = record { holds = inl (has_id_result-id env b path id _, c.0) }

ensure_body-Wrote :
    (env : Env) (path : Text) (w : World) (new_id : Value) (b : Bool)
    → Wrote w.writes (Done env b new_id w.writes w.looks) (ensure_body env b new_id path w)
unfolding ensure_body ensure_note_id_locked
ensure_body-Wrote env path w new_id b =
    Keeps-Wrote w (bail_unless-Keeps _ (ends_md path) (error_result-fails path only_md none))
      (refl, (refl, ([], refl)), refl)
      λ _ w1 c1. Keeps-Wrote w1 (resolve_path-Keeps env path) c1 λ f w2 c2.
        Keeps-Wrote w2 (lock-Keeps f) c2 λ _ w3 c3.
          Keeps-Wrote w3 (bail_unless-Keeps _ (ends_md path) (error_result-fails path only_md none))
            c3
            λ _ w4 c4. Keeps-Wrote w4 (resolve_path-Keeps env path) c4 λ file w5 c5.
              Ends-Wrote (read_stable file path) (read_stable-Ends file path w5 c5) λ p w6 c6.
                branch-Wrote w.writes (others w) w.looks env b new_id file path p.0 p.1 w6 c6
                  (lookup "id" (env.parse_frontmatter p.1).0) refl

-- `ensure_note_id` leaves the note alone, as it has an id, or replaces a file once: the text that
-- it read of that file, in its only look, had no id, its body is kept, and its frontmatter has one
-- now, the new one in front of the fields or, if a schema is validated against, the schema's if
-- that made one; or it fails or raises and writes nothing. The result says which.
pub ensure_note_id-Flagged :
    (env : Env) (path : Text) (w : World) (new_id : Value) (validate_schema : Bool)
    → Flagged
        (λ r. r.id_was_added)
        w
        (GivesId env validate_schema new_id w.looks)
        (ensure_note_id env validate_schema new_id path w)
unfolding ensure_note_id return_write_lock_timeout
ensure_note_id-Flagged env path w new_id b =
    timeout-Flagged (λ r. r.id_was_added) path w (GivesId env b new_id w.looks)
      (ensure_body env b new_id path w).0 (ensure_body env b new_id path w).1
      (ensure_body-Wrote env path w new_id b)
