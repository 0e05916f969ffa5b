-- ===== src/Crud/Effects.antt =====
-- What an operation on a note does to the notes: one write and success, or nothing.
pub mod Update
pub mod Moves
pub mod Trash
pub mod Enriching
pub mod Unraced
pub mod Flagged
pub mod EnsureId
use vault_search_mcp.Prelude.{
  [], List, String, Option, Bool, ◌∷◌, ◌≡◌, refl, true, false, none, some, if◌then◌else◌, ◌++◌, ap,
}
use vault_search_mcp.Prelude.Result.{
  value_error, key_error, os_error, unicode_decode_error, write_lock_timeout,
}
use vault_search_mcp.Prelude.Text.{Text}
use vault_search_mcp.Crud.World.{
  Look, read_as, ◌>>=◌, World, FileRevision, Files, Io, Message, OperationResult, Outcome, Write,
  lock_timeout, pure, raised, relocated, replaced, returned, success_result, value, File,
  Frontmatter, Value, created, updated, already_exists, validation_failed,
}
use vault_search_mcp.Crud.Calls.{return_write_lock_timeout, timeout_result}
use vault_search_mcp.Crud.Env.{Env, serialize_frontmatter, validate_content_size}
use vault_search_mcp.Crud.Files.{safe_write_text}
use vault_search_mcp.Crud.Write.{
  write_note_body, append_body, create_body, write_note, create_note, append_body, create_body,
  create_fields, create_locked, is_none, with_id, can_defer_required_missing,
}
use vault_search_mcp.Crud.Ends.{
  Others, others, Calm, file_revision-Keeps, lock-Keeps, make_parents-Keeps, require-Keeps,
  bail_unless-Keeps, Ends, Keeps,
}
use vault_search_mcp.Crud.Ends.Reading.{error_result-fails, validate_for_write-Keeps}
use vault_search_mcp.Crud.Ends.Writing.{
  safe_write_text-Wrote, Keeps-Wrote, Over, Wrote-bind, Wrote, Wrote-map, Ends-Wrote,
}

unfoldable pub succeeded : Outcome OperationResult → Bool
succeeded (value r) = r.success
succeeded (returned r) = r.success
succeeded (raised e) = false

-- An operation that failed or raised wrote nothing; one that succeeded wrote once, as described by
-- all looks at files and the write.
pub data Effect (w : World) (P : List Look → Write → Type 0) (r : World × Outcome OperationResult)
    : Type 0 where
  failed : succeeded r.1 ≡ false → r.0.writes ≡ w.writes → Effect w P r
  wrote :
      (x : Write) → succeeded r.1 ≡ true → r.0.writes ≡ x ∷ w.writes → P r.0.looks x → Effect w P r

abbrev pub Success : List Write → (List Look → Write → Type 0) → OperationResult → World → Type 0
Success ws P r w = (r.success ≡ true) × ((x : Write) × (w.writes ≡ x ∷ ws) × P w.looks x)

-- The text of a replacement, and what it replaced.
abbrev pub Replaces : (Option File → Text → Type 0) → List Look → Write → Type 0
Replaces T looks (replaced file before text) = T before text
Replaces T looks (relocated source target over) = ⊥

-- The text that was read of the same file, in the only look at it, and the text that replaced it.
abbrev pub Rewrites : List Look → (Text → Text → Type 0) → List Look → Write → Type 0
Rewrites earlier T looks (replaced file before text) =
    (content : Text) × (looks ≡ read_as file content ∷ earlier) × T content text
Rewrites earlier T looks (relocated source target over) = ⊥

timeout-Effect :
    (path : Text) (w : World) (P : List Look → Write → Type 0) (after : World)
    (o : Outcome OperationResult)
    → Wrote w.writes (Success w.writes P) (after, o)
    → Effect w P (timeout_result path after o)
unfolding timeout_result succeeded
timeout-Effect path w P after (value r) h = let (s, (x, e, p)) = h.holds in wrote x s e p
timeout-Effect path w P after (returned r) h = failed h.holds.1 h.holds.0
timeout-Effect path w P after (raised os_error) h = failed refl h.holds
timeout-Effect path w P after (raised value_error) h = failed refl h.holds
timeout-Effect path w P after (raised unicode_decode_error) h = failed refl h.holds
timeout-Effect path w P after (raised key_error) h = failed refl h.holds
timeout-Effect path w P after (raised write_lock_timeout) h =
    failed (error_result-fails path lock_timeout (some "write_lock_timeout")) h.holds

pub return-Effect :
    (path : Text) (w : World) (P : List Look → Write → Type 0) (body : Io OperationResult)
    → Wrote w.writes (Success w.writes P) (body w)
    → Effect w P (return_write_lock_timeout path body w)
unfolding return_write_lock_timeout
return-Effect path w P body h = timeout-Effect path w P (body w).0 (body w).1 h

-- A write and the result that follows it.
pub finish-Wrote :
    {ws : List Write} (rs : Others) (ds : List Look) (file : String) (content : Text)
    (expected : Option FileRevision) (path : Text) (P : List Look → Write → Type 0)
    (r : OperationResult) (w : World)
    → Calm ws rs ds w
    → ((before : Option File) → Over rs.races expected before → P ds (replaced file before content))
    → r.success ≡ true
    → Wrote ws (Success ws P) ((safe_write_text true file content expected path >>= λ _. pure r) w)
finish-Wrote {ws = ws} rs ds file content expected path P r w c t s =
    Wrote-bind (safe_write_text true file content expected path)
      (safe_write_text-Wrote ws rs ds file content expected path w c)
      λ _ w' done. record {
        holds = (
          s,
          (replaced file done.before content, done.once, rw done.looks (t done.before done.over)),
        );
      }

pub success_result-succeeds : (path : Text) (m : Message) → (success_result path m).success ≡ true
unfolding success_result
success_result-succeeds path m = refl

pub if-Keeps :
    {ws : List Write} {rs : Others} {ds : List Look} {A : Type 0} (m n : Io A) (b : Bool)
    → Keeps ws rs ds m
    → Keeps ws rs ds n
    → Keeps ws rs ds (if b then m else n)
if-Keeps m n true h k = h
if-Keeps m n false h k = k

pub if-Ends :
    {ws : List Write} {A : Type 0} {V : A → World → Type 0} (m n : Io A) (b : Bool) (w : World)
    → Ends ws V (m w)
    → Ends ws V (n w)
    → Ends ws V ((if b then m else n) w)
if-Ends m n true w h k = h
if-Ends m n false w h k = k

-- The frontmatter that `create_note` goes on with.
abbrev pub created_from : Env → Bool → Frontmatter → Frontmatter
created_from env false fields = fields
created_from env true fields = (env.validate fields).validated_data

create_fields-Ends :
    {ws : List Write} {rs : Others} {ds : List Look} (env : Env) (b : Bool) (path : Text)
    (fields : Frontmatter) (w : World)
    → Calm ws rs ds w
    → Ends ws
        (λ p w'. Calm ws rs ds w' × (p.0 ≡ created_from env b fields))
        (create_fields env b path fields w)
unfolding create_fields
create_fields-Ends env false path fields w c = record { holds = (c, refl) }
create_fields-Ends env true path fields w c =
    if-Ends _ _ (env.validate fields).valid w (record { holds = (c, refl) })
      (if-Ends _ _ (can_defer_required_missing env (env.validate fields).errors) w
        (record { holds = (c, refl) })
        (record {
          holds =
              (c.0, error_result-fails path (validation_failed (env.validate fields).errors) none);
        }))

create_locked-Wrote :
    (ws : List Write) (rs : Others) (ds : List Look) (env : Env) (path content : Text)
    (fields : Frontmatter) (full : Text) (w : World)
    → Calm ws rs ds w
    → Wrote ws
        (λ _ w'.
          (file : String) × (before : Option File) × (w'.writes ≡ replaced file before full ∷ ws)
          × Over rs.races none before)
        (create_locked env path content fields full w)
unfolding create_locked
create_locked-Wrote ws rs ds env path content fields full w c =
    Keeps-Wrote w (validate_for_write-Keeps env path (some content) (some fields) true) c
      λ file w1 c1. Keeps-Wrote w1 (file_revision-Keeps file) c1 λ seen w2 c2.
        Keeps-Wrote w2
          (bail_unless-Keeps _ (is_none seen) (error_result-fails path already_exists none)) c2
          λ _ w3 c3. Keeps-Wrote w3 make_parents-Keeps c3 λ _ w4 c4.
            Wrote-map (safe_write_text-Wrote ws rs ds file full none path w4 c4)
              λ _ w' done. (file, done.before, done.once, done.over)

module _ (env : Env) (path : Text) (w : World) where
  -- `write_note` succeeds with one replacement, by exactly the content it was given, or it fails
  -- or raises and writes nothing, whatever other processes do and whichever calls fail.
  pub write_note-Effect :
      (content : Text) → Effect w (Replaces (λ _ t. t ≡ content)) (write_note env path content w)
  unfolding write_note write_note_body
  write_note-Effect content = return-Effect path w _ (write_note_body env path content) (
      Keeps-Wrote w (validate_for_write-Keeps env path (some content) none true)
        (refl, (refl, ([], refl)), refl)
        λ file w1 c1. Keeps-Wrote w1 (lock-Keeps file) c1 λ _ w2 c2.
          Keeps-Wrote w2 (validate_for_write-Keeps env path (some content) none true) c2
            λ file w3 c3. Keeps-Wrote w3 (file_revision-Keeps file) c3 λ seen w4 c4.
              Keeps-Wrote w4 make_parents-Keeps c4 λ _ w5 c5.
                finish-Wrote (others w) w.looks file content seen path _ _ w5 c5 (λ _ _. refl)
                  (success_result-succeeds path (if is_none seen then created else updated)))

  -- `create_note` never overwrites a note, unless another process creates it between the last look
  -- and the replacement: it succeeds with one file written where there was none, the text being
  -- the serialized frontmatter, validated if asked for and with an id, and the content; or it
  -- fails or raises and writes nothing.
  pub create_note-Effect :
      (new_id : Value) (content : Text) (frontmatter : Frontmatter) (validate_schema : Bool)
      → let fields = with_id env new_id (created_from env validate_schema frontmatter) in
        Effect w
          (Replaces (λ before t.
            Over w.races none before × (t ≡ serialize_frontmatter env fields ++ content)))
          (create_note env new_id path content frontmatter validate_schema w)
  unfolding create_note create_body validate_content_size
  create_note-Effect new_id content frontmatter validate_schema =
      return-Effect path w _ (create_body env new_id path content frontmatter validate_schema) (
        Ends-Wrote (create_fields env validate_schema path frontmatter)
          (create_fields-Ends env validate_schema path frontmatter w
            (refl, (refl, ([], refl)), refl))
          λ p w1 c1.
            let full = with_id env new_id p.0 in
            let text = serialize_frontmatter env full ++ content in
            Keeps-Wrote w1 (require-Keeps _) c1.0 λ _ w2 c2.
              Keeps-Wrote w2 (validate_for_write-Keeps env path (some content) (some full) true) c2
                λ file w3 c3. Keeps-Wrote w3 (lock-Keeps file) c3 λ _ w4 c4.
                  Wrote-bind (create_locked env path content full text)
                    (create_locked-Wrote w.writes (others w) w.looks env path content full text w4
                      c4)
                    λ _ w5 h. record {
                      holds =
                          let (file, before, once, over) = h in
                          (
                            success_result-succeeds path created,
                            (
                              replaced file before text,
                              once,
                              (
                                over,
                                ap
                                    (λ f.
                                      serialize_frontmatter env (with_id env new_id f) ++ content)
                                    c1.1,
                              ),
                            ),
                          );
                    })
