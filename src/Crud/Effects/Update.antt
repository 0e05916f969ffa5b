-- ===== src/Crud/Effects/Update.antt =====
-- What `update_frontmatter` does to the notes.
use vault_search_mcp.Prelude.{
  [], List, Bool, ◌≡◌, refl, true, false, ap, if◌then◌else◌, none, some, ◌++◌, ◌∷◌,
}
use vault_search_mcp.Prelude.Text.{Text}
use vault_search_mcp.Crud.World.{
  Look, read_as, World, Frontmatter, Write, frontmatter_merged, frontmatter_replaced,
  validation_failed,
}
use vault_search_mcp.Crud.Env.{Env, serialize_frontmatter, validate_frontmatter_size}
use vault_search_mcp.Crud.Frontmatter.{update_frontmatter, merged, update_body, validated}
use vault_search_mcp.Crud.Write.{read_stable}
use vault_search_mcp.Crud.Ends.{Others, others, Calm, Ends, lock-Keeps, require-Keeps}
use vault_search_mcp.Crud.Ends.Reading.{
  error_result-fails, read_stable-Ends, validate_for_write-Keeps,
}
use vault_search_mcp.Crud.Ends.Writing.{Ends-Wrote, Keeps-Wrote}
use vault_search_mcp.Crud.Effects.{
  Effect, Rewrites, finish-Wrote, if-Ends, return-Effect, success_result-succeeds,
}

-- The frontmatter that is written, from the one that was read.
abbrev pub new_frontmatter : Env → Frontmatter → Bool → Bool → Frontmatter → Frontmatter
new_frontmatter env metadata merge false existing =
    if merge then merged existing metadata else metadata
new_frontmatter env metadata merge true existing =
    (env.validate (if merge then merged existing metadata else metadata)).validated_data

validated-Ends :
    {ws : List Write} {rs : Others} {ds : List Look} (env : Env) (b : Bool) (path : Text)
    (metadata existing : Frontmatter) (merge : Bool) (w : World)
    → Calm ws rs ds w
    → Ends ws
        (λ p w'. Calm ws rs ds w' × (p.0 ≡ new_frontmatter env metadata merge b existing))
        (validated env b path (if merge then merged existing metadata else metadata) w)
unfolding validated
validated-Ends env false path metadata existing merge w c = record { holds = (c, refl) }
validated-Ends env true path metadata existing merge w c =
    let v = env.validate (if merge then merged existing metadata else metadata) in
    if-Ends _ _ v.valid w (record { holds = (c, refl) })
      (record { holds = (c.0, error_result-fails path (validation_failed v.errors) none) })

-- `update_frontmatter` succeeds with one replacement of a file: the body of the text that it read
-- of that file, in its only look, is kept, and the frontmatter of that text is merged with, or
-- replaced by, the metadata, validated if asked for; or it fails or raises and writes nothing.
pub update_frontmatter-Effect :
    (env : Env) (path : Text) (w : World) (metadata : Frontmatter) (merge validate_schema : Bool)
    → Effect w
        (Rewrites w.looks (λ content t.
          t
          ≡ serialize_frontmatter env
              (new_frontmatter env metadata merge validate_schema (env.parse_frontmatter content).0)
            ++ (env.parse_frontmatter content).1))
        (update_frontmatter env path metadata merge validate_schema w)
unfolding update_frontmatter update_body validate_frontmatter_size
update_frontmatter-Effect env path w metadata merge validate_schema =
    return-Effect path w _ (update_body env path metadata merge validate_schema) (
      Keeps-Wrote w (validate_for_write-Keeps env path none (some metadata) true)
        (refl, (refl, ([], refl)), refl)
        λ file w1 c1. Keeps-Wrote w1 (lock-Keeps file) c1 λ _ w2 c2.
          Keeps-Wrote w2 (validate_for_write-Keeps env path none (some metadata) true) c2
            λ file w3 c3.
              Ends-Wrote (read_stable file path) (read_stable-Ends file path w3 c3) λ p w4 c4.
                let fields = (env.parse_frontmatter p.1).0 in
                let body = (env.parse_frontmatter p.1).1 in
                Ends-Wrote
                  (validated env validate_schema path
                    (if merge then merged fields metadata else metadata))
                  (validated-Ends env validate_schema path metadata fields merge w4 c4)
                  λ q w5 c5. Keeps-Wrote w5 (require-Keeps _) c5.0 λ _ w6 c6.
                    finish-Wrote (others w) (read_as file p.1 ∷ w.looks) file
                      (serialize_frontmatter env q.0 ++ body) (some p.0) path _ _ w6 c6
                      (λ _ _. (p.1, refl, ap (λ f. serialize_frontmatter env f ++ body) c5.1))
                      (success_result-succeeds path
                        (if merge then frontmatter_merged else frontmatter_replaced)))
