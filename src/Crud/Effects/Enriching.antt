-- ===== src/Crud/Effects/Enriching.antt =====
-- What `enrich_note_frontmatter_required` does to the fields that a note has.
use text.Mathlib.TextEquality.{eq_iff}
use vault_search_mcp.Prelude.{
  Bool-cases, ap, List, String, [], ◌∷◌, ◌≡◌, refl, false, none, arith, ◌∙◌, string_eq, nat_eq,
  Bool, if◌then◌else◌, inl, inr, leb, length, not, some, true, ℕ, ◌++◌,
}
use vault_search_mcp.Prelude.Text.{Text, ends_md, codes}
use vault_search_mcp.Crud.Calls.{return_write_lock_timeout}
use vault_search_mcp.Crud.Files.{safe_write_text}
use vault_search_mcp.Crud.Ends.{Others, others, Ends, Calm, lock-Keeps, require-Keeps}
use vault_search_mcp.Crud.Ends.Reading.{
  error_result-fails, read_stable-Ends, Read, resolve_path-Keeps,
}
use vault_search_mcp.Crud.Ends.Writing.{
  Wrote, Ends-Wrote, Keeps-Wrote, Wrote-bind, safe_write_text-Wrote,
}
use vault_search_mcp.Crud.Effects.{if-Ends}
use vault_search_mcp.Crud.Write.{read_stable}
use vault_search_mcp.Crud.Effects.Flagged.{
  Flagged, FlaggedEnd, is_on, marked-Wrote, timeout-Flagged,
}
use vault_search_mcp.Dict.{lookup, insert}
use vault_search_mcp.Dict.Laws.{lookup-insert}
use vault_search_mcp.Crud.World.{
  Look, read_as, relocated, Frontmatter, FileRevision, Io, Message, OperationResult, World, Write,
  fields_not_returned, filled_manually, no_required_fields, nothing_missing, provider_failed, pure,
  replaced, schema_disabled, success_result, unsupported_extension, validation_failed,
}
use vault_search_mcp.Crud.Env.{
  is_member, Env, serialize_frontmatter, validate_content_size, validate_frontmatter_size,
}
use vault_search_mcp.Crud.Frontmatter.{merged}
use vault_search_mcp.Crud.Enrich.{
  missing_fields, select_fields, is_field_missing_or_empty, Generated, enrich_found, enrich_missing,
  enrich_note_frontmatter_required, enriched_result, fields_or_bail, format_frontmatter_errors,
  generated, mentions, persist_generated_frontmatter, provider_error, validate_enriched,
  write_enriched, write_missing,
}

-- Fields without the key keep what was there.
lookup-merged_absent :
    (k : String) (old new : Frontmatter)
    → lookup k new ≡ none
    → lookup k (merged old new) ≡ lookup k old
unfolding merged lookup
lookup-merged_absent k old [] h = refl
lookup-merged_absent k old ((i, v) ∷ new) h =
    lookup-merged_absent k (insert i v old) new (ground arith)
    ∙ ground (arith, lookup-insert i k v old)

select_absent :
    (k : String) (names : List String) (fields : Frontmatter)
    → is_member k names ≡ false
    → lookup k (select_fields names fields) ≡ none
unfolding select_fields lookup
select_absent k names [] h = refl
select_absent k names ((i, v) ∷ fields) h = ground (arith, select_absent k names fields, eq_iff i k)

filled-missing_fields :
    (k : String) (fields : Frontmatter) (names : List String)
    → is_field_missing_or_empty fields k ≡ false
    → is_member k (missing_fields fields names) ≡ false
unfolding missing_fields is_member
filled-missing_fields k fields [] h = refl
filled-missing_fields k fields (i ∷ names) h =
    ground (arith, filled-missing_fields k fields names, eq_iff i k)

-- Merging what the provider returned into the frontmatter on disk, restricted to the required
-- fields that are missing there, never changes a field that is filled there.
pub lookup-enriched :
    (k : String) (disk provided : Frontmatter) (required : List String)
    → is_field_missing_or_empty disk k ≡ false
    → lookup k (merged disk (select_fields (missing_fields disk required) provided)) ≡ lookup k disk
lookup-enriched k disk provided required h =
    lookup-merged_absent k disk (select_fields (missing_fields disk required) provided) (
      select_absent k (missing_fields disk required) provided
        (filled-missing_fields k disk required h))

enriched_result-flag :
    (path : Text) (m : Message) (n : ℕ) → is_on (enriched_result path m false n).enriched ≡ false
unfolding enriched_result
enriched_result-flag path m n = refl

skipped-flag : (path : Text) (m : Message) → is_on (success_result path m).enriched ≡ false
unfolding success_result
skipped-flag path m = refl

-- The frontmatter that is written for the merged one: what the schema's validation makes of it, or
-- the merged one if it is not valid, or not validated.
abbrev enriched_fields : Env → Bool → Frontmatter → Frontmatter
enriched_fields env false full = full
enriched_fields env true full =
    if (env.validate full).valid then (env.validate full).validated_data else full

abbrev Provider : Type 0
Provider = Text → Frontmatter → List String → Generated

-- The file was read twice. The provider was asked about the first text, and what it returned was
-- merged into the frontmatter of the second, where a required field was missing; the body of the
-- second was kept.
abbrev pub Enriches :
    Env
    → (Text → Frontmatter → List String → Generated)
    → Bool
    → List Look
    → List Look
    → Write
    → Type 0
Enriches env provider b earlier looks (replaced file before text) =
    (first content : Text) × (fields : Frontmatter) × (looks
      ≡ read_as file content ∷ read_as file first ∷ earlier)
    × (provider (env.parse_frontmatter first).1 (env.parse_frontmatter first).0 env.required_fields
        ≡ generated fields)
    × (text
        ≡ serialize_frontmatter env (
            let disk = (env.parse_frontmatter content).0 in
            enriched_fields env b
              (merged disk (select_fields (missing_fields disk env.required_fields) fields)))
          ++ (env.parse_frontmatter content).1)
Enriches env provider b earlier looks (relocated source target over) = ⊥

validate_enriched-Ends :
    {ws : List Write} {rs : Others} {ds : List Look} (env : Env) (b : Bool) (path : Text)
    (fields : Frontmatter) (w : World)
    → Calm ws rs ds w
    → Ends ws
        (λ p w'. Calm ws rs ds w' × (p.0 ≡ enriched_fields env b fields))
        (validate_enriched env b path fields w)
unfolding validate_enriched
validate_enriched-Ends env false path fields w c = record { holds = (c, refl) }
validate_enriched-Ends env true path fields w c = elim (Bool-cases (env.validate fields).valid) [
  | inl valid ↦ rw valid (record { holds = (c, refl) })
  | inr not_valid ↦ rw not_valid (
      if-Ends _ _
        (mentions (codes "required") (format_frontmatter_errors (env.validate fields).errors)) w
        (record { holds = (c, refl) })
        (record {
          holds =
              (c.0, error_result-fails path (validation_failed (env.validate fields).errors) none);
        }))
]

fields_or_bail-Ends :
    {ws : List Write} {rs : Others} {ds : List Look} (path : Text) (g : Generated) (w : World)
    → Calm ws rs ds w
    → Ends ws (λ fields w'. Calm ws rs ds w' × (g ≡ generated fields)) (fields_or_bail path g w)
unfolding fields_or_bail
fields_or_bail-Ends path (generated fields) w c = record { holds = (c, refl) }
fields_or_bail-Ends path (provider_error m) w c = record {
  holds = (c.0, error_result-fails path (provider_failed m) none);
}

module _ (ws : List Write) (rs : Others) (ds : List Look) (env : Env) (provider : Provider)
    (b : Bool) where
  abbrev Done : OperationResult → World → Type 0
  Done = FlaggedEnd (λ r. r.enriched) ws (Enriches env provider b ds)

  if-Wrote :
      (m n : Io OperationResult) (test : Bool) (w : World)
      → Wrote ws Done (m w)
      → Wrote ws Done (n w)
      → Wrote ws Done ((if test then m else n) w)
  if-Wrote m n true w h k = h
  if-Wrote m n false w h k = k

  module _ (file : String) (path first : Text) (fields : Frontmatter)
      (asked : provider
          (env.parse_frontmatter first).1
          (env.parse_frontmatter first).0
          env.required_fields
        ≡ generated fields) where
    write_enriched-Wrote :
        (revision : FileRevision) (content : Text) (w : World)
        → Read ws rs (read_as file first ∷ ds) file content w
        → let disk = (env.parse_frontmatter content).0 in
          Wrote ws Done (
            write_enriched env b file path revision disk
              (env.parse_frontmatter content).1
              (select_fields (missing_fields disk env.required_fields) fields)
              w)
    unfolding write_enriched validate_frontmatter_size validate_content_size enriched_result
    write_enriched-Wrote revision content w c =
        let disk = (env.parse_frontmatter content).0 in
        let body = (env.parse_frontmatter content).1 in
        let full = merged disk (select_fields (missing_fields disk env.required_fields) fields) in
        Ends-Wrote (validate_enriched env b path full) (validate_enriched-Ends env b path full w c)
          λ p w1 (c1, e).
            let text = serialize_frontmatter env p.0 ++ body in
            Keeps-Wrote w1 (require-Keeps _) c1 λ _ w2 c2.
              Keeps-Wrote w2 (require-Keeps _) c2 λ _ w3 c3.
                Wrote-bind (safe_write_text true file text (some revision) path)
                  (safe_write_text-Wrote ws rs (read_as file content ∷ read_as file first ∷ ds) file
                    text (some revision) path w3 c3)
                  λ _ w4 done. marked-Wrote ws env path Done _ w4 (
                    inr (
                      replaced file done.before text,
                      refl,
                      done.once,
                      (
                        first,
                        content,
                        fields,
                        done.looks,
                        asked,
                        ap (λ f. serialize_frontmatter env f ++ body) e,
                      ),
                    ))

    persist-Wrote :
        (w : World)
        → Read ws rs ds file first w
        → Wrote ws Done (persist_generated_frontmatter env b file path fields w)
    unfolding persist_generated_frontmatter write_missing
    persist-Wrote w c = Keeps-Wrote w (lock-Keeps file) c λ _ w1 c1.
        Ends-Wrote (read_stable file path) (read_stable-Ends file path w1 c1) λ p w2 c2.
          let disk = (env.parse_frontmatter p.1).0 in
          let missing = missing_fields disk env.required_fields in
          if-Wrote _ _ (leb (length missing) 0) w2
            (record { holds = inl (enriched_result-flag path filled_manually 0, c2.0) })
            (if-Wrote _ _ (leb (length (select_fields missing fields)) 0) w2
              (record {
                holds =
                    (c2.0, error_result-fails path fields_not_returned (some "required_missing"));
              })
              (write_enriched-Wrote p.0 p.1 w2 c2))

  enrich_missing-Wrote :
      (file : String) (path first : Text) (w : World)
      → Read ws rs ds file first w
      → Wrote ws Done (
          enrich_missing env provider b file path
            (env.parse_frontmatter first).1
            (env.parse_frontmatter first).0
            w)
  unfolding enrich_missing
  enrich_missing-Wrote file path first w c =
      let (existing, body) = env.parse_frontmatter first in
      if-Wrote _ _ (not env.schema_enabled) w
        (record { holds = inl (enriched_result-flag path schema_disabled 0, c.0) })
        (if-Wrote _ _ (leb (length env.required_fields) 0) w
          (record { holds = inl (enriched_result-flag path no_required_fields 0, c.0) })
          (if-Wrote _ _ (leb (length (missing_fields existing env.required_fields)) 0) w
            (record { holds = inl (enriched_result-flag path nothing_missing 0, c.0) })
            (Ends-Wrote (fields_or_bail path (provider body existing env.required_fields))
              (fields_or_bail-Ends path (provider body existing env.required_fields) w c)
              λ fields w1 (c1, e). persist-Wrote file path first fields e w1 c1)))

  enrich_found-Wrote :
      (path : Text) (w : World)
      → Calm ws rs ds w
      → Wrote ws Done (enrich_found env provider b path w)
  unfolding enrich_found
  enrich_found-Wrote path w c = Keeps-Wrote w (resolve_path-Keeps env path) c λ file w1 c1.
      Keeps-Wrote w1 (lock-Keeps file) c1 λ _ w2 c2.
        Ends-Wrote (read_stable file path) (read_stable-Ends file path w2 c2)
          λ p w3 c3. enrich_missing-Wrote file path p.1 w3 c3

-- The enrichment leaves the note alone, or replaces a file once, or it fails or raises and writes
-- nothing, whatever the provider returns; the result says which. If it replaces the file, it read
-- it twice: the provider generated fields for the first text, and of these the required ones that
-- the second lacks, or has empty, are merged into its frontmatter, which is validated if asked for;
-- the body of the second text is kept.
pub enrich_note-Flagged :
    (env : Env) (path : Text) (w : World) (provider : Text → Frontmatter → List String → Generated)
    (validate_schema : Bool)
    → Flagged
        (λ r. r.enriched)
        w
        (Enriches env provider validate_schema w.looks)
        (enrich_note_frontmatter_required env provider validate_schema path w)
unfolding enrich_note_frontmatter_required return_write_lock_timeout
enrich_note-Flagged env path w provider b =
    let body : Io OperationResult =
      if ends_md path
      then enrich_found env provider b path
      else pure (success_result path unsupported_extension) in
    timeout-Flagged (λ r. r.enriched) path w (Enriches env provider b w.looks) (body w).0 (body w).1
      (if-Wrote w.writes (others w) w.looks env provider b (enrich_found env provider b path)
        (pure (success_result path unsupported_extension)) (ends_md path) w
        (enrich_found-Wrote w.writes (others w) w.looks env provider b path w
          (refl, (refl, ([], refl)), refl))
        (record { holds = inl (skipped-flag path unsupported_extension, refl) }))
