-- ===== src/Crud/Effects/Flagged.antt =====
-- Operations that may leave a note alone, and say so in their result.
use vault_search_mcp.Prelude.{
  List, Option, Bool, ◌∷◌, ◌≡◌, refl, true, false, some, inl, inr, ◌⊎◌, nat_eq, string_eq,
}
use vault_search_mcp.Prelude.Result.{
  os_error, value_error, key_error, unicode_decode_error, write_lock_timeout,
}
use vault_search_mcp.Prelude.Text.{Text}
use vault_search_mcp.Crud.World.{
  Look, World, ◌>>=◌, OperationResult, Outcome, Write, lock_timeout, raised, returned, value, pure,
}
use vault_search_mcp.Crud.Calls.{timeout_result}
use vault_search_mcp.Crud.Env.{Env}
use vault_search_mcp.Crud.Frontmatter.{mark_ignored}
use vault_search_mcp.Crud.Ends.Reading.{error_result-fails}
use vault_search_mcp.Crud.Effects.{succeeded, Wrote}

-- `some true` of a flag in a result.
abbrev pub is_on : Option Bool → Bool
is_on (some true) = true
is_on _ = false

-- The operation failed and wrote nothing, or it left the note alone, or it wrote once, as described
-- by all looks at files and the write; the flag of the result says which of the last two.
pub data Flagged (flag : OperationResult → Option Bool) (w : World) (P : List Look → Write → Type 0)
    (r : World × Outcome OperationResult) : Type 0 where
  nothing : succeeded r.1 ≡ false → r.0.writes ≡ w.writes → Flagged flag w P r
  untouched :
      (result : OperationResult)
      → r.1 ≡ value result
      → is_on (flag result) ≡ false
      → r.0.writes ≡ w.writes
      → Flagged flag w P r
  written :
      (result : OperationResult) (x : Write)
      → r.1 ≡ value result
      → is_on (flag result) ≡ true
      → r.0.writes ≡ x ∷ w.writes
      → P r.0.looks x
      → Flagged flag w P r

abbrev pub FlaggedEnd :
    (OperationResult → Option Bool)
    → List Write
    → (List Look → Write → Type 0)
    → OperationResult
    → World
    → Type 0
FlaggedEnd flag ws P r w =
    ((is_on (flag r) ≡ false) × (w.writes ≡ ws))
    ⊎ ((x : Write) × (is_on (flag r) ≡ true) × (w.writes ≡ x ∷ ws) × P w.looks x)

pub timeout-Flagged :
    (flag : OperationResult → Option Bool) (path : Text) (w : World)
    (P : List Look → Write → Type 0) (after : World) (o : Outcome OperationResult)
    → Wrote w.writes (FlaggedEnd flag w.writes P) (after, o)
    → Flagged flag w P (timeout_result path after o)
unfolding timeout_result succeeded
timeout-Flagged flag path w P after (value r) h = elim h.holds [
  | inl (a, e) ↦ untouched r refl a e
  | inr (x, a, e, p) ↦ written r x refl a e p
]
timeout-Flagged flag path w P after (returned r) h = nothing h.holds.1 h.holds.0
timeout-Flagged flag path w P after (raised os_error) h = nothing refl h.holds
timeout-Flagged flag path w P after (raised value_error) h = nothing refl h.holds
timeout-Flagged flag path w P after (raised unicode_decode_error) h = nothing refl h.holds
timeout-Flagged flag path w P after (raised key_error) h = nothing refl h.holds
timeout-Flagged flag path w P after (raised write_lock_timeout) h =
    nothing (error_result-fails path lock_timeout (some "write_lock_timeout")) h.holds

pub marked-Wrote :
    (ws : List Write) (env : Env) (path : Text) (V : OperationResult → World → Type 0)
    (r : OperationResult) (w : World)
    → V r (record w { ignored = path ∷ w.ignored })
    → Wrote ws V ((mark_ignored env path >>= λ _. pure r) w)
unfolding mark_ignored ◌>>=◌
marked-Wrote ws env path V r w h = record { holds = h }
