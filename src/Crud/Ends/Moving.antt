-- ===== src/Crud/Ends/Moving.antt =====
-- A move happens once, over what was at the target.
use vault_search_mcp.Prelude.{
  List, String, Option, [], ap, false, none, some, sym, ◌∙◌, ◌∷◌, ◌≡◌, nat_eq, string_eq,
}
use vault_search_mcp.Prelude.Result.{
  os_error, value_error, key_error, unicode_decode_error, write_lock_timeout,
}
use vault_search_mcp.Dict.{lookup}
use vault_search_mcp.Crud.World.{
  Look, World, ◌>>=◌, Event, Fault, File, FileRevision, Io, OperationResult, Outcome, Write,
  continue, failing, fine, outside, raised, relocated, returned, value,
}
use vault_search_mcp.Crud.Calls.{call_now, end_call, step_now}
use vault_search_mcp.Crud.Files.{race}
use vault_search_mcp.Crud.Delete.{move_or, move_failure, move_file, move_found}
use vault_search_mcp.Crud.Ends.{Others}
use vault_search_mcp.Crud.Ends.Writing.{Over, Expected, race-Over, race-looks, race-writes, Wrote}

module _ (ws : List Write) (rs : Others) (ds : List Look) (source target : String)
    (expected : Option FileRevision) where
  abbrev pub Moved : Unit {0} → World → Type 0
  Moved _ w =
      (over : Option File) × (w.writes ≡ relocated source target over ∷ ws)
      × Over rs.races expected over
      × (w.looks ≡ ds)

  found-Wrote :
      (found : Option File) (w : World)
      → (w.writes ≡ ws) × (w.looks ≡ ds)
      → Over rs.races expected (lookup target w.files)
      → Wrote ws Moved (move_found source target found w)
  unfolding move_found
  found-Wrote none w c h = record { holds = c.0 }
  found-Wrote (some file) w c h = record {
    holds = (
      lookup target w.files,
      ap (◌∷◌ (relocated source target (lookup target w.files))) c.0,
      h,
      c.1,
    );
  }

  move_call : FileRevision → Io Unit
  move_call _ w = move_found source target (lookup source w.files) w

  end_now :
      (w : World)
      → (w.writes ≡ ws) × (w.looks ≡ ds)
      → Over rs.races expected (lookup target w.files)
      → (fault : Fault) (stamp : FileRevision)
      → Wrote ws Moved (continue move_call (end_call fault stamp w).0 (end_call fault stamp w).1)
  unfolding end_call move_call
  end_now w c h fine stamp = found-Wrote (lookup source w.files) w c h
  end_now w c h outside stamp = found-Wrote (lookup source w.files) w c h
  end_now w c h failing stamp = record { holds = c.0 }

  call_now-Wrote :
      (es : List Event) (w : World)
      → (w.writes ≡ ws) × (w.looks ≡ ds)
      → Over rs.races expected (lookup target w.files)
      → let (after, e) = step_now es w in
        let done = end_call e.fault e.stamp after in
        Wrote ws Moved (continue move_call done.0 done.1)
  unfolding step_now
  call_now-Wrote [] w c h = end_now w c h _ _
  call_now-Wrote (e ∷ es) w c h = end_now (record w { events = es }) c h e.fault e.stamp

  move_file-Wrote :
      (w : World) → Expected ws rs ds target expected w → Wrote ws Moved (move_file source target w)
  unfolding move_file call_now ◌>>=◌ move_call
  move_file-Wrote w ((c, r, l), h) =
      call_now-Wrote (race w.races w).events (race w.races w)
        (race-writes w.races w ∙ c, race-looks w.races w ∙ l)
        (rw (sym r.0) (race-Over w.races target expected w h))

  move_failure-Wrote :
      (r : OperationResult) (w : World) (o : Outcome Unit)
      → r.success ≡ false
      → Wrote ws Moved (w, o)
      → Wrote ws Moved (move_failure r w o)
  unfolding move_failure
  move_failure-Wrote r w (value t) e h = h
  move_failure-Wrote r w (returned s) e h = h
  move_failure-Wrote r w (raised os_error) e h = record { holds = (h.holds, e) }
  move_failure-Wrote r w (raised value_error) e h = h
  move_failure-Wrote r w (raised unicode_decode_error) e h = h
  move_failure-Wrote r w (raised key_error) e h = h
  move_failure-Wrote r w (raised write_lock_timeout) e h = h

  pub move_or-Wrote :
      (r : OperationResult) (w : World)
      → r.success ≡ false
      → Expected ws rs ds target expected w
      → Wrote ws Moved (move_or r source target w)
  unfolding move_or
  move_or-Wrote r w e h = move_failure-Wrote r _ _ e (move_file-Wrote w h)
