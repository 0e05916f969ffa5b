-- ===== src/Crud/Ends/Writing.antt =====
-- `safe_write_text` replaces the file once, over the revision that was expected.
use vault_search_mcp.Prelude.{
  List, String, Option, Bool, [], ◌∷◌, ◌≡◌, refl, true, false, if◌then◌else◌, sym, ◌∙◌, nat_eq,
  string_eq, ap, none,
}
use vault_search_mcp.Prelude.Result.{
  value_error, key_error, os_error, unicode_decode_error, write_lock_timeout,
}
use vault_search_mcp.Prelude.Text.{Text}
use vault_search_mcp.Dict.{lookup}
use vault_search_mcp.Crud.World.{
  Look, World, File, FileRevision, Files, Io, OperationResult, Write, bail, pure, replaced,
  same_found, same_found_eq, ◌>>=◌, Event, Fault, Outcome, continue, error_result, failing, fine,
  outside, outside_vault, raised, returned, value, write_conflict, write_failed,
}
use vault_search_mcp.Crud.Calls.{revision_at, call_now, end_call, file_revision, step_now}
use vault_search_mcp.Crud.Files.{
  safe_write_text, check_unchanged, mode_of, previous_mode, race, set_mode, write_temp, put_file,
  replace, write_body, write_failure,
}
use vault_search_mcp.Crud.Ends.{
  Others, Calm, Ends, Keeps, Keeps-bind, call-Keeps, file_revision-Ends, require-Keeps,
  resolve_call-Keeps, Ends-bind,
}
use vault_search_mcp.Crud.Ends.Reading.{error_result-fails}

-- Unless another process got in between, what was replaced is the revision that was expected.
abbrev pub Over : List (Files → Files) → Option FileRevision → Option File → Type 0
Over [] expected before = revision_at before ≡ expected
Over (_ ∷ _) expected before = Unit

-- One file was replaced, by this text, and nothing else was written or looked at.
pub record Replaced (ws : List Write) (rs : Others) (ds : List Look) (file : String)
    (content : Text) (expected : Option FileRevision) (w : World) : Type 0 where
  pub before : Option File
  pub once : w.writes ≡ replaced file before content ∷ ws
  pub over : Over rs.races expected before
  pub looks : w.looks ≡ ds

-- As `End`, once the races are used up.
abbrev pub WriteEnd : List Write → {A : Type 0} → (A → World → Type 0) → World × Outcome A → Type 0
WriteEnd ws V (w, value a) = V a w
WriteEnd ws V (w, returned r) = (w.writes ≡ ws) × (r.success ≡ false)
WriteEnd ws V (w, raised e) = w.writes ≡ ws

pub record Wrote (ws : List Write) {A : Type 0} (V : A → World → Type 0) (r : World × Outcome A)
    : Type 0 where
  pub holds : WriteEnd ws V r

module _ {ws : List Write} {A B : Type 0} where
  End-Wrote :
      (V : A → World → Type 0) (U : B → World → Type 0) (f : A → Io B) (w : World) (o : Outcome A)
      → Ends ws V (w, o)
      → ((a : A) (w' : World) → V a w' → Wrote ws U (f a w'))
      → Wrote ws U (continue f w o)
  End-Wrote V U f w (value a) h k = k a w h.holds
  End-Wrote V U f w (returned r) h k = record { holds = h.holds }
  End-Wrote V U f w (raised e) h k = record { holds = h.holds }

  pub Ends-Wrote :
      {V : A → World → Type 0} {U : B → World → Type 0} (m : Io A) {f : A → Io B} {w : World}
      → Ends ws V (m w)
      → ((a : A) (w' : World) → V a w' → Wrote ws U (f a w'))
      → Wrote ws U ((m >>= f) w)
  unfolding ◌>>=◌
  Ends-Wrote {V = V} {U = U} m {f = f} {w = w} h k = End-Wrote V U f (m w).0 (m w).1 h k

module _ {ws : List Write} {rs : Others} {ds : List Look} {A B : Type 0} where
  -- After steps that keep the history.
  pub Keeps-Wrote :
      {U : B → World → Type 0} {m : Io A} {f : A → Io B} (w : World)
      → Keeps ws rs ds m
      → Calm ws rs ds w
      → ((a : A) (w' : World) → Calm ws rs ds w' → Wrote ws U (f a w'))
      → Wrote ws U ((m >>= f) w)
  Keeps-Wrote {m = m} w h c k =
      Ends-Wrote {V = λ _ w'. Calm ws rs ds w'} m (record { holds = h.run w c }) k

module _ {ws : List Write} {A B : Type 0} where
  Wrote-continue :
      (V : A → World → Type 0) (U : B → World → Type 0) (f : A → Io B) (w : World) (o : Outcome A)
      → Wrote ws V (w, o)
      → ((a : A) (w' : World) → V a w' → Wrote ws U (f a w'))
      → Wrote ws U (continue f w o)
  Wrote-continue V U f w (value a) h k = k a w h.holds
  Wrote-continue V U f w (returned r) h k = record { holds = h.holds }
  Wrote-continue V U f w (raised e) h k = record { holds = h.holds }

  pub Wrote-bind :
      {V : A → World → Type 0} {U : B → World → Type 0} (m : Io A) {f : A → Io B} {w : World}
      → Wrote ws V (m w)
      → ((a : A) (w' : World) → V a w' → Wrote ws U (f a w'))
      → Wrote ws U ((m >>= f) w)
  unfolding ◌>>=◌
  Wrote-bind {V = V} {U = U} m {f = f} {w = w} h k = Wrote-continue V U f (m w).0 (m w).1 h k

WriteEnd-map :
    {A : Type 0} (ws : List Write) (V U : A → World → Type 0) (w : World) (o : Outcome A)
    → WriteEnd ws V (w, o)
    → ((a : A) (w' : World) → V a w' → U a w')
    → WriteEnd ws U (w, o)
WriteEnd-map ws V U w (value a) h k = k a w h
WriteEnd-map ws V U w (returned r) h k = h
WriteEnd-map ws V U w (raised e) h k = h

pub Wrote-map :
    {A : Type 0} {ws : List Write} {V U : A → World → Type 0} {r : World × Outcome A}
    → Wrote ws V r
    → ((a : A) (w' : World) → V a w' → U a w')
    → Wrote ws U r
Wrote-map {ws = ws} {V = V} {U = U} {r = r} h k = record {
  holds = WriteEnd-map ws V U r.0 r.1 h.holds k;
}

module _ {ws : List Write} {rs : Others} {ds : List Look} where
  mode_of-Keeps : (b : Bool) → Keeps ws rs ds (mode_of b)
  unfolding mode_of
  mode_of-Keeps false = record { run = λ w c. c }
  mode_of-Keeps true =
      Keeps-bind resolve_call-Keeps λ _. Keeps-bind call-Keeps λ _. record { run = λ w c. c }

  previous_mode-Keeps : (file : String) → Keeps ws rs ds (previous_mode file)
  unfolding previous_mode
  previous_mode-Keeps file =
      Keeps-bind call-Keeps λ _. Keeps-bind (record { run = λ w c. c }) λ found. mode_of-Keeps found

  write_temp-Keeps : (content : Text) → Keeps ws rs ds (write_temp content)
  unfolding write_temp
  write_temp-Keeps content =
      Keeps-bind (require-Keeps _) λ _. Keeps-bind call-Keeps λ _. record { run = λ w c. c }

  set_mode-Keeps : (b : Bool) → Keeps ws rs ds (set_mode b)
  unfolding set_mode
  set_mode-Keeps false = record { run = λ w c. c }
  set_mode-Keeps true = Keeps-bind call-Keeps λ _. record { run = λ w c. c }

module _ (ws : List Write) (rs : Others) (ds : List Look) where
  abbrev pub Expected : String → Option FileRevision → World → Type 0
  Expected file expected w = Calm ws rs ds w × (revision_at (lookup file w.files) ≡ expected)

  same-End :
      (file : String) (expected now : Option FileRevision) (r : OperationResult) (w : World)
      → r.success ≡ false
      → Expected file now w
      → (b : Bool) → same_found now expected ≡ b
      → let m : Io Unit = if b then pure tt else bail r in
        Ends ws (λ _ w'. Expected file expected w') (m w)
  same-End file expected now r w f (c, e) true h = record {
    holds = (c, e ∙ same_found_eq now expected h);
  }
  same-End file expected now r w f (c, e) false h = record { holds = (c.0, f) }

  check-Ends :
      (file : String) (expected : Option FileRevision) (path : Text) (w : World)
      → Calm ws rs ds w
      → Ends ws (λ _ w'. Expected file expected w') (check_unchanged true file expected path w)
  unfolding check_unchanged
  check-Ends file expected path w c =
      Ends-bind (file_revision file) (file_revision-Ends file w c) λ now w' h.
        same-End file expected now (error_result path write_conflict none) w'
          (error_result-fails path write_conflict none) h (same_found now expected) refl

pub race-Over :
    (races : List (Files → Files)) (file : String) (expected : Option FileRevision) (w : World)
    → revision_at (lookup file w.files) ≡ expected
    → Over races expected (lookup file (race races w).files)
unfolding race
race-Over [] file expected w h = h
race-Over (change ∷ races) file expected w h = tt

pub race-looks : (races : List (Files → Files)) (w : World) → (race races w).looks ≡ w.looks
unfolding race
race-looks [] w = refl
race-looks (change ∷ races) w = refl

pub race-writes : (races : List (Files → Files)) (w : World) → (race races w).writes ≡ w.writes
unfolding race
race-writes [] w = refl
race-writes (change ∷ races) w = refl

module _ (ws : List Write) (rs : Others) (ds : List Look) (file : String) (content : Text)
    (expected : Option FileRevision) where
  abbrev Done : Unit {0} → World → Type 0
  Done _ w = Replaced ws rs ds file content expected w

  put_call : FileRevision → Io Unit
  unfolding put_file
  put_call stamp w = (put_file file content stamp w, value tt)

  end_now :
      (w : World)
      → (w.writes ≡ ws) × (w.looks ≡ ds)
      → Over rs.races expected (lookup file w.files)
      → (fault : Fault) (stamp : FileRevision)
      → Wrote ws Done (continue put_call (end_call fault stamp w).0 (end_call fault stamp w).1)
  unfolding end_call put_call
  end_now w c h fine stamp = record {
    holds = record {
      before = lookup file w.files;
      once = ap (◌∷◌ (replaced file (lookup file w.files) content)) c.0;
      over = h;
      looks = c.1;
    };
  }
  end_now w c h outside stamp = record {
    holds = record {
      before = lookup file w.files;
      once = ap (◌∷◌ (replaced file (lookup file w.files) content)) c.0;
      over = h;
      looks = c.1;
    };
  }
  end_now w c h failing stamp = record { holds = c.0 }

  call_now-Wrote :
      (es : List Event) (w : World)
      → (w.writes ≡ ws) × (w.looks ≡ ds)
      → Over rs.races expected (lookup file w.files)
      → let (after, e) = step_now es w in
        let done = end_call e.fault e.stamp after in Wrote ws Done (continue put_call done.0 done.1)
  unfolding step_now
  call_now-Wrote [] w c h = end_now w c h _ _
  call_now-Wrote (e ∷ es) w c h = end_now (record w { events = es }) c h e.fault e.stamp

  replace-Wrote :
      (w : World) → Expected ws rs ds file expected w → Wrote ws Done (replace file content w)
  unfolding replace call_now ◌>>=◌ put_call
  replace-Wrote w ((c, r, l), h) =
      call_now-Wrote (race w.races w).events (race w.races w)
        (race-writes w.races w ∙ c, race-looks w.races w ∙ l)
        (rw (sym r.0) (race-Over w.races file expected w h))

  body-Wrote :
      (path : Text) (w : World)
      → Calm ws rs ds w
      → Wrote ws Done (write_body true file content expected path w)
  unfolding write_body
  body-Wrote path w c = Keeps-Wrote _ resolve_call-Keeps c λ _ w c.
      Keeps-Wrote _ (previous_mode-Keeps file) c λ mode w c.
        Keeps-Wrote _ (write_temp-Keeps content) c λ _ w c.
          Keeps-Wrote _ (set_mode-Keeps mode) c λ _ w c.
            Ends-Wrote (check_unchanged true file expected path)
              (check-Ends ws rs ds file expected path w c) λ _ w h. replace-Wrote w h

  write_failure-Wrote :
      (path : Text) (w : World) (o : Outcome Unit)
      → Wrote ws Done (w, o)
      → Wrote ws Done (write_failure path w o)
  unfolding write_failure
  write_failure-Wrote path w (value t) h = h
  write_failure-Wrote path w (returned r) h = h
  write_failure-Wrote path w (raised os_error) h = record {
    holds = (h.holds, error_result-fails path write_failed none);
  }
  write_failure-Wrote path w (raised value_error) h = record {
    holds = (h.holds, error_result-fails path outside_vault none);
  }
  write_failure-Wrote path w (raised unicode_decode_error) h = h
  write_failure-Wrote path w (raised key_error) h = h
  write_failure-Wrote path w (raised write_lock_timeout) h = h

  pub safe_write_text-Wrote :
      (path : Text) (w : World)
      → Calm ws rs ds w
      → Wrote ws Done (safe_write_text true file content expected path w)
  unfolding safe_write_text
  safe_write_text-Wrote path w c = write_failure-Wrote path _ _ (body-Wrote path w c)
