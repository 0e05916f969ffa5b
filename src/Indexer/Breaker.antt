-- ===== src/Indexer/Breaker.antt =====
-- The circuit breaker of src/vault_search/core/indexer.py: `_check_circuit_breaker` and
-- `reset_circuit_breaker`. Times are whole milliseconds.
use vault_search_mcp.Prelude.{
  ℕ, Bool, true, false, Option, none, some, List, [], ◌∷◌, ◌≡◌, ◌+◌, ◌-◌, ◌≤◌, if◌then◌else◌, refl,
  arith, leb, ltb, suc, nat_eq, string_eq, ◌==◌, min, inl, inr, Bool-cases, ◌∙◌,
}
use vault_search_mcp.Prelude.Text.{Text, text_eq}
use vault_search_mcp.Dict.{Dict, lookup, insert, remove}
use vault_search_mcp.Dict.Laws.{lookup-insert}

-- _CIRCUIT_BREAKER_MAX_ATTEMPTS and _CIRCUIT_BREAKER_WINDOW_SECONDS
abbrev pub max_attempts : ℕ
max_attempts = 3

abbrev pub window_ms : ℕ
window_ms = 60000

-- The count and the first time of each path.
abbrev pub Attempts : Type 0
Attempts = Dict Text (ℕ × ℕ)

unfoldable pub drop_expired : ℕ → Attempts → Attempts
drop_expired now [] = []
drop_expired now ((path, (count, first)) ∷ rest) =
    if ltb window_ms (now - first)
    then drop_expired now rest
    else (path, (count, first)) ∷ drop_expired now rest

-- The test of the current window.
unfoldable pub attempt : Text → ℕ → Attempts → Option (ℕ × ℕ) → Attempts × Bool
attempt path now attempts none = (insert path (1, now) attempts, false)
attempt path now attempts (some (count, first)) =
    if leb (now - first) window_ms
    then if leb max_attempts count
      then (attempts, true)
      else (insert path (count + 1, first) attempts, false)
    else (insert path (1, now) attempts, false)

-- True where the reindex is blocked.
unfoldable pub check_circuit_breaker : Text → ℕ → Attempts → Attempts × Bool
unfolding drop_expired attempt
check_circuit_breaker path now attempts =
    let live = drop_expired now attempts in attempt path now live (lookup path live)

unfoldable pub reset_circuit_breaker : Option Text → Attempts → Attempts
reset_circuit_breaker none attempts = []
reset_circuit_breaker (some path) attempts = remove path attempts

unfoldable pub admitted : Bool → ℕ
admitted true = 0
admitted false = 1

-- Checks of any paths at any times, one after another: how many of one path were let through.
unfoldable pub admissions : Text → List (Text × ℕ) → Attempts → ℕ
unfolding check_circuit_breaker admitted
admissions path [] attempts = 0
admissions path ((other, now) ∷ checks) attempts =
    let (after, blocked) = check_circuit_breaker other now attempts in
    let rest = admissions path checks after in
    if other == path then admitted blocked + rest else rest

-- How often a path is checked.
unfoldable pub checks_of : Text → List (Text × ℕ) → ℕ
checks_of path [] = 0
checks_of path ((other, now) ∷ checks) =
    if other == path then suc (checks_of path checks) else checks_of path checks

-- No check comes later than the window's end.
abbrev pub Within : ℕ → List (Text × ℕ) → Type 0
Within first [] = Unit {0}
Within first ((path, now) ∷ checks) = (now ≤ first + window_ms) × Within first checks

lookup-drop_expired :
    (path : Text) (now count first : ℕ) (attempts : Attempts)
    → now ≤ first + window_ms
    → lookup path attempts ≡ some (count, first)
    → lookup path (drop_expired now attempts) ≡ some (count, first)
unfolding lookup drop_expired
lookup-drop_expired path now count first [] w h = h
lookup-drop_expired path now count first ((other, (c, f)) ∷ rest) w h =
    ground (arith, lookup-drop_expired path now count first rest w, text_eq.beq_iff other path)

-- What a check within the window does to the path's entry.
abbrev Entry : Text → ℕ → ℕ → Attempts → Type 0
Entry path count first attempts = lookup path attempts ≡ some (count, first)

-- A check of the path itself: blocked from the third admission on.
check_self :
    (path : Text) (now count first : ℕ) (attempts : Attempts)
    → now ≤ first + window_ms
    → Entry path count first attempts
    → ((check_circuit_breaker path now attempts).1 ≡ leb max_attempts count)
      × Entry path
          (if leb max_attempts count then count else count + 1)
          first
          (check_circuit_breaker path now attempts).0
unfolding check_circuit_breaker
check_self path now count first attempts w h =
    rw (lookup-drop_expired path now count first attempts w h) (
      ground (
        arith,
        lookup-drop_expired path now count first attempts w h,
        lookup-insert path path (count + 1, first) (drop_expired now attempts),
        text_eq.beq_iff path path,
      ))

attempt_other :
    (path other : Text) (now : ℕ) (attempts : Attempts) (found : Option (ℕ × ℕ))
    → (other == path) ≡ false
    → lookup path (attempt other now attempts found).0 ≡ lookup path attempts
unfolding attempt
attempt_other path other now attempts none f =
    ground (arith, lookup-insert other path (1, now) attempts)
attempt_other path other now attempts (some (c, t)) f = ground (
  arith,
  lookup-insert other path (1, now) attempts,
  lookup-insert other path (c + 1, t) attempts,
)

check_other :
    (path other : Text) (now count first : ℕ) (attempts : Attempts)
    → now ≤ first + window_ms
    → (other == path) ≡ false
    → Entry path count first attempts
    → Entry path count first (check_circuit_breaker other now attempts).0
unfolding check_circuit_breaker
check_other path other now count first attempts w f h =
    attempt_other path other now (drop_expired now attempts)
      (lookup other (drop_expired now attempts)) f
    ∙ lookup-drop_expired path now count first attempts w h

admissions_self :
    (path : Text) (first count : ℕ) (checks : List (Text × ℕ)) (now : ℕ) (attempts : Attempts)
    → (check_circuit_breaker path now attempts).1 ≡ leb max_attempts count
    → admissions path checks (check_circuit_breaker path now attempts).0
      ≡ min
          (max_attempts - (if leb max_attempts count then count else count + 1))
          (checks_of path checks)
    → admitted (check_circuit_breaker path now attempts).1
        + admissions path checks (check_circuit_breaker path now attempts).0
      ≡ min (max_attempts - count) (suc (checks_of path checks))
unfolding admitted
admissions_self path first count checks now attempts e ih = rw (e, ih) (ground arith)

admissions_counted :
    (path : Text) (first count : ℕ) (checks : List (Text × ℕ)) (attempts : Attempts)
    → Within first checks
    → Entry path count first attempts
    → admissions path checks attempts ≡ min (max_attempts - count) (checks_of path checks)
unfolding admissions checks_of
admissions_counted path first count [] attempts w h = omega arith
admissions_counted path first count ((other, now) ∷ checks) attempts w h =
    elim (Bool-cases (other == path)) [
      | inl same ↦
          rw ((text_eq.beq_iff other path).0 same, (text_eq.beq_iff path path).1 refl)
            (admissions_self path first count checks now attempts
              (check_self path now count first attempts w.0 h).0
              (admissions_counted path first (if leb max_attempts count then count else count + 1)
                checks (check_circuit_breaker path now attempts).0 w.1
                (check_self path now count first attempts w.0 h).1))
      | inr different ↦ rw different (
          admissions_counted path first count checks (check_circuit_breaker other now attempts).0
            w.1 (check_other path other now count first attempts w.0 different h))
    ]

-- From a first check of a path that finds no live entry, and up to the window's end, three checks of
-- the path are let through, or all if there are fewer, whatever other paths are checked in between.
pub admissions-check_circuit_breaker :
    (path : Text) (first : ℕ) (checks : List (Text × ℕ)) (attempts : Attempts)
    → lookup path (drop_expired first attempts) ≡ none
    → Within first checks
    → admissions path ((path, first) ∷ checks) attempts
      ≡ min max_attempts (suc (checks_of path checks))
unfolding admissions check_circuit_breaker attempt admitted
admissions-check_circuit_breaker path first checks attempts h w =
    rw (h, attempt, (text_eq.beq_iff path path).1 refl)
      (ground (
        arith,
        admissions_counted path first 1 checks
            (insert path (1, first) (drop_expired first attempts)) w,
        lookup-insert path path (1, first) (drop_expired first attempts),
        text_eq.beq_iff path path,
      ))
