-- ===== src/ReindexQueue/Invariant.antt =====
-- The invariant of the queue, kept by every step of every thread.
use text.Mathlib.TextEquality.{eq_iff}
use vault_search_mcp.Prelude.{
  ℕ, List, Option, String, [], arith, false, if◌then◌else◌, length, none, refl, some, suc, true,
  ◌++◌, ◌+◌, ◌<◌, ◌==◌, ◌∷◌, ◌≡◌, ◌≤◌, nat_eq, string_eq, ◌≢◌, sym,
}
use vault_search_mcp.Dict.{Dict, Distinct, contains, lookup, insert}
use vault_search_mcp.Dict.Laws.{
  lookup-insert, contains-eq-lookup, contains-insert, insert-Distinct, length-insert,
}
use vault_search_mcp.ReindexQueue.Cases.{
  Started, admits, begins, coalesces, enqueue_key-cases, full, lives, turns_away,
}
use vault_search_mcp.ReindexQueue.{
  ReindexQueue, Worker, init, is_alive, observed, ran, taken, absent, exited, enqueue_key,
}

-- How often a key waits in the queue, and whether the worker holds it.
unfoldable pub count : String → List String → ℕ
count key [] = 0
count key (k ∷ ks) = if k == key then suc (count key ks) else count key ks

unfoldable pub holds : String → Worker → ℕ
holds key (taken k) = if k == key then 1 else 0
holds key (observed k v) = if k == key then 1 else 0
holds key (ran k v) = if k == key then 1 else 0
holds key _ = 0

abbrev pub AtMost : ℕ → Option ℕ → Type 0
AtMost v none = ⊥
AtMost v (some w) = v ≤ w

-- The version that the worker observed is not newer than the current one.
abbrev pub InFlight : Worker → Dict String ℕ → Type 0
InFlight (observed k v) d = AtMost v (lookup k d)
InFlight (ran k v) d = AtMost v (lookup k d)
InFlight _ d = Unit

pub record IsValid (q : ReindexQueue) : Type 0 where
  pub positive : 0 < q.max_pending
  pub distinct : Distinct q.versions
  pub bounded : length q.versions ≤ q.max_pending
  -- A pending key stands exactly once, in the queue or with the worker, and no other key does.
  pub once :
      (key : String)
      → count key q.queue + holds key q.worker ≡ (if contains key q.versions then 1 else 0)
  pub in_flight : InFlight q.worker q.versions
  -- Without a live worker nothing is pending.
  pub served : is_alive q.worker ≡ false → q.versions ≡ []
  pub stopping : q.stop ≡ true → q.accepting ≡ false

pub count-append :
    (key : String) (xs ys : List String) → count key (xs ++ ys) ≡ count key xs + count key ys
unfolding count
count-append key [] ys = omega arith
count-append key (k ∷ xs) ys = ground (arith, count-append key xs ys)

pub empty_of_not-contains : (d : Dict String ℕ) → ((key : String) → contains key d ≡ false) → d ≡ []
unfolding contains
empty_of_not-contains [] h = refl
empty_of_not-contains ((k, v) ∷ d) h = ground (arith, h k, eq_iff k k)

pub init-IsValid : (n : ℕ) → IsValid (init n)
unfolding init count holds contains is_alive
init-IsValid n = record {
  positive = omega arith;
  distinct = tt;
  bounded = omega arith;
  once = λ key. refl;
  in_flight = tt;
  served = λ _. refl;
  stopping = λ h. cc;
}

pub contains-eq-some :
    (key : String) (d : Dict String ℕ) {v : ℕ} → lookup key d ≡ some v → contains key d ≡ true
contains-eq-some key d h = ground (arith, contains-eq-lookup key d)

pub contains-eq-none :
    (key : String) (d : Dict String ℕ) → lookup key d ≡ none → contains key d ≡ false
contains-eq-none key d h = ground (arith, contains-eq-lookup key d)

holds_of_dead : (key : String) (w : Worker) → is_alive w ≡ false → holds key w ≡ 0
unfolding holds is_alive
holds_of_dead key absent h = refl
holds_of_dead key exited h = refl
holds_of_dead key _ h = cc

abbrev pub NotNewer : Option ℕ → ℕ → Type 0
NotNewer none n = Unit
NotNewer (some c) n = c ≤ n

InFlight-insert :
    (w : Worker) (key : String) (n : ℕ) (d : Dict String ℕ)
    → InFlight w d
    → NotNewer (lookup key d) n
    → InFlight w (insert key n d)
InFlight-insert (observed k v) key n d h m = ground (arith, lookup-insert key k n d, eq_iff key k)
InFlight-insert (ran k v) key n d h m = ground (arith, lookup-insert key k n d, eq_iff key k)
InFlight-insert _ key n d h m = tt

ne-nil_of_lookup : (key : String) (d : Dict String ℕ) {v : ℕ} → lookup key d ≡ some v → d ≢ []
unfolding lookup
ne-nil_of_lookup key [] h e = cc
ne-nil_of_lookup key (x ∷ d) h e = cc

started-is_alive : {v w : Worker} → Started v w → is_alive w ≡ true
unfolding is_alive
started-is_alive (lives a e) = rw e a
started-is_alive (begins d e) = rw e refl

started-holds : {v w : Worker} → Started v w → (key : String) → holds key w ≡ holds key v
unfolding holds
started-holds (lives a e) key = rw e refl
started-holds {v} (begins d e) key = rw e (sym (holds_of_dead key v d))

started-InFlight : {v w : Worker} (d : Dict String ℕ) → Started v w → InFlight v d → InFlight w d
started-InFlight d (lives a e) h = rw e h
started-InFlight d (begins a e) h = rw e tt

-- An accepted key in the queue's place, with a live worker.
module _ (key : String) (q : ReindexQueue) (v : IsValid q) where
  coalesce-IsValid :
      (c : ℕ)
      → lookup key q.versions ≡ some c
      → IsValid (record q { versions = insert key (c + 1) q.versions })
  coalesce-IsValid c e = record {
    positive = v.positive;
    distinct = insert-Distinct key (c + 1) q.versions v.distinct;
    bounded =
        ground (
          arith,
          length-insert key (c + 1) q.versions,
          contains-eq-some key q.versions e,
          v.bounded,
        );
    once = λ j. ground (
      arith,
      contains-insert key j (c + 1) q.versions,
      contains-eq-some key q.versions e,
      eq_iff key j,
      v.once j,
    );
    in_flight = InFlight-insert q.worker key (c + 1) q.versions v.in_flight (rw e (omega arith));
    served = λ dead. absurd (ne-nil_of_lookup key q.versions e (v.served dead));
    stopping = v.stopping;
  }

  admit-IsValid :
      (w : Worker)
      → lookup key q.versions ≡ none
      → length q.versions < q.max_pending
      → is_alive w ≡ true
      → ((j : String) → holds j w ≡ holds j q.worker)
      → InFlight w q.versions
      → IsValid
          (record q { versions = insert key 1 q.versions; queue = q.queue ++ key ∷ []; worker = w })
  unfolding count
  admit-IsValid w e room live same flight = record {
    positive = v.positive;
    distinct = insert-Distinct key 1 q.versions v.distinct;
    bounded = ground (arith, length-insert key 1 q.versions, contains-eq-none key q.versions e);
    once = λ j. ground (
      arith,
      contains-insert key j 1 q.versions,
      contains-eq-none key q.versions e,
      count-append j q.queue (key ∷ []),
      eq_iff key j,
      v.once j,
      same j,
    );
    in_flight = InFlight-insert w key 1 q.versions flight (rw e tt);
    served = λ dead. cc;
    stopping = v.stopping;
  }

  -- Every answer of `_enqueue_key` keeps the invariant.
  pub enqueue_key-IsValid : IsValid (enqueue_key key q).0
  unfolding is_alive
  enqueue_key-IsValid = elim (enqueue_key-cases key q) [
    | turns_away _ e ↦ rw e v
    | coalesces c _ found e ↦ rw e (coalesce-IsValid c found)
    | full _ _ _ e ↦ rw e v
    | admits w _ unknown room kept e ↦ rw e (
        admit-IsValid w unknown room (started-is_alive kept) (started-holds kept)
          (started-InFlight q.versions kept v.in_flight))
  ]
