-- ===== src/Indexer/Rules.antt =====
-- Rules for the indexer's calls of the database: what holds behind a call that returns, and behind
-- one that raises.
use vault_search_mcp.Prelude.{
  Bool, ◌∙◌, true, false, Option, none, some, List, [], ◌∷◌, ◌++◌, ◌≡◌, ◌↔◌, if◌then◌else◌, refl,
  arith, nat_eq, string_eq,
}
use vault_search_mcp.Prelude.Text.{Text, text_eq, text_beq_iff}
use vault_search_mcp.Indexer.Database.{
  Lance, IsLawful, Table, Kind, Row, Call, canonical, staging, chunks, links, aliases, same_table,
  same_kind, without, effect, note_of,
}
use vault_search_mcp.Indexer.State.{call, done, Indexer, Io, continue}

-- `Q` where the block returns, `E` where it raises.
abbrev pub Ensures {ℓ} :
    {L : Lance} {A : Type ℓ}
    → (Indexer L → Type 0)
    → (A → Indexer L → Type 0)
    → Indexer L × Option A
    → Type 0
Ensures E Q (s, none) = E s
Ensures E Q (s, some a) = Q a s

pub Ensures-continue {ℓ κ} :
    {L : Lance} {A : Type ℓ} {B : Type κ} (E : Indexer L → Type 0) (Q : A → Indexer L → Type 0)
    (R : B → Indexer L → Type 0) (r : Indexer L × Option A) (f : A → Io L B)
    → Ensures E Q r
    → ((a : A) (s : Indexer L) → Q a s → Ensures E R (f a s))
    → Ensures E R (continue r f)
Ensures-continue E Q R (s, none) f h k = h
Ensures-continue E Q R (s, some a) f h k = k a s h

pub Ensures-weaken {ℓ} :
    {L : Lance} {A : Type ℓ} (E : Indexer L → Type 0) (Q R : A → Indexer L → Type 0)
    (r : Indexer L × Option A)
    → Ensures E Q r
    → ((a : A) (s : Indexer L) → Q a s → R a s)
    → Ensures E R r
Ensures-weaken E Q R (s, none) h k = h
Ensures-weaken E Q R (s, some a) h k = k a s h

pub Ensures-with {ℓ} :
    {L : Lance} {A : Type ℓ} (E : Indexer L → Type 0) (Q R : A → Indexer L → Type 0)
    (r : Indexer L × Option A)
    → Ensures E Q r
    → ((a : A) → r.1 ≡ some a → R a r.0)
    → Ensures E (λ a s. Q a s × R a s) r
Ensures-with E Q R (s, none) h k = h
Ensures-with E Q R (s, some a) h k = (h, k a refl)

-- What holds at the end holds either way.
pub Ensures-ended {ℓ} :
    {L : Lance} {A : Type ℓ} (P : Indexer L → Type 0) (r : Indexer L × Option A)
    → P r.0
    → Ensures P (λ _. P) r
Ensures-ended P (s, none) h = h
Ensures-ended P (s, some a) h = h

same_kind_iff : (k l : Kind) → (same_kind k l ≡ true) ↔ (k ≡ l)
unfolding same_kind
same_kind_iff chunks chunks = ground arith
same_kind_iff chunks links = ground arith
same_kind_iff chunks aliases = ground arith
same_kind_iff links chunks = ground arith
same_kind_iff links links = ground arith
same_kind_iff links aliases = ground arith
same_kind_iff aliases chunks = ground arith
same_kind_iff aliases links = ground arith
same_kind_iff aliases aliases = ground arith

pub same_table_iff : (t u : Table) → (same_table t u ≡ true) ↔ (t ≡ u)
unfolding same_table
same_table_iff (canonical k) (canonical l) = ground (arith, same_kind_iff k l)
same_table_iff (canonical k) (staging l) = ground arith
same_table_iff (staging k) (canonical l) = ground arith
same_table_iff (staging k) (staging l) = ground (arith, same_kind_iff k l)

pub without-append :
    (path : Text) (xs ys : List Row) → without path (xs ++ ys) ≡ without path xs ++ without path ys
unfolding without
without-append path [] ys = refl
without-append path (x ∷ xs) ys = ground (arith, without-append path xs ys)

pub without_idem : (path : Text) (xs : List Row) → without path (without path xs) ≡ without path xs
unfolding without
without_idem path [] = refl
without_idem path (x ∷ xs) = ground (arith, without_idem path xs)

-- Every row is the note's.
abbrev pub Owned : Text → List Row → Type 0
Owned path [] = Unit {0}
Owned path (row ∷ rows) = (note_of row ≡ path) × Owned path rows

pub without-Owned : (path : Text) (rows : List Row) → Owned path rows → without path rows ≡ []
unfolding without
without-Owned path [] h = refl
without-Owned path (row ∷ rows) h =
    ground (arith, without-Owned path rows h.1, text_beq_iff (note_of row) path, h.0)

-- A table's rows put in place of the old ones.
unfoldable pub put_rows : Table → List Row → (Table → List Row) → Table → List Row
put_rows t rows before u = if same_table t u then rows else before u

module _ {L : Lance} (lawful : IsLawful L) where
  abbrev pub Exactly : (Table → List Row) → Indexer L → Type 0
  Exactly want s = (u : Table) → L.rows u s.db ≡ want u

  pub rows-call_returned :
      (t u : Table) (c : Call L.Version) (db : L.Db)
      → (L.call t c db).1 ≡ true
      → L.rows u (L.call t c db).0
        ≡ (if same_table t u then effect (λ v. L.held t v db) c (L.rows t db) else L.rows u db)
  rows-call_returned t u c db h = ground (arith, lawful.rows-call t u c db)

  pub rows-call_raised :
      (t u : Table) (c : Call L.Version) (db : L.Db)
      → (L.call t c db).1 ≡ false
      → L.rows u (L.call t c db).0 ≡ L.rows u db
  rows-call_raised t u c db h = ground (arith, lawful.rows-call t u c db)

  -- A call on a table leaves the others alone.
  pub rows-call_other :
      (t u : Table) (c : Call L.Version) (db : L.Db)
      → same_table t u ≡ false
      → L.rows u (L.call t c db).0 ≡ L.rows u db
  rows-call_other t u c db h = ground (arith, lawful.rows-call t u c db)

  -- What the table of a call holds where it returned.
  pub rows-call_done :
      (t : Table) (c : Call L.Version) (s : Indexer L) (a : Unit {0})
      → (call t c s).1 ≡ some a
      → L.rows t (call t c s).0.db ≡ effect (λ v. L.held t v s.db) c (L.rows t s.db)
  unfolding call done
  rows-call_done t c s a h =
      rows-call_returned t t c s.db (returned_true (L.call t c s.db).1 a h)
      ∙ rw ((same_table_iff t t).1 refl) refl
    where
      returned_true : (b : Bool) (a : Unit {0}) → done b ≡ some a → b ≡ true
      returned_true true a h = refl
      returned_true false a h = ground arith

  -- A call that leaves its table as it is.
  pub rows_still :
      (t : Table) (c : Call L.Version) (s : Indexer L)
      → effect (λ v. L.held t v s.db) c (L.rows t s.db) ≡ L.rows t s.db
      → (u : Table) → L.rows u (call t c s).0.db ≡ L.rows u s.db
  unfolding call
  rows_still t c s e u = ground (arith, lawful.rows-call t u c s.db, same_table_iff t u)
