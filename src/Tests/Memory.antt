-- ===== src/Tests/Memory.antt =====
-- A database in memory whose calls fail as a list says: what the indexer assumes of LanceDB can hold.
use vault_search_mcp.Prelude.{
  ap, Bool, true, false, Option, none, some, List, [], ◌∷◌, ◌≡◌, ◌&&◌, if◌then◌else◌, refl, arith,
  nat_eq, string_eq,
}
use vault_search_mcp.Indexer.Database.{Lance, IsLawful, Table, Row, Call, same_table, effect}
use vault_search_mcp.Indexer.FullReindex.Live.{IsReliable}
use vault_search_mcp.Indexer.Rules.{put_rows}

-- A version is what it holds; `true` in `faults` makes the next call raise.
pub record Memory : Type 0 where
  pub tables : Table → List Row
  pub faults : List Bool

abbrev held : Table → List Row → Memory → Option (List Row)
held t v db = some v

unfoldable pub next_call : List Bool → Table → Call (List Row) → Memory → Memory × Bool
unfolding effect put_rows
next_call [] t c db =
    (record db { tables = put_rows t (effect (λ v. some v) c (db.tables t)) db.tables }, true)
next_call (false ∷ faults) t c db = (
  record { tables = put_rows t (effect (λ v. some v) c (db.tables t)) db.tables; faults = faults },
  true,
)
next_call (true ∷ faults) t c db = (record db { faults = faults }, false)

unfoldable pub call : Table → Call (List Row) → Memory → Memory × Bool
unfolding next_call
call t c db = next_call db.faults t c db

-- A table with rows is listed, and so may be one without.
unfoldable pub is_listed : List Row → Bool
is_listed [] = false
is_listed (row ∷ rows) = true

abbrev pub memory : Lance
memory = record {
  Db = Memory;
  Version = List Row;
  call = call;
  list_tables = λ db. (db, some (λ t. is_listed (db.tables t)));
  version = λ t db. (db, some (db.tables t));
  read = λ t db. (db, some (db.tables t));
  rows = λ t db. db.tables t;
  held = held;
}

rows-next_call :
    (faults : List Bool) (t u : Table) (c : Call (List Row)) (db : Memory)
    → (next_call faults t c db).0.tables u ≡ (
        if same_table t u && (next_call faults t c db).1
        then effect (λ v. some v) c (db.tables t)
        else db.tables u)
unfolding next_call put_rows
rows-next_call [] t u c db = ground arith
rows-next_call (false ∷ faults) t u c db = ground arith
rows-next_call (true ∷ faults) t u c db = ground arith

rows-call :
    (t u : Table) (c : Call (List Row)) (db : Memory)
    → (call t c db).0.tables u ≡ (
        if same_table t u && (call t c db).1
        then effect (λ v. some v) c (db.tables t)
        else db.tables u)
unfolding call
rows-call t u c db = rows-next_call db.faults t u c db

abbrev names_of : Option (Table → Bool) → Table → Bool
names_of none t = false
names_of (some names) t = names t

is_listed_absent : (rows : List Row) → is_listed rows ≡ false → rows ≡ []
unfolding is_listed
is_listed_absent [] h = refl
is_listed_absent (row ∷ rows) h = cc

pub memory-IsLawful : IsLawful memory
memory-IsLawful = record {
  rows-call = rows-call;
  held-call = λ t u c v db rs h. h;
  rows-list_tables = λ u db. refl;
  held-list_tables = λ u v db. refl;
  absent = λ t db names h f.
      is_listed_absent (db.tables t)
        (ground (arith, ap (λ (o : Option (Table → Bool)). names_of o t) h));
  rows-version = λ t u db. refl;
  held-version = λ t u v db. refl;
  current = λ t db v h. ground arith;
  rows-read = λ t u db. refl;
  held-read = λ t u v db. refl;
  read_lem = λ t db rs h. ground arith;
}

-- The same without faults.
abbrev pub steady : Lance
steady = record {
  Db = Table → List Row;
  Version = List Row;
  call = λ t c db. (put_rows t (effect (λ v. some v) c (db t)) db, true);
  list_tables = λ db. (db, some (λ t. is_listed (db t)));
  version = λ t db. (db, some (db t));
  read = λ t db. (db, some (db t));
  rows = λ t db. db t;
  held = λ t v db. some v;
}

pub steady-IsReliable : IsReliable steady
steady-IsReliable = record {
  calls = λ t c db. refl;
  lists = λ db. refl;
  versions = λ t db. refl;
  reads = λ t db. refl;
}
