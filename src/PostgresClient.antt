-- ===== src/PostgresClient.antt =====
-- internal/enrichment/postgres/client.go: prepared statements in a cache. The database is an
-- argument, by its answers; a statement is a handle. An element of the list of recent queries is a
-- pointer (0 is nil) with its query, as in Cache. `closed` is what `Close` was called on.
pub mod Queries
pub mod Steps
pub mod Invariant
pub mod Recency
pub mod Refinement
pub mod Bounded
pub mod Invalid
pub mod Kept
use ggt.Prelude.{
  ℕ, Bool, true, false, ◌||◌, Option, none, some, List, [], ◌∷◌, ◌++◌, ◌+◌, Text, codes, text_eq,
  leb, length, if◌then◌else◌,
}
use ggt.Prelude.Int.{ℤ, pos}
use ggt.Prelude.Dict.{Dict, lookup, insert, remove}
use ggt.Cache as Cache
use ggt.Cache.{new_lru_cache, remove_element, move_to_front, back}

abbrev pub max_prepared_stmts : ℕ
max_prepared_stmts = 500

pub record ClientConfig : Type 0 where
  pub url : Text
  pub max_open_conns : ℤ
  pub max_idle_conns : ℤ
  pub conn_max_lifetime : ℤ
  pub cache_ttl : ℤ
  pub cache_size : ℤ

pub record Client : Type 0 where
  pub cache : Cache.Cache
  pub stmt_cache : Dict ℕ
  pub stmt_lru : List (ℕ × Text)
  pub stmt_elements : Dict ℕ
  pub next_element : ℕ
  pub closed : List ℕ
  pub conn_max_lifetime : ℤ
  pub max_open_conns : ℤ
  pub max_idle_conns : ℤ

pub data Made : Type 0 where
  made : Client → Made
  url_missing : Made
  open_failed ping_failed : Text → Made

unfoldable pub default_client_config : ClientConfig
default_client_config = record {
  url = [];
  max_open_conns = pos 25;
  max_idle_conns = pos 5;
  conn_max_lifetime = pos 300000000000;
  cache_ttl = pos 600000000000;
  cache_size = pos 1000;
}

-- a client with no statement
unfoldable pub empty_client : ClientConfig → Client
empty_client cfg = record {
  cache = new_lru_cache cfg.cache_size cfg.cache_ttl;
  stmt_cache = [];
  stmt_lru = [];
  stmt_elements = [];
  next_element = 1;
  closed = [];
  conn_max_lifetime = cfg.conn_max_lifetime;
  max_open_conns = cfg.max_open_conns;
  max_idle_conns = cfg.max_idle_conns;
}

-- `NewClient`; opening and pinging the database at a URL are arguments.
unfoldable pub new_client : (Text → Option Text) → (Text → Option Text) → Option ClientConfig → Made
unfolding default_client_config empty_client
new_client open_db ping none = url_missing
new_client open_db ping (some cfg) =
    if text_eq cfg.url [] then url_missing else elim (open_db cfg.url) [
      | some e ↦ open_failed e
      | none ↦ elim (ping cfg.url) [ some e ↦ ping_failed e | none ↦ made (empty_client cfg) ]
    ]

-- What `Prepare` answers.
pub data Prepared : Type 0 where
  prepared : ℕ → Prepared
  prepare_failed : Text → Prepared

unfoldable pub evict_lru : Client → Client
evict_lru c = elim (back c.stmt_lru) [
  | none ↦ c
  | some e ↦
      let c' = record c {
        stmt_lru = remove_element e.0 c.stmt_lru;
        stmt_elements = remove e.1 c.stmt_elements;
      } in
      elim (lookup e.1 c.stmt_cache) [
        | none ↦ c'
        | some stmt ↦ record c' { stmt_cache = remove e.1 c.stmt_cache; closed = stmt ∷ c.closed }
      ]
]

-- `MoveToFront` of the query's element, if it has one
unfoldable pub touch : Text → Client → Client
touch query c = elim (lookup query c.stmt_elements) [
  | none ↦ c
  | some element ↦ record c { stmt_lru = move_to_front element c.stmt_lru }
]

unfoldable pub make_room : Client → Client
unfolding evict_lru
make_room c = if leb max_prepared_stmts (length c.stmt_cache) then evict_lru c else c

unfoldable pub add_stmt : Text → ℕ → Client → Client
add_stmt query stmt c = record c {
  stmt_cache = insert query stmt c.stmt_cache;
  stmt_lru = (c.next_element, query) ∷ c.stmt_lru;
  stmt_elements = insert query c.next_element c.stmt_elements;
  next_element = c.next_element + 1;
}

-- what follows a miss; what `Prepare` answers is an argument
unfoldable pub add_prepared : Prepared → Text → Client → Client × Prepared
unfolding make_room add_stmt
add_prepared (prepare_failed e) query c = (make_room c, prepare_failed e)
add_prepared (prepared stmt) query c = (add_stmt query stmt (make_room c), prepared stmt)

-- The part of `PreparedStmt` under the lock, after a first look that found nothing.
unfoldable pub prepare_locked : Prepared → Text → Client → Client × Prepared
unfolding touch add_prepared
prepare_locked answer query c = elim (lookup query c.stmt_cache) [
  | some stmt ↦ (touch query c, prepared stmt)
  | none ↦ add_prepared answer query c
]

unfoldable pub prepared_stmt : Prepared → Text → Client → Client × Prepared
unfolding touch prepare_locked
prepared_stmt answer query c = elim (lookup query c.stmt_cache) [
  | some stmt ↦ (touch query c, prepared stmt)
  | none ↦ prepare_locked answer query c
]

-- An error of the database: of the driver, with its code, or another.
pub data Error : Type 0 where
  pq_error : Text → Error
  other_error : Text → Error

unfoldable pub drop_stmt : Text → Client → Client
drop_stmt query c = elim (lookup query c.stmt_cache) [
  | none ↦ c
  | some stmt ↦
      let c' = record c { stmt_cache = remove query c.stmt_cache; closed = stmt ∷ c.closed } in
      elim (lookup query c.stmt_elements) [
        | none ↦ c'
        | some element ↦ record c' {
          stmt_lru = remove_element element c.stmt_lru;
          stmt_elements = remove query c.stmt_elements;
        }
      ]
]

abbrev pub is_invalid : Error → Bool
is_invalid (pq_error code) = text_eq code (codes "26000") || text_eq code (codes "42P14")
is_invalid (other_error e) = false

unfoldable pub remove_invalid_stmt : Text → Option Error → Client → Client
unfolding drop_stmt
remove_invalid_stmt query none c = c
remove_invalid_stmt query (some e) c = if is_invalid e then drop_stmt query c else c
