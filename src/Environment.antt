-- ===== src/Environment.antt =====
-- net/connection_environment.h and net/connection_environment.cpp: the table of connections, one
-- slot for each client that is allowed. A `Connection*` is the index of its slot.
pub mod Invariant
pub mod Keys
use mmocraft.Prelude.{
  [], ℕ, zero, suc, ◌+◌, ◌-◌, ◌%◌, ◌^◌, Bool, true, false, not, ◌||◌, Option, none, some, List, ◌∷◌,
  ◌==◌, if◌then◌else◌, get_elem?, replicate,
}
use mmocraft.ConnectionKey
use mmocraft.Connection.{Connection}

abbrev pub invalid_tick : ℕ
invalid_tick = 0xDEADBEEF

pub record ConnectionEntry : Type 0 where
  pub used : Bool
  pub will_delete : Bool
  pub connection : Option Connection
  pub created_at : ℕ

abbrev pub Table : Type 0
Table = List ConnectionEntry

pub record ConnectionEnvironment : Type 0 where
  pub table : Table
  pub num_of_connections : ℕ

abbrev pub empty_entry : ConnectionEntry
empty_entry = record {
  used = false;
  will_delete = true;
  connection = none;
  created_at = invalid_tick;
}

unfoldable pub new_environment : ℕ → ConnectionEnvironment
new_environment max_connections = record {
  table = replicate max_connections empty_entry;
  num_of_connections = 0;
}

-- The index of the first slot that is not used, or the size of the table.
unfoldable pub get_unused_connection_id : Table → ℕ
get_unused_connection_id [] = 0
get_unused_connection_id (e ∷ es) = if e.used then suc (get_unused_connection_id es) else 0

-- A change of the entry at an index; an index past the table changes nothing.
unfoldable pub update_entry : ℕ → (ConnectionEntry → ConnectionEntry) → Table → Table
update_entry i f [] = []
update_entry zero f (e ∷ es) = f e ∷ es
update_entry (suc i) f (e ∷ es) = e ∷ update_entry i f es

unfoldable pub on_connection_create : ConnectionEnvironment → ℕ → Connection → ConnectionEnvironment
unfolding update_entry
on_connection_create env key c = record {
  num_of_connections = (env.num_of_connections + 1) % 2 ^ 32;
  table =
      update_entry (ConnectionKey.index key)
        (λ e. record {
          created_at = ConnectionKey.created_at key;
          connection = some c;
          used = true;
          will_delete = false;
        })
        env.table;
}

unfoldable pub on_connection_delete : ConnectionEnvironment → ℕ → ConnectionEnvironment
unfolding update_entry
on_connection_delete env key = record {
  table =
      update_entry (ConnectionKey.index key)
        (λ e. record e { created_at = invalid_tick; used = false }) env.table;
  num_of_connections = (env.num_of_connections + 2 ^ 32 - 1) % 2 ^ 32;
}

unfoldable pub on_connection_offline : ConnectionEnvironment → ℕ → ConnectionEnvironment
unfolding update_entry
on_connection_offline env key = record env {
  table = update_entry (ConnectionKey.index key) (λ e. record e { will_delete = true }) env.table;
}

-- is_expired of a key; a key past the table counts as expired.
unfoldable pub is_expired : ConnectionEnvironment → ℕ → Bool
is_expired env key = elim (get_elem? env.table (ConnectionKey.index key)) [
  | none ↦ true
  | some e ↦ e.will_delete || not (ConnectionKey.created_at key == e.created_at)
]

abbrev pub connection_at : Table → ℕ → Option Connection
connection_at table i = elim (get_elem? table i) [ none ↦ none | some e ↦ e.connection ]

unfoldable pub try_acquire_connection : ConnectionEnvironment → ℕ → Option Connection
unfolding is_expired
try_acquire_connection env key =
    if is_expired env key then none else connection_at env.table (ConnectionKey.index key)
