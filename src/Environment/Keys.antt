-- ===== src/Environment/Keys.antt =====
-- A connection key is a safe reference: it leads to the connection that it was made for, or to none.
use mmocraft.Prelude.{
  ℕ, ◌+◌, ◌^◌, ◌<◌, ◌≡◌, sym, ◌∙◌, inl, inr, true, false, some, arith, Option-cases, get_elem?,
}
use mmocraft.ConnectionKey
use mmocraft.Connection.{Connection}
use mmocraft.Environment.{ConnectionEntry, ConnectionEnvironment, try_acquire_connection}
use mmocraft.Environment.Invariant.{EntryOk, vacant, occupied, TableOk-get, IsValid}

acquire_entry :
    (env : ConnectionEnvironment) (key : ℕ) (c : Connection)
    → try_acquire_connection env key ≡ some c
    → (e : ConnectionEntry) × (get_elem? env.table (ConnectionKey.index key) ≡ some e)
      × (e.connection ≡ some c)
      × (e.will_delete ≡ false)
      × (ConnectionKey.created_at key ≡ e.created_at)
unfolding try_acquire_connection
acquire_entry env key c h = elim (Option-cases (get_elem? env.table (ConnectionKey.index key))) [
  | inl gone ↦ absurd (ground (arith, gone))
  | inr (e, found) ↦ (e, found, ground (arith, found), ground (arith, found), ground (arith, found))
]

entry_key :
    (i : ℕ) (e : ConnectionEntry) (c : Connection)
    → EntryOk i e
    → e.connection ≡ some c
    → e.will_delete ≡ false
    → (ConnectionKey.index c.key ≡ i)
      × (ConnectionKey.created_at c.key ≡ e.created_at)
      × (c.is_online ≡ true)
entry_key i e c (vacant u n w) m k = absurd (ground arith)
entry_key i e c (occupied d u n x t w) m k =
    let same : d ≡ c = ground arith in (rw (← same) x, rw (← same) (sym t), ground arith)

fields_determine :
    (k l : ℕ)
    → k < 2 ^ 64
    → l < 2 ^ 64
    → ConnectionKey.index k ≡ ConnectionKey.index l
    → ConnectionKey.created_at k ≡ ConnectionKey.created_at l
    → k ≡ l
unfolding ConnectionKey.index ConnectionKey.created_at
fields_determine k l hk hl i t = omega arith

-- In a valid table, whatever connection a key leads to is online and has exactly that key, if both
-- keys are 64-bit numbers.
pub try_acquire_connection_lem :
    (env : ConnectionEnvironment) (key : ℕ) (c : Connection)
    → IsValid env
    → key < 2 ^ 64
    → c.key < 2 ^ 64
    → try_acquire_connection env key ≡ some c
    → (c.key ≡ key) × (c.is_online ≡ true)
try_acquire_connection_lem env key c v hk hc h =
    let (e, found, holds, kept, tick) = acquire_entry env key c h in
    let i : ℕ = ConnectionKey.index key in
    let zero_add : 0 + i ≡ i = omega arith in
    let ok : EntryOk i e = rw (← zero_add) (TableOk-get 0 i env.table e v.entries found) in
    let (index, created, online) = entry_key i e c ok holds kept in
    (fields_determine c.key key hc hk index (created ∙ sym tick), online)
