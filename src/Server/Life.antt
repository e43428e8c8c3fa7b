-- ===== src/Server/Life.antt =====
-- Every operation on connections keeps the table of connections valid.
use mmocraft.Prelude.{
  ℕ, zero, suc, ◌+◌, ◌≡◌, refl, sym, ap, ◌∙◌, inl, inr, true, false, none, some, [], ◌∷◌, arith,
  Option-cases, get_elem?,
}
use mmocraft.ConnectionKey
use mmocraft.Connection.{Connection}
use mmocraft.Environment.{
  ConnectionEntry, ConnectionEnvironment, Table, update_entry, on_connection_offline,
}
use mmocraft.Environment.Invariant.{
  EntryOk, vacant, occupied, TableOk-get, TableOk-update_entry, IsValid, used_count, bit,
  used_count-update_entry, length-update_entry,
}
use mmocraft.Server.{Server, update_connection, set_offline}

pub update_entry_twice :
    (i : ℕ) (f g : ConnectionEntry → ConnectionEntry) (t : Table)
    → update_entry i g (update_entry i f t) ≡ update_entry i (λ e. g (f e)) t
unfolding update_entry
update_entry_twice i f g [] = refl
update_entry_twice zero f g (e ∷ es) = refl
update_entry_twice (suc i) f g (e ∷ es) = ap (◌∷◌ e) (update_entry_twice i f g es)

pub used_count-kept :
    (i : ℕ) (f : ConnectionEntry → ConnectionEntry) (t : Table)
    → ((e : ConnectionEntry) → (f e).used ≡ e.used)
    → used_count (update_entry i f t) ≡ used_count t
unfolding update_entry
used_count-kept i f [] h = refl
used_count-kept zero f (e ∷ es) h = ap (λ b. bit b + used_count es) (h e)
used_count-kept (suc i) f (e ∷ es) h = ap (λ n. bit e.used + n) (used_count-kept i f es h)

-- A change of the entry in slot `i` to one that is in order, with the count adjusted.
pub change :
    (env : ConnectionEnvironment) (i num : ℕ) (f : ConnectionEntry → ConnectionEntry)
    (e : ConnectionEntry)
    → IsValid env
    → get_elem? env.table i ≡ some e
    → EntryOk i (f e)
    → num + bit e.used ≡ env.num_of_connections + bit (f e).used
    → IsValid (record { table = update_entry i f env.table; num_of_connections = num })
change env i num f e v m ok same = record {
  entries = TableOk-update_entry 0 i f env.table v.entries λ x found _.
      let x_is : x ≡ e = ground arith in let k : 0 + i ≡ i = omega arith in rw (x_is, k) ok;
  count = omega (arith, v.count, used_count-update_entry i f env.table e m, same);
  small = omega (arith, v.small, length-update_entry i f env.table);
}

pub entry_at :
    (env : ConnectionEnvironment) (i : ℕ) (e : ConnectionEntry)
    → IsValid env
    → get_elem? env.table i ≡ some e
    → EntryOk i e
entry_at env i e v m =
    let k : 0 + i ≡ i = omega arith in rw (← k) (TableOk-get 0 i env.table e v.entries m)

-- The change that update_connection makes.
abbrev on_entry : (Connection → Connection) → ConnectionEntry → ConnectionEntry
on_entry f e = elim e.connection [ none ↦ e | some c ↦ record e { connection = some (f c) } ]

on_entry-EntryOk :
    (i : ℕ) (f : Connection → Connection) (e : ConnectionEntry)
    → ((c : Connection) → ((f c).key ≡ c.key) × ((f c).is_online ≡ c.is_online))
    → EntryOk i e
    → EntryOk i (on_entry f e)
on_entry-EntryOk i f e same (vacant u n w) = rw (n, on_entry) (vacant u n w)
on_entry-EntryOk i f e same (occupied c u n x t w) =
    let (k, o) = same c in rw (n, on_entry) (occupied (f c) u refl (rw k x) (rw k t) (rw o w))

on_entry_used : (f : Connection → Connection) (e : ConnectionEntry) → (on_entry f e).used ≡ e.used
on_entry_used f e = elim (Option-cases e.connection) [
  | inl n ↦ rw (n, on_entry) refl
  | inr (c, n) ↦ rw (n, on_entry) refl
]

-- A connection may change in any way that keeps its key and whether it is online.
pub update_connection-IsValid :
    (env : ConnectionEnvironment) (i : ℕ) (f : Connection → Connection)
    → ((c : Connection) → ((f c).key ≡ c.key) × ((f c).is_online ≡ c.is_online))
    → IsValid env
    → IsValid (record env { table = update_connection i f env.table })
unfolding update_connection
update_connection-IsValid env i f same v = record {
  entries =
      TableOk-update_entry 0 i (on_entry f) env.table v.entries
        (λ e m ok. on_entry-EntryOk (0 + i) f e same ok);
  count = v.count ∙ sym (used_count-kept i (on_entry f) env.table (on_entry_used f));
  small = omega (arith, v.small, length-update_entry i (on_entry f) env.table);
}

offline_entry-EntryOk :
    (i now : ℕ) (e : ConnectionEntry)
    → EntryOk i e
    → EntryOk i
        (record (on_entry (λ c. record c { is_online = false; last_offline_tick = now }) e) {
          will_delete = true;
        })
offline_entry-EntryOk i now e (vacant u n w) = rw (n, on_entry) (vacant u n refl)
offline_entry-EntryOk i now e (occupied c u n x t w) = rw (n, on_entry) (occupied _ u refl x t refl)

pub set_offline-IsValid :
    (s : Server) (i key now : ℕ)
    → ConnectionKey.index key ≡ i
    → IsValid s.env
    → IsValid (set_offline s i key now).env
unfolding set_offline update_connection on_connection_offline
set_offline-IsValid s i key now x v =
    let f : Connection → Connection =
      λ c. record c { is_online = false; last_offline_tick = now } in
    let off : ConnectionEntry → ConnectionEntry = λ e. record e { will_delete = true } in
    rw (x, update_entry_twice i (on_entry f) off s.env.table)
      (record {
        entries =
            TableOk-update_entry 0 i (λ e. off (on_entry f e)) s.env.table v.entries
              (λ e m ok. offline_entry-EntryOk (0 + i) now e ok);
        count =
            v.count
            ∙ sym (used_count-kept i (λ e. off (on_entry f e)) s.env.table (on_entry_used f));
        small = omega (arith, v.small, length-update_entry i (λ e. off (on_entry f e)) s.env.table);
      })
