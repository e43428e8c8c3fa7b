-- ===== src/Server/Answer/Acquire.antt =====
-- A change of one connection, as seen through the keys.
use mmocraft.Prelude.{
  ℕ, zero, suc, ◌≡◌, refl, sym, ap, ◌∙◌, ◌≢◌, inl, inr, not, ◌||◌, Option, none, some, [], ◌∷◌,
  arith, ◌==◌, if◌then◌else◌, Bool-cases, Option-cases, get_elem?,
}
use mmocraft.ConnectionKey
use mmocraft.Connection.{Connection}
use mmocraft.Environment.{
  ConnectionEntry, ConnectionEnvironment, connection_at, Table, try_acquire_connection, is_expired,
  update_entry,
}
use mmocraft.Server.{Server, update, update_connection}

pub get_elem?-update_entry :
    (i : ℕ) (f : ConnectionEntry → ConnectionEntry) (t : Table) (e : ConnectionEntry)
    → get_elem? t i ≡ some e
    → get_elem? (update_entry i f t) i ≡ some (f e)
unfolding update_entry
get_elem?-update_entry i f [] e h = absurd (ground arith)
get_elem?-update_entry zero f (x ∷ t) e h = let same : x ≡ e = ground arith in rw (same) refl
get_elem?-update_entry (suc i) f (x ∷ t) e h = get_elem?-update_entry i f t e h

pub get_elem?-update_entry_ne :
    (i j : ℕ) (f : ConnectionEntry → ConnectionEntry) (t : Table)
    → i ≢ j
    → get_elem? (update_entry i f t) j ≡ get_elem? t j
unfolding update_entry
get_elem?-update_entry_ne i j f [] h = refl
get_elem?-update_entry_ne zero zero f (x ∷ t) h = absurd (h refl)
get_elem?-update_entry_ne zero (suc j) f (x ∷ t) h = refl
get_elem?-update_entry_ne (suc i) zero f (x ∷ t) h = refl
get_elem?-update_entry_ne (suc i) (suc j) f (x ∷ t) h =
    get_elem?-update_entry_ne i j f t (λ e. h (ap suc e))

-- What a key leads to, by the entry of its slot.
abbrev pub reached : ℕ → Option ConnectionEntry → Option Connection
reached key none = none
reached key (some e) =
    if e.will_delete || not (ConnectionKey.created_at key == e.created_at)
    then none
    else e.connection

pub reached_lem :
    (env : ConnectionEnvironment) (key : ℕ) (o : Option ConnectionEntry)
    → get_elem? env.table (ConnectionKey.index key) ≡ o
    → try_acquire_connection env key ≡ reached key o
unfolding try_acquire_connection is_expired
reached_lem env key none h = rw (try_acquire_connection, is_expired, h) refl
reached_lem env key (some e) h =
    let holds : connection_at env.table (ConnectionKey.index key) ≡ e.connection =
      rw (connection_at, h) refl in
    rw (try_acquire_connection, is_expired, h, holds) refl

abbrev pub changed : (Connection → Connection) → ConnectionEntry → ConnectionEntry
changed f e = elim e.connection [ none ↦ e | some c ↦ record e { connection = some (f c) } ]

pub get_elem?-update_connection :
    (i : ℕ) (f : Connection → Connection) (t : Table) (e : ConnectionEntry)
    → get_elem? t i ≡ some e
    → get_elem? (update_connection i f t) i ≡ some (changed f e)
unfolding update_connection
get_elem?-update_connection i f t e h = get_elem?-update_entry i (changed f) t e h

pub changed_lem :
    (f : Connection → Connection) (e : ConnectionEntry) (c : Connection)
    → e.connection ≡ some c
    → changed f e ≡ record e { connection = some (f c) }
changed_lem f e c h = rw (changed, h) refl

reached-changed :
    (key : ℕ) (f : Connection → Connection) (e : ConnectionEntry) (c : Connection)
    → reached key (some e) ≡ some c
    → reached key (some (changed f e)) ≡ some (f c)
reached-changed key f e c h =
    elim (Bool-cases (e.will_delete || not (ConnectionKey.created_at key == e.created_at))) [
      | inl closed ↦ let wrong : none ≡ some c = simp (closed) at h in absurd (cc)
      | inr open_slot ↦
          let holds : e.connection ≡ some c = simp (open_slot) at h in
          rw (changed_lem f e c holds, open_slot) refl
    ]

-- The connection that was changed is found changed.
pub try_acquire-update :
    (s : Server) (key : ℕ) (f : Connection → Connection) (c : Connection)
    → try_acquire_connection s.env key ≡ some c
    → try_acquire_connection (update s (ConnectionKey.index key) f).env key ≡ some (f c)
try_acquire-update s key f c h =
    elim (Option-cases (get_elem? s.env.table (ConnectionKey.index key))) [
      | inl gone ↦ let e = sym (reached_lem s.env key none gone) ∙ h in absurd (cc)
      | inr (e, m) ↦
          reached_lem (update s (ConnectionKey.index key) f).env key (some (changed f e))
            (get_elem?-update_connection (ConnectionKey.index key) f s.env.table e m)
          ∙ reached-changed key f e c (sym (reached_lem s.env key (some e) m) ∙ h)
    ]

-- The connections of other slots are found as they were.
pub try_acquire-update_ne :
    (s : Server) (i key : ℕ) (f : Connection → Connection)
    → i ≢ ConnectionKey.index key
    → try_acquire_connection (update s i f).env key ≡ try_acquire_connection s.env key
unfolding update_connection
try_acquire-update_ne s i key f h =
    reached_lem (update s i f).env key (get_elem? s.env.table (ConnectionKey.index key))
      (get_elem?-update_entry_ne i (ConnectionKey.index key) (changed f) s.env.table h)
    ∙ sym (reached_lem s.env key (get_elem? s.env.table (ConnectionKey.index key)) refl)
