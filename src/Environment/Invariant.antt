-- ===== src/Environment/Invariant.antt =====
-- What holds of every slot of the connection table, and how a change of one slot keeps it.
use mmocraft.Prelude.{
  ℕ, zero, suc, ◌+◌, ◌^◌, ◌≤◌, ◌<◌, ◌≡◌, refl, sym, ap, ◌≢◌, inl, inr, Bool, true, false, not, none,
  some, [], ◌∷◌, arith, Bool-cases, length, get_elem?, replicate, length-replicate,
}
use mmocraft.ConnectionKey
use mmocraft.Connection.{Connection}
use mmocraft.Environment.{
  ConnectionEntry, ConnectionEnvironment, Table, empty_entry, update_entry,
  get_unused_connection_id, new_environment,
}

-- A slot is vacant, or it holds a connection whose key names the slot and the tick of its creation,
-- and which is to be deleted exactly if it is offline.
pub data EntryOk (i : ℕ) (e : ConnectionEntry) : Type 0 where
  vacant : e.used ≡ false → e.connection ≡ none → e.will_delete ≡ true → EntryOk i e
  occupied :
      (c : Connection)
      → e.used ≡ true
      → e.connection ≡ some c
      → ConnectionKey.index c.key ≡ i
      → e.created_at ≡ ConnectionKey.created_at c.key
      → e.will_delete ≡ not c.is_online
      → EntryOk i e

-- The slots from index `i` on.
abbrev pub TableOk : ℕ → Table → Type 0
TableOk i [] = Unit
TableOk i (e ∷ es) = EntryOk i e × TableOk (suc i) es

abbrev pub bit : Bool → ℕ
bit true = 1
bit false = 0

abbrev pub used_count : Table → ℕ
used_count [] = 0
used_count (e ∷ es) = bit e.used + used_count es

pub record IsValid (env : ConnectionEnvironment) : Type 0 where
  pub entries : TableOk 0 env.table
  pub count : env.num_of_connections ≡ used_count env.table
  pub small : length env.table < 2 ^ 32

pub length-update_entry :
    (i : ℕ) (f : ConnectionEntry → ConnectionEntry) (t : Table)
    → length (update_entry i f t) ≡ length t
unfolding update_entry
length-update_entry i f [] = refl
length-update_entry zero f (e ∷ es) = refl
length-update_entry (suc i) f (e ∷ es) = ap suc (length-update_entry i f es)

pub get_elem?-update_entry :
    (i : ℕ) (f : ConnectionEntry → ConnectionEntry) (t : Table) (e : ConnectionEntry)
    → get_elem? t i ≡ some e
    → get_elem? (update_entry i f t) i ≡ some (f e)
unfolding update_entry
get_elem?-update_entry i f [] e h = cc
get_elem?-update_entry zero f (x ∷ xs) e h = ground (arith, h)
get_elem?-update_entry (suc i) f (x ∷ xs) e h = get_elem?-update_entry i f xs e h

pub get_elem?-update_entry_ne :
    (i j : ℕ) (f : ConnectionEntry → ConnectionEntry) (t : Table)
    → i ≢ j
    → get_elem? (update_entry i f t) j ≡ get_elem? t j
unfolding update_entry
get_elem?-update_entry_ne i j f [] h = refl
get_elem?-update_entry_ne zero zero f (x ∷ xs) h = absurd (h refl)
get_elem?-update_entry_ne zero (suc j) f (x ∷ xs) h = refl
get_elem?-update_entry_ne (suc i) zero f (x ∷ xs) h = refl
get_elem?-update_entry_ne (suc i) (suc j) f (x ∷ xs) h =
    get_elem?-update_entry_ne i j f xs (λ e. h (ap suc e))

pub TableOk-get :
    (i j : ℕ) (t : Table) (e : ConnectionEntry)
    → TableOk i t
    → get_elem? t j ≡ some e
    → EntryOk (i + j) e
TableOk-get i j [] e v h = cc
TableOk-get i zero (x ∷ xs) e v h =
    let same : x ≡ e = ground arith in let k : i ≡ i + 0 = omega arith in rw (← same, ← k) v.0
TableOk-get i (suc j) (x ∷ xs) e v h =
    let k : i + suc j ≡ suc i + j = omega arith in rw k (TableOk-get (suc i) j xs e v.1 h)

pub TableOk-update_entry :
    (i j : ℕ) (f : ConnectionEntry → ConnectionEntry) (t : Table)
    → TableOk i t
    → ((e : ConnectionEntry) → get_elem? t j ≡ some e → EntryOk (i + j) e → EntryOk (i + j) (f e))
    → TableOk i (update_entry j f t)
unfolding update_entry
TableOk-update_entry i j f [] v h = tt
TableOk-update_entry i zero f (x ∷ xs) v h =
    let k : i + 0 ≡ i = omega arith in ((rw k at (h x refl (rw k v.0))), v.1)
TableOk-update_entry i (suc j) f (x ∷ xs) v h =
    let k : i + suc j ≡ suc i + j = omega arith in
    (v.0, TableOk-update_entry (suc i) j f xs v.1 (λ e m ok. rw (← k) (h e m (rw k ok))))

-- A change of one slot changes the number of used slots by that slot.
pub used_count-update_entry :
    (j : ℕ) (f : ConnectionEntry → ConnectionEntry) (t : Table) (e : ConnectionEntry)
    → get_elem? t j ≡ some e
    → used_count (update_entry j f t) + bit e.used ≡ used_count t + bit (f e).used
unfolding update_entry
used_count-update_entry j f [] e h = cc
used_count-update_entry zero f (x ∷ xs) e h =
    let same : x ≡ e = ground arith in rw same (omega arith)
used_count-update_entry (suc j) f (x ∷ xs) e h = omega (arith, used_count-update_entry j f xs e h)

pub used_count-le : (t : Table) → used_count t ≤ length t
used_count-le [] = omega arith
used_count-le (e ∷ es) = ground (arith, used_count-le es)

-- While fewer slots are used than there are, the search finds one that is not.
pub get_unused_connection_id_lem :
    (t : Table)
    → used_count t < length t
    → (e : ConnectionEntry) × (get_elem? t (get_unused_connection_id t) ≡ some e) × (e.used ≡ false)
unfolding get_unused_connection_id
get_unused_connection_id_lem [] h = absurd (omega arith)
get_unused_connection_id_lem (x ∷ xs) h = elim (Bool-cases x.used) [
  | inl u ↦
      let fewer : used_count xs < length xs = ground arith in
      let (e, m, n) = get_unused_connection_id_lem xs fewer in (e, simp (u) m, n)
  | inr u ↦ (x, simp (u), u)
]

TableOk-replicate : (i n : ℕ) → TableOk i (replicate n empty_entry)
TableOk-replicate i zero = tt
TableOk-replicate i (suc n) = (vacant refl refl refl, TableOk-replicate (suc i) n)

used_count-replicate : (n : ℕ) → used_count (replicate n empty_entry) ≡ 0
used_count-replicate zero = refl
used_count-replicate (suc n) = omega (arith, used_count-replicate n)

pub new_environment-IsValid : (n : ℕ) → n < 2 ^ 32 → IsValid (new_environment n)
unfolding new_environment
new_environment-IsValid n h = record {
  entries = TableOk-replicate 0 n;
  count = sym (used_count-replicate n);
  small = omega (arith, length-replicate n empty_entry);
}
