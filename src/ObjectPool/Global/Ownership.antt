-- ===== src/ObjectPool/Global/Ownership.antt =====
-- An object of ObjectGlobalPool (win/object_pool.h) from its creation to its release.
use mmocraft.Prelude.{
  ℕ, suc, ◌+◌, ◌*◌, ◌/◌, ◌%◌, ◌^◌, ◌<◌, ◌≡◌, refl, sym, ap, ◌∙◌, ◌≢◌, ◌⊎◌, inl, inr, Bool, true,
  false, not, some, [], ◌∷◌, ◌++◌, append_assoc, arith, ◌==◌, Bool-cases, update, update-same,
  update-ne,
}
use mmocraft.ObjectPool.{ObjectPool, invalid_index, is_free, new_object, transition_to_free}
use mmocraft.ObjectPool.Slots
use mmocraft.ObjectPool.Allocation.{transition_to_free_lem}
use mmocraft.ObjectPool.Creation.{Created, refused, created, new_object-Created}
use mmocraft.ObjectPool.Global.{
  invalid_object_id, Pools, make_id, get_object_index, find_pool, with_object_id, new_object_unsafe,
  free_object, find_object,
}

-- Freeing an object by an identifier of a pool.
free_object_lem :
    (id k : ℕ) (s : Pools) (p : ObjectPool)
    → 0 < k
    → id / 2 ^ 32 ≡ k
    → s.pool_table k ≡ some p
    → free_object id s ≡ (
      record s {
        pool_table = update s.pool_table k (some (transition_to_free p (id % 2 ^ 32)).0);
        destructed = s.destructed ++ id ∷ [];
      },
      (transition_to_free p (id % 2 ^ 32)).1,
    )
unfolding free_object find_pool get_object_index
free_object_lem id k s p h e t =
    let nonzero : (id == 0) ≡ false = ground arith in
    let here : s.pool_table (id / 2 ^ 32) ≡ some p = ap s.pool_table e ∙ t in
    rw (free_object, nonzero, find_pool, here)
      (ap
        (λ x. (
          record s {
            pool_table = update s.pool_table x (some (transition_to_free p (id % 2 ^ 32)).0);
            destructed = s.destructed ++ id ∷ [];
          },
          (transition_to_free p (id % 2 ^ 32)).1,
        ))
        e)

-- What becomes of the object `id` of pool `k`, which was `p`: `s` and `s'` are the pools before and after
-- its creation.
pub record Lent (k : ℕ) (p : ObjectPool) (s : Pools) (s' : Pools) (id : ℕ) : Type 0 where
  pub found : find_object id s' ≡ some (k, get_object_index id)
  pub freed : (free_object id s').1 ≡ true
  pub others : (j : ℕ) → k ≢ j → (free_object id s').0.pool_table j ≡ s.pool_table j
  pub restored :
      (q : ObjectPool) × ((free_object id s').0.pool_table k ≡ some q)
      × ((j : ℕ) → is_free q j ≡ is_free p j)
  pub again : (free_object id (free_object id s').0).1 ≡ false
  pub destructed :
      (free_object id (free_object id s').0).0.destructed ≡ s.destructed ++ id ∷ id ∷ []

lend :
    (k i : ℕ) (s : Pools) (p q : ObjectPool)
    → 0 < k
    → Slots.IsValid q
    → i < q.capacity
    → is_free p i ≡ true
    → is_free q i ≡ false
    → ((j : ℕ) → i ≢ j → is_free q j ≡ is_free p j)
    → Lent k p s (record s { pool_table = update s.pool_table k (some q) }) (make_id k i)
unfolding make_id find_object find_pool get_object_index transition_to_free
lend k i s p q h v below was now same =
    let id : ℕ = k * 2 ^ 32 + i in
    let small : i < 2 ^ 32 = omega (arith, v.within, v.small) in
    let pool_of : id / 2 ^ 32 ≡ k = omega arith in
    let index_of : id % 2 ^ 32 ≡ i = omega arith in
    let s' : Pools = record s { pool_table = update s.pool_table k (some q) } in
    let at : s'.pool_table k ≡ some q = update-same s.pool_table k (some q) in
    let r : ObjectPool = (transition_to_free q i).0 in
    let (used, free, other_slot, valid) =
      transition_to_free_lem q i (suc i) v below (λ e. omega arith) in
    let once : free_object id s' ≡ (
      record s' {
        pool_table = update s'.pool_table k (some r);
        destructed = s.destructed ++ id ∷ [];
      },
      (transition_to_free q i).1,
    ) =
      free_object_lem id k s' q h pool_of at ∙ rw index_of refl in
    let s'' : Pools = (free_object id s').0 in
    let at' : s''.pool_table k ≡ some r =
      ap (λ x. x.0.pool_table k) once ∙ update-same s'.pool_table k (some r) in
    let nonzero : (id == 0) ≡ false = ground arith in
    let here : s'.pool_table (id / 2 ^ 32) ≡ some q = ap s'.pool_table pool_of ∙ at in
    let twice = free_object_lem id k s'' r h pool_of at' in
    record {
      found =
          rw (find_object, nonzero, find_pool, here)
            (ap (λ x. some (x, get_object_index id)) pool_of);
      freed = ap (λ x. x.1) once ∙ used ∙ ap not now;
      others = λ j ne.
          ap (λ x. x.0.pool_table j) once
          ∙ update-ne s'.pool_table k j (some r) ne
          ∙ update-ne s.pool_table k j (some q) ne;
      restored = (
        r,
        at',
        λ j. elim (Bool-cases (i == j)) [
          | inl e ↦ let e' : i ≡ j = ground arith in rw (sym e') (free ∙ sym was)
          | inr n ↦
              let ne : i ≢ j = ground arith in
              (transition_to_free_lem q i j v below ne).2 ∙ same j ne
        ],
      );
      again =
          ap (λ x. x.1) twice
          ∙ rw index_of ((transition_to_free_lem r i (suc i) valid below (λ e. omega arith)).0)
          ∙ ap not free;
      destructed =
          ap (λ x. x.0.destructed) twice
          ∙ ap (λ xs. xs ++ id ∷ []) (ap (λ x. x.0.destructed) once)
          ∙ append_assoc s.destructed (id ∷ []) (id ∷ []);
    }

with_object_id-Lent :
    (k : ℕ) (s : Pools) (p : ObjectPool) (r : ObjectPool × ℕ)
    → 0 < k
    → Created p r
    → Slots.IsValid r.0
    → (((with_object_id k s r).1 ≡ invalid_object_id)
        × ((j : ℕ) → j < p.capacity → is_free p j ≡ false))
      ⊎ Lent k p s (with_object_id k s r).0 (with_object_id k s r).1
unfolding with_object_id
with_object_id-Lent k s p r h (refused full) v = inl (refl, full)
with_object_id-Lent k s p r h (created q i below more was now same lowest) v =
    let there : (i == invalid_index) ≡ false = ground (arith, v.within, v.small) in
    rw there (inr (lend k i s p q h v below was now same))

-- An object that new_object_unsafe hands out has an identifier that find_object takes back to its
-- pool and slot; free_object succeeds for it once, gives its slot back and leaves every other pool as
-- it was. A second free_object of the identifier fails, but has run the destructor again. No object
-- is handed out only if every committed slot of the pool is in use.
pub new_object_unsafe-Lent :
    (commit : ℕ → Bool) (k : ℕ) (s : Pools) (p : ObjectPool)
    → 0 < k
    → s.pool_table k ≡ some p
    → Slots.IsValid p
    → (((new_object_unsafe commit k s).1 ≡ invalid_object_id)
        × ((j : ℕ) → j < p.capacity → is_free p j ≡ false))
      ⊎ Lent k p s (new_object_unsafe commit k s).0 (new_object_unsafe commit k s).1
unfolding new_object_unsafe
new_object_unsafe-Lent commit k s p h t v =
    let (made, valid) = new_object-Created commit p v in
    rw (new_object_unsafe, t) (with_object_id-Lent k s p (new_object commit p) h made valid)
