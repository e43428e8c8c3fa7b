-- ===== src/Buffer/LockFree/Invariant.antt =====
-- What holds of io/io_event.h IoSendEventLockFreeDataImpl while threads push and the send event runs,
-- when a flush starts only while nobody copies: the memory up to the tail is the bytes accepted since
-- the tail was last reset, but for the ranges that a thread has still to copy.
use mmocraft.Prelude.{
  ℕ, ◌+◌, ◌-◌, ◌≤◌, ◌<◌, ◌≡◌, sym, ap, ◌∙◌, ◌≢◌, ◌⊎◌, inl, inr, List, ◌++◌, arith, length,
  get_elem?, length-append, update, update-same, update-ne,
}
use mmocraft.Buffer.Memory.{write_at, length-write_at}
use mmocraft.Buffer.LockFree.{LockFreeData, capacity, fill}
use mmocraft.Buffer.LockFree.Bytes.{
  write_at_nil, get_elem?-append_lt, get_elem?-append_ge, get_elem?-write_at, get_elem?-write_at_ne,
}
use mmocraft.Buffer.LockFree.Threads.{Pusher, outside, testing, copying}
use mmocraft.Buffer.LockFree.Threads.{Sender, sending, sent, popped, clearing}
use native.Mathlib.Decide.{dec_lt, ℕ_discrete}

-- Where the bytes that are not transferred yet begin.
abbrev pub unread : Sender → ℕ → ℕ
unread (sent m) head = head + m
unread clearing head = 0
unread _ head = head

-- Up to where no thread may still have to copy.
abbrev pub settled : Sender → ℕ → ℕ
settled (sending n) head = head + n
settled (sent m) head = head + m
settled popped head = head
settled _ head = 0

-- A copy of `bytes` to `off` puts the bytes of `log` in their place.
abbrev pub Placed : List ℕ → ℕ → ℕ → List ℕ → Type 0
Placed log first off bytes =
    (length bytes ≡ 0)
    ⊎ ((first ≤ off)
        × (off + length bytes ≤ length log)
        × ((p : ℕ)
            → off ≤ p
            → p < off + length bytes
            → get_elem? bytes (p - off) ≡ get_elem? log p))

-- A thread has still to copy the byte at `p`.
abbrev pub Pending : (ℕ → Pusher) → ℕ → Type 0
Pending pusher p =
    (i : ℕ) × (off : ℕ) × (bytes : List ℕ) × (pusher i ≡ copying off bytes)
    × (off ≤ p)
    × (p < off + length bytes)

pub record Holds (d : LockFreeData) (pusher : ℕ → Pusher) (first : ℕ) (log : List ℕ) : Type 0 where
  pub tail : length log ≡ d.data_tail
  pub fits : d.data_tail ≤ capacity d
  pub copies :
      (i off : ℕ) (bytes : List ℕ) → pusher i ≡ copying off bytes → Placed log first off bytes
  pub written : (p : ℕ) → p < d.data_tail → (get_elem? d.mem p ≡ get_elem? log p) ⊎ Pending pusher p

-- The memory after a copy that is placed: the bytes of `log` in its range, the old ones elsewhere.
abbrev Copied : List ℕ → List ℕ → ℕ → List ℕ → Type 0
Copied log mem off bytes =
    (length (write_at mem off bytes) ≡ length mem)
    × ((p : ℕ)
        → off ≤ p
        → p < off + length bytes
        → get_elem? (write_at mem off bytes) p ≡ get_elem? log p)
    × ((p : ℕ)
        → (p < off) ⊎ (off + length bytes ≤ p)
        → get_elem? (write_at mem off bytes) p ≡ get_elem? mem p)

Placed-Copied :
    (log mem : List ℕ) (first off : ℕ) (bytes : List ℕ)
    → length log ≤ length mem
    → Placed log first off bytes
    → Copied log mem off bytes
Placed-Copied log mem first off bytes h (inl z) =
    let same : write_at mem off bytes ≡ mem = write_at_nil mem off bytes z in
    (ap length same, λ p l k. absurd (omega arith), λ p k. ap (λ m. get_elem? m p) same)
Placed-Copied log mem first off bytes h (inr (l, room, agree)) =
    let fits : off + length bytes ≤ length mem = omega arith in
    (
      length-write_at mem off bytes fits,
      λ p low high. get_elem?-write_at mem off bytes p fits low high ∙ agree p low high,
      λ p out. get_elem?-write_at_ne mem off bytes p fits out,
    )

region :
    (off : ℕ) (bytes : List ℕ) (p : ℕ)
    → ((off ≤ p) × (p < off + length bytes)) ⊎ ((p < off) ⊎ (off + length bytes ≤ p))
region off bytes p = elim (dec_lt p off) [
  | yes before ↦ inr (inl before)
  | no low ↦ elim (dec_lt p (off + length bytes)) [
    | yes high ↦ inl (omega arith, high)
    | no after ↦ inr (inr (omega arith))
  ]
]

module _ {d : LockFreeData} {pusher : ℕ → Pusher} {first : ℕ} {log : List ℕ}
    (inv : Holds d pusher first log) (i : ℕ) where
  -- A thread that does not copy still leaves what the others have to copy.
  still_pending :
      {q : Pusher} (p : Pusher) (x : ℕ)
      → pusher i ≡ q
      → ((off : ℕ) (bytes : List ℕ) → q ≡ copying off bytes → (x < off) ⊎ (off + length bytes ≤ x))
      → Pending pusher x
      → Pending (update pusher i p) x
  still_pending {q} p x e hq (j, off, bytes, c, low, high) = elim (ℕ_discrete i j) [
    | yes here ↦
        let own : q ≡ copying off bytes = sym e ∙ ap pusher here ∙ c in
        absurd (elim (hq off bytes own) [ inl a ↦ omega arith | inr b ↦ omega arith ])
    | no other ↦ (j, off, bytes, update-ne pusher i j p other ∙ c, low, high)
  ]

  -- A thread that does not copy goes where it does not copy either.
  pub Holds-aside :
      {q p : Pusher}
      → pusher i ≡ q
      → ((off : ℕ) (bytes : List ℕ) → q ≢ copying off bytes)
      → ((off : ℕ) (bytes : List ℕ) → p ≢ copying off bytes)
      → Holds d (update pusher i p) first log
  Holds-aside {q} {p} e hq hp = record {
    tail = inv.tail;
    fits = inv.fits;
    copies = λ j off bytes k. elim (ℕ_discrete i j) [
      | yes here ↦
          let own : p ≡ copying off bytes =
            sym (update-same pusher i p) ∙ ap (update pusher i p) here ∙ k in
          absurd (hp off bytes own)
      | no other ↦ inv.copies j off bytes (sym (update-ne pusher i j p other) ∙ k)
    ];
    written = λ x k. elim (inv.written x k) [
      | inl same ↦ inl same
      | inr c ↦ inr (still_pending p x e (λ off bytes own. absurd (hq off bytes own)) c)
    ];
  }

  pub Holds-exchange :
      {bytes : List ℕ} {old : ℕ}
      → pusher i ≡ testing bytes old
      → first ≤ d.data_tail
      → d.data_tail + length bytes ≤ capacity d
      → Holds
          (record d { data_tail = d.data_tail + length bytes })
          (update pusher i (copying d.data_tail bytes))
          first
          (log ++ bytes)
  Holds-exchange {bytes} {old} e low room = record {
    tail = omega (arith, length-append log bytes, inv.tail);
    fits = room;
    copies = λ j off other k. elim (ℕ_discrete i j) [
      | yes here ↦
          let own : copying d.data_tail bytes ≡ copying off other =
            sym (update-same pusher i now) ∙ ap (update pusher i now) here ∙ k in
          let starts : d.data_tail ≡ off = cc in
          let same : bytes ≡ other = cc in rw (sym starts, sym same) placed
      | no ne ↦ elim (inv.copies j off other (sym (update-ne pusher i j now ne) ∙ k)) [
        | inl z ↦ inl z
        | inr (above, below, agree) ↦ inr (
          above,
          omega (arith, length-append log bytes),
          λ p l h. agree p l h ∙ sym (get_elem?-append_lt log bytes p (omega arith)),
        )
      ]
    ];
    written = λ x k. elim (dec_lt x d.data_tail) [
      | yes before ↦ elim (inv.written x before) [
        | inl same ↦ inl (same ∙ sym (get_elem?-append_lt log bytes x (omega (arith, inv.tail))))
        | inr c ↦ inr (still_pending now x e (λ off other own. absurd cc) c)
      ]
      | no new ↦ inr (i, d.data_tail, bytes, update-same pusher i now, omega arith, k)
    ];
  }
    where
      now : Pusher
      now = copying d.data_tail bytes

      placed : Placed (log ++ bytes) first d.data_tail bytes
      placed = inr (
        low,
        omega (arith, length-append log bytes, inv.tail),
        λ p l h.
            let e : p - d.data_tail ≡ p - length log = omega (arith, inv.tail) in
            ap (get_elem? bytes) e
            ∙ sym (get_elem?-append_ge log bytes p (omega (arith, inv.tail))),
      )

  pub Holds-copy :
      {off : ℕ} {bytes : List ℕ}
      → pusher i ≡ copying off bytes
      → Holds (fill off bytes d) (update pusher i outside) first log
  unfolding fill
  Holds-copy {off} {bytes} e =
      let (same, inside, beside) =
        Placed-Copied log d.mem first off bytes (omega (arith, inv.tail, inv.fits))
          (inv.copies i off bytes e) in
      record {
        tail = inv.tail;
        fits = omega (arith, same, inv.fits);
        copies = λ j other more k. elim (ℕ_discrete i j) [
          | yes here ↦
              let own : outside ≡ copying other more =
                sym (update-same pusher i outside) ∙ ap (update pusher i outside) here ∙ k in
              absurd cc
          | no ne ↦ inv.copies j other more (sym (update-ne pusher i j outside ne) ∙ k)
        ];
        written = λ x k. elim (region off bytes x) [
          | inl (low, high) ↦ inl (inside x low high)
          | inr out ↦ elim (inv.written x k) [
            | inl eq ↦ inl (beside x out ∙ eq)
            | inr c ↦ inr (
                still_pending outside x e
                  (λ to those own.
                    let a : off ≡ to = cc in let b : bytes ≡ those = cc in rw (sym a, sym b) out)
                  c)
          ]
        ];
      }
