-- ===== src/World/BlockHistory/Commit.antt =====
-- Changes that are recorded, taken in a snapshot and committed, against changes of a map.
use mmocraft.Prelude.{
  ℕ, zero, suc, ◌+◌, ◌*◌, ◌%◌, ◌^◌, ◌≤◌, ◌<◌, ◌≡◌, refl, sym, ap, ◌∙◌, ◌≢◌, inl, inr, true, List,
  [], ◌∷◌, ◌++◌, append-nil, append_assoc, arith, ltb, if◌then◌else◌, Bool-cases, length, get_elem?,
  set, drop, length-append, length-set, drop-append, get_elem?-set_ne, All, All-append,
}
use mmocraft.Packet.Field.{Bytes, to_memory, of_memory, byteswap}
use mmocraft.Packet.Field.Scalars.{byteswap-of_memory-scalar}
use mmocraft.Buffer.Double
use mmocraft.Buffer.Double.{DoubleBuffering}
use mmocraft.World.BlockHistory.{
  Change, BlockHistoryRecord, WorldMetadata, record_bytes, add_record, get_record, history_size,
  coordinate_to_block_map_index, commit_record, commit_from, commit_block_changes,
  block_file_header_size, of_int,
}

-- The coordinates are 16-bit numbers, the block is a byte, and the products of the index do not
-- overflow an `int`.
pub record IsChange (m : WorldMetadata) (c : Change) : Type 0 where
  pub x_in : c.x < 2 ^ 16
  pub y_in : c.y < 2 ^ 16
  pub z_in : c.z < 2 ^ 16
  pub block_id_in : c.block_id < 2 ^ 8
  pub z_fits : m.width * c.z < 2 ^ 31
  pub y_fits : m.width * m.length * c.y < 2 ^ 31

index-fits :
    (x a b : ℕ)
    → x < 2 ^ 16
    → a < 2 ^ 31
    → b < 2 ^ 31
    → (block_file_header_size + x + of_int a + of_int b) % 2 ^ 64
      ≡ block_file_header_size + x + a + b
unfolding of_int
index-fits x a b h i j =
    let ea : a % 2 ^ 32 ≡ a = omega arith in
    let eb : b % 2 ^ 32 ≡ b = omega arith in
    let la : ltb a (2 ^ 31) ≡ true = ground arith in
    let lb : ltb b (2 ^ 31) ≡ true = ground arith in
    let total : (block_file_header_size + x + a + b) % 2 ^ 64 ≡ block_file_header_size + x + a + b =
      omega arith in
    rw (ea, eb, la, lb) total

-- A change sets one block of the map, if the index is below the volume.
abbrev pub apply_change : WorldMetadata → Change → List ℕ → List ℕ
apply_change m c blocks =
    let i = block_file_header_size + c.x + m.width * c.z + m.width * m.length * c.y in
    if ltb i m.volume then set blocks i c.block_id else blocks

abbrev pub apply_changes : WorldMetadata → List Change → List ℕ → List ℕ
apply_changes m [] blocks = blocks
apply_changes m (c ∷ cs) blocks = apply_changes m cs (apply_change m c blocks)

-- The history of a list of changes.
abbrev pub records : List Change → Bytes
records [] = []
records (c ∷ cs) = record_bytes c ++ records cs

length-record_bytes : (c : Change) → length (record_bytes c) ≡ 8
unfolding record_bytes to_memory
length-record_bytes c = refl

length-records : (cs : List Change) → length (records cs) ≡ 8 * length cs
length-records [] = omega arith
length-records (c ∷ cs) =
    omega
      (arith, length-append (record_bytes c) (records cs), length-record_bytes c, length-records cs)

records-append : (cs ds : List Change) → records (cs ++ ds) ≡ records cs ++ records ds
records-append [] ds = refl
records-append (c ∷ cs) ds =
    ap (λ t. record_bytes c ++ t) (records-append cs ds)
    ∙ sym (append_assoc (record_bytes c) (records cs) (records ds))

swapped : (v : ℕ) → v < 2 ^ 16 → byteswap 2 (of_memory (to_memory 2 (byteswap 2 v))) ≡ v
swapped v h = byteswap-of_memory-scalar 2 v (omega arith)

commit_record-bytes :
    (m : WorldMetadata) (c : Change) (pre rest : Bytes) (k : ℕ) (blocks : List ℕ)
    → length pre ≡ 8 * k
    → IsChange m c
    → commit_record m (get_record (pre ++ (record_bytes c ++ rest)) k) blocks
      ≡ apply_change m c blocks
unfolding commit_record get_record record_bytes to_memory coordinate_to_block_map_index
commit_record-bytes m c pre rest k blocks h v =
    let e : drop (k * 8) (pre ++ (record_bytes c ++ rest)) ≡ record_bytes c ++ rest =
      drop-append (k * 8) pre (record_bytes c ++ rest) (omega arith) in
    let b : c.block_id % 256 ≡ c.block_id = omega (arith, v.block_id_in) in
    rw (e, swapped c.x v.x_in, swapped c.y v.y_in, swapped c.z v.z_in, b)
      (rw (index-fits c.x (m.width * c.z) (m.width * m.length * c.y) v.x_in v.z_fits v.y_fits) refl)

commit_from-records :
    (m : WorldMetadata) (cs : List Change) (pre : Bytes) (k : ℕ) (blocks : List ℕ)
    → length pre ≡ 8 * k
    → All (IsChange m) cs
    → commit_from m (pre ++ records cs) (length cs) k blocks ≡ apply_changes m cs blocks
unfolding commit_from
commit_from-records m [] pre k blocks h v = refl
commit_from-records m (c ∷ cs) pre k blocks h v =
    let here : Bytes = pre ++ record_bytes c in
    let size : length here ≡ 8 * suc k =
      omega (arith, length-append pre (record_bytes c), length-record_bytes c) in
    let history : Bytes = pre ++ (record_bytes c ++ records cs) in
    let next : List ℕ = apply_change m c blocks in
    ap (commit_from m history (length cs) (suc k))
      (commit_record-bytes m c pre (records cs) k blocks h v.0)
    ∙ ap (λ t. commit_from m t (length cs) (suc k) next)
        (sym (append_assoc pre (record_bytes c) (records cs)))
    ∙ commit_from-records m cs here (suc k) next size v.1

commit-records :
    (m : WorldMetadata) (cs : List Change) (blocks : List ℕ)
    → All (IsChange m) cs
    → commit_block_changes m (records cs) blocks ≡ apply_changes m cs blocks
unfolding commit_block_changes
commit-records m cs blocks v =
    let n : history_size (records cs) ≡ length cs = omega (arith, length-records cs) in
    rw n (commit_from-records m cs [] 0 blocks refl v)

-- A change that add_record accepts, for a history whose live data are the records of some changes, is
-- after the next snapshot committed to the map of blocks behind these changes, in their order: its
-- coordinates are not altered, and its block is set if its index is below the volume. A change
-- that add_record does not accept leaves the changes before as they are. The coordinates are such that
-- the products of the index stay below 2 ^ 31.
pub commit-add_record :
    (m : WorldMetadata) (d : DoubleBuffering) (cs : List Change) (c : Change) (blocks : List ℕ)
    → Double.IsValid d
    → Double.live_data d ≡ records cs
    → All (IsChange m) cs
    → IsChange m c
    → commit_block_changes m (Double.get_snapshot_data (Double.snapshot (add_record d c).0)) blocks
      ≡ apply_changes m (if (add_record d c).1 then cs ++ (c ∷ []) else cs) blocks
unfolding add_record
commit-add_record m d cs c blocks v live all ok =
    let (pushed, _, valid, _) = Double.live_data-push d (record_bytes c) v in
    let (_, taken, _, _, _, _) = Double.snapshot_lem (Double.push d (record_bytes c)).0 valid in
    elim (Bool-cases (Double.push d (record_bytes c)).1) [
      | inl done ↦
          let more : Double.live_data d ++ record_bytes c ≡ records (cs ++ (c ∷ [])) =
            ap (λ t. t ++ record_bytes c) live
            ∙ ap (◌++◌ (records cs)) (sym (append-nil (record_bytes c)))
            ∙ sym (records-append cs (c ∷ [])) in
          rw (taken, pushed, done, more)
            (commit-records m (cs ++ (c ∷ [])) blocks
              (All-append (IsChange m) cs (c ∷ []) all (ok, tt)))
      | inr full ↦ rw (taken, pushed, full, live) (commit-records m cs blocks all)
    ]

length-commit_record :
    (m : WorldMetadata) (r : BlockHistoryRecord) (blocks : List ℕ)
    → length (commit_record m r blocks) ≡ length blocks
unfolding commit_record
length-commit_record m r blocks =
    ground (arith, length-set blocks (coordinate_to_block_map_index m r.x r.y r.z) r.block_id)

commit_record-past :
    (m : WorldMetadata) (r : BlockHistoryRecord) (blocks : List ℕ) (i : ℕ)
    → m.volume ≤ i
    → get_elem? (commit_record m r blocks) i ≡ get_elem? blocks i
unfolding commit_record
commit_record-past m r blocks i h =
    let k : ℕ = coordinate_to_block_map_index m r.x r.y r.z in
    elim (Bool-cases (ltb k m.volume)) [
      | inl below ↦
          let apart : k ≢ i = ground arith in
          rw below (get_elem?-set_ne blocks k i r.block_id apart)
      | inr past ↦ rw past refl
    ]

commit_from-past :
    (m : WorldMetadata) (history : Bytes) (n k : ℕ) (blocks : List ℕ) (i : ℕ)
    → m.volume ≤ i
    → (length (commit_from m history n k blocks) ≡ length blocks)
      × (get_elem? (commit_from m history n k blocks) i ≡ get_elem? blocks i)
unfolding commit_from
commit_from-past m history zero k blocks i h = (refl, refl)
commit_from-past m history (suc n) k blocks i h =
    let r : BlockHistoryRecord = get_record history k in
    let (size, same) = commit_from-past m history n (suc k) (commit_record m r blocks) i h in
    (size ∙ length-commit_record m r blocks, same ∙ commit_record-past m r blocks i h)

-- Committing any history keeps the size of the mapped file and changes no byte from the position
-- `volume` on, though the last of the `volume` blocks lie there, behind the header of 4 bytes.
pub commit_block_changes-past :
    (m : WorldMetadata) (history : Bytes) (blocks : List ℕ) (i : ℕ)
    → m.volume ≤ i
    → (length (commit_block_changes m history blocks) ≡ length blocks)
      × (get_elem? (commit_block_changes m history blocks) i ≡ get_elem? blocks i)
unfolding commit_block_changes
commit_block_changes-past m history blocks i h =
    commit_from-past m history (history_size history) 0 blocks i h
