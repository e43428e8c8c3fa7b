-- ===== src/Packet/Movement/Client.antt =====
-- PacketSetPlayerPosition::serialize seen by a client, which keeps the position of each player that
-- it was told last. `receive` is the client's side of the classic protocol: an absolute position
-- replaces the one kept, a relative one adds signed bytes to its coordinate.
use mmocraft.Prelude.{
  ℕ, ◌+◌, ◌*◌, ◌%◌, ◌^◌, ◌<◌, ◌≡◌, refl, sym, ap, ◌∙◌, ◌≢◌, ◌⊎◌, inl, inr, true, false, not, ◌&&◌,
  [], ◌∷◌, arith, ltb, ◌==◌, if◌then◌else◌, Bool-cases, get_or,
}
use mathlib.Core.Path.{subst}
use mmocraft.Packet.Id
use mmocraft.Packet.Field.{Bytes, write_byte, write_scalar}
use mmocraft.Player.{Player}
use mmocraft.Player.Position.{
  View, view, of_view, diff, abs16, raw_coordinate, raw_orientation, u16, sub16, sub8,
}
use mmocraft.Player.Position.Fields.{
  InRange, view-InRange, view-of_view, raw_coordinate-zero, raw_orientation-zero,
}
use mmocraft.Packet.Movement.{
  write_absolute, write_move, write_coordinate_change, write_turn, is_far, write_position,
}

-- A coordinate moved by a signed byte.
abbrev pub moved : ℕ → ℕ → ℕ
moved a b = u16 (a + (if ltb b 128 then b else b + 65280))

abbrev pub moved_coordinate : View → Bytes → View
moved_coordinate v bs = record v {
  x = moved v.x (get_or bs 1 0);
  y = moved v.y (get_or bs 2 0);
  z = moved v.z (get_or bs 3 0);
}

-- The list is the packet after its id: the player, then the fields.
unfoldable pub receive : View → Bytes → View
receive v [] = v
receive v (id ∷ bs) =
    if id == Id.set_player_position
    then record {
      x = get_or bs 1 0 * 256 + get_or bs 2 0;
      y = get_or bs 3 0 * 256 + get_or bs 4 0;
      z = get_or bs 5 0 * 256 + get_or bs 6 0;
      yaw = get_or bs 7 0;
      pitch = get_or bs 8 0;
    }
    else if id == Id.update_player_position
    then record (moved_coordinate v bs) { yaw = get_or bs 4 0; pitch = get_or bs 5 0 }
    else if id == Id.update_player_coordinate
    then moved_coordinate v bs
    else if id == Id.update_player_orientation
    then record v { yaw = get_or bs 1 0; pitch = get_or bs 2 0 }
    else v

receive_absolute : (p : Player) (r v : View) → InRange v → receive r (write_absolute [] p v) ≡ v
unfolding receive write_absolute write_byte write_scalar
receive_absolute p r v h = ground arith

-- The difference of two views, field by field.
abbrev difference : View → View → View
difference v r = record {
  x = sub16 v.x r.x;
  y = sub16 v.y r.y;
  z = sub16 v.z r.z;
  yaw = sub8 v.yaw r.yaw;
  pitch = sub8 v.pitch r.pitch;
}

difference-InRange : (v r : View) → InRange (difference v r)
difference-InRange v r = omega arith

view-diff : (a b : ℕ) → view (diff a b) ≡ difference (view a) (view b)
unfolding diff
view-diff a b = view-of_view (difference (view a) (view b)) (difference-InRange (view a) (view b))

-- A signed byte carries a difference of fewer than 128 either way.
moved-sub16 :
    (a b : ℕ) → a < 2 ^ 16 → b < 2 ^ 16 → abs16 (sub16 a b) < 128 → moved b (sub16 a b % 256) ≡ a
unfolding abs16
moved-sub16 a b ha hb h = ground arith

-- The difference can be told to a client: it is far by the test of the source, or its `z` fits a
-- signed byte.
abbrev pub IsTellable : View → Type 0
IsTellable d = (is_far d ≡ true) ⊎ (abs16 d.z < 128)

module _ (p : Player) (v r : View) (hv : InRange v) (hr : InRange r) where
  receive_move :
      abs16 (sub16 v.x r.x) < 128
      → abs16 (sub16 v.y r.y) < 128
      → abs16 (sub16 v.z r.z) < 128
      → receive r (write_move [] p v (difference v r)) ≡ v
  unfolding receive write_move write_byte
  receive_move x y z = ground (
    arith,
    moved-sub16 v.x r.x hv.x_in hr.x_in x,
    moved-sub16 v.y r.y hv.y_in hr.y_in y,
    moved-sub16 v.z r.z hv.z_in hr.z_in z,
  )

  receive_coordinate_change :
      abs16 (sub16 v.x r.x) < 128
      → abs16 (sub16 v.y r.y) < 128
      → abs16 (sub16 v.z r.z) < 128
      → raw_orientation (of_view (difference v r)) ≡ 0
      → receive r (write_coordinate_change [] p (difference v r)) ≡ v
  unfolding receive write_coordinate_change write_byte
  receive_coordinate_change x y z o = ground (
    arith,
    moved-sub16 v.x r.x hv.x_in hr.x_in x,
    moved-sub16 v.y r.y hv.y_in hr.y_in y,
    moved-sub16 v.z r.z hv.z_in hr.z_in z,
    (raw_orientation-zero (difference v r) (difference-InRange v r)).0 o,
  )

  receive_turn : raw_coordinate (of_view (difference v r)) ≡ 0 → receive r (write_turn [] p v) ≡ v
  unfolding receive write_turn write_byte
  receive_turn c =
      ground (arith, (raw_coordinate-zero (difference v r) (difference-InRange v r)).0 c)

  receive_nothing :
      raw_coordinate (of_view (difference v r)) ≡ 0
      → raw_orientation (of_view (difference v r)) ≡ 0
      → receive r [] ≡ v
  unfolding receive
  receive_nothing c o = ground (
    arith,
    (raw_coordinate-zero (difference v r) (difference-InRange v r)).0 c,
    (raw_orientation-zero (difference v r) (difference-InRange v r)).0 o,
  )

not_far : (d : View) → is_far d ≡ false → (abs16 d.x < 128) × (abs16 d.y < 128)
unfolding is_far
not_far d h = ground arith

-- The branches of write_position, at a difference `d` of two views.
branches : Bytes → Player → View → View → ℕ → Bytes
branches buf p v w d =
    if is_far w
    then write_absolute buf p v
    else if not (raw_coordinate d == 0) && not (raw_orientation d == 0)
    then write_move buf p v w
    else if not (raw_coordinate d == 0)
    then write_coordinate_change buf p w
    else if not (raw_orientation d == 0)
    then write_turn buf p v
    else buf

receive-branches :
    (p : Player) (v r : View)
    → InRange v
    → InRange r
    → IsTellable (difference v r)
    → receive r (branches [] p v (difference v r) (of_view (difference v r))) ≡ v
unfolding branches
receive-branches p v r hv hr t = elim (Bool-cases (is_far (difference v r))) [
  | inl far ↦ rw far (receive_absolute p r v hv)
  | inr near ↦
      let (x, y) = not_far (difference v r) near in
      let z : abs16 (sub16 v.z r.z) < 128 = ground arith in
      rw near (
        ground (
          arith,
          receive_move p v r hv hr x y z,
          receive_coordinate_change p v r hv hr x y z,
          receive_turn p v r hv hr,
          receive_nothing p v r hv hr,
        ))
]

-- A client that keeps the position of a player that was transferred last, and gets what
-- PacketSetPlayerPosition::serialize writes for the player, has the player's latest position,
-- provided the difference is far by the test of the source or its `z` lies within 127.
pub receive-write_position :
    (p : Player)
    → IsTellable (view (diff p.gamedata.latest_pos p.last_transferred_pos))
    → receive (view p.last_transferred_pos) (write_position [] p) ≡ view p.gamedata.latest_pos
unfolding write_position branches diff
receive-write_position p t =
    let a : ℕ = p.gamedata.latest_pos in
    let b : ℕ = p.last_transferred_pos in
    ap (λ w. receive (view b) (branches [] p (view a) w (diff a b))) (view-diff a b)
    ∙ receive-branches p (view a) (view b) (view-InRange a) (view-InRange b)
        (subst IsTellable (view-diff a b) t)

moved-sub16_ne :
    (a b : ℕ) → a < 2 ^ 16 → b < 2 ^ 16 → 128 < abs16 (sub16 a b) → moved b (sub16 a b % 256) ≢ a
unfolding abs16
moved-sub16_ne a b ha hb h e = ground arith

branches_z :
    (p : Player) (v r : View)
    → InRange v
    → InRange r
    → is_far (difference v r) ≡ false
    → 128 < abs16 (difference v r).z
    → (receive r (branches [] p v (difference v r) (of_view (difference v r)))).z
      ≡ moved r.z (sub16 v.z r.z % 256)
unfolding branches receive write_move write_coordinate_change write_byte
branches_z p v r hv hr near h =
    let zero : abs16 0 ≡ 0 = unfold abs16 in refl in
    let moves : raw_coordinate (of_view (difference v r)) ≢ 0 = λ c. absurd (
      omega (
        arith,
        h,
        zero,
        ap abs16 ((raw_coordinate-zero (difference v r) (difference-InRange v r)).0 c).2,
      )) in
    ground (arith, near, moves)

-- If the difference is not far by the test of the source, but its `z` is more than 128, the client
-- is left with a wrong `z`: the test should have named `z` in its third place.
pub receive-write_position_ne :
    (p : Player)
    → is_far (view (diff p.gamedata.latest_pos p.last_transferred_pos)) ≡ false
    → 128 < abs16 (view (diff p.gamedata.latest_pos p.last_transferred_pos)).z
    → (receive (view p.last_transferred_pos) (write_position [] p)).z
      ≢ (view p.gamedata.latest_pos).z
unfolding write_position branches diff
receive-write_position_ne p near h e =
    let a : ℕ = p.gamedata.latest_pos in
    let b : ℕ = p.last_transferred_pos in
    let near' : is_far (difference (view a) (view b)) ≡ false =
      subst (λ w. is_far w ≡ false) (view-diff a b) near in
    let h' : 128 < abs16 (difference (view a) (view b)).z =
      subst (λ w. 128 < abs16 w.z) (view-diff a b) h in
    let told : (receive (view b) (write_position [] p)).z
        ≡ moved (view b).z (sub16 (view a).z (view b).z % 256) =
      ap (λ w. (receive (view b) (branches [] p (view a) w (diff a b))).z) (view-diff a b)
      ∙ branches_z p (view a) (view b) (view-InRange a) (view-InRange b) near' h' in
    moved-sub16_ne (view a).z (view b).z (view-InRange a).z_in (view-InRange b).z_in h'
      (sym told ∙ e)
