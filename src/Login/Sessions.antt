-- ===== src/Login/Sessions.antt =====
-- A player that logs in twice.
use mmocraft.Prelude.{ℕ, ◌≡◌, refl, sym, ◌∙◌, ◌≢◌, inl, inr, true, arith, Bool-cases}
use mmocraft.Code
use mmocraft.Packet.Field.{Bytes}
use mmocraft.Packet.Extension.{bytes_eq}
use mmocraft.Login.{
  Database, Keeps, PlayerLogin, PacketHandshakeResponse, found, failed, log_in, update_session,
  login_succeeded,
}
use mmocraft.Login.Verdict.{Reply-cases}

module _ {D : Type 0} (db : Database D) where
  -- A log-in that succeeds is that of a login in the database.
  log_in_as :
      (d : D) (key : ℕ) (name password : Bytes)
      → (log_in db d key name password).1.error_code ≡ Code.success
      → (l : PlayerLogin) × (db.get_login d name ≡ found l) × (bytes_eq l.password password ≡ true)
  unfolding log_in
  log_in_as d key name password h = elim (Reply-cases (db.get_login d name)) [
    | inl (l, e) ↦ elim (Bool-cases (bytes_eq l.password password)) [
      | inl same ↦ (l, e, same)
      | inr other ↦
          let wrong : Code.player_login_fail ≡ Code.success = simp (log_in, e, other) at h in
          absurd (omega (arith, wrong))
    ]
    | inr (inl e) ↦
        let wrong : Code.player_not_exist ≡ Code.success = simp (log_in, e) at h in
        absurd (omega (arith, wrong))
    | inr (inr e) ↦
        let wrong : Code.player_login_fail ≡ Code.success = simp (log_in, e) at h in
        absurd (omega (arith, wrong))
  ]

  log_in_same :
      (d : D) (key : ℕ) (name password : Bytes) (l : PlayerLogin)
      → db.get_login d name ≡ found l
      → bytes_eq l.password password ≡ true
      → log_in db d key name password ≡ update_session db d key name (login_succeeded key l)
  unfolding log_in
  log_in_same d key name password l e same = rw (log_in, e, same) refl

  updated :
      (d : D) (key : ℕ) (name : Bytes) (r : PacketHandshakeResponse)
      → db.get_session d name ≢ failed
      → ((update_session db d key name r).0 ≡ (db.upsert_session d name key).0)
        × ((update_session db d key name r).1.player_uuid ≡ r.player_uuid)
  unfolding update_session
  updated d key name r h = elim (Reply-cases (db.get_session d name)) [
    | inl (prev, e) ↦ rw (update_session, e) (refl, refl)
    | inr (inl e) ↦ rw (update_session, e) (refl, refl)
    | inr (inr e) ↦ absurd (h e)
  ]

  updated_again :
      (d : D) (key prev : ℕ) (name : Bytes) (r : PacketHandshakeResponse)
      → db.get_session d name ≡ found prev
      → (update_session db d key name r).1 ≡ record r { prev_connection_key = prev }
  unfolding update_session
  updated_again d key prev name r e = rw (update_session, e) refl

  -- After a log-in that succeeds and whose session is stored, a log-in with the same name and
  -- password from another connection succeeds as the same player, and the answer names the first
  -- connection as the earlier one.
  pub log_in-log_in :
      (d : D) (key1 key2 : ℕ) (name password : Bytes)
      → Keeps db
      → (log_in db d key1 name password).1.error_code ≡ Code.success
      → db.get_session d name ≢ failed
      → (db.upsert_session d name key1).1 ≡ true
      → let (d1, r1) = log_in db d key1 name password in
        let r2 = (log_in db d1 key2 name password).1 in
        (r2.error_code ≡ Code.success)
        × (r2.prev_connection_key ≡ key1)
        × (r2.connection_key ≡ key2)
        × (r2.player_uuid ≡ r1.player_uuid)
  log_in-log_in d key1 key2 name password keeps good readable stored =
      let (l, e, same) = log_in_as d key1 name password good in
      let d1 : D = (db.upsert_session d name key1).0 in
      let first = log_in_same d key1 name password l e same in
      let (state, uuid) = updated d key1 name (login_succeeded key1 l) readable in
      let second = log_in_same d1 key2 name password l (keeps.logins d name key1 name ∙ e) same in
      let last =
        updated_again d1 key2 key1 name (login_succeeded key2 l)
          (keeps.session d name key1 stored) in
      rw (first, state, second, last) (refl, refl, refl, sym uuid)
