-- ===== src/Login/Verdict.antt =====
-- Who is let in, and which earlier connection is reported.
use mmocraft.Prelude.{
  ℕ, ◌≡◌, refl, ap, ◌∙◌, ◌≢◌, ◌⊎◌, inl, inr, true, false, [], ◌∷◌, arith, ◌==◌, Bool-cases,
}
use mmocraft.Code
use mmocraft.Packet.Field.{Bytes}
use mmocraft.Packet.Extension.{bytes_eq}
use mmocraft.Login.{
  Database, PlayerLogin, PacketHandshakeResponse, Reply, found, document_not_found, failed, log_in,
  update_session, login_failed, login_succeeded,
}

pub bytes_eq_refl : (s : Bytes) → bytes_eq s s ≡ true
unfolding bytes_eq
bytes_eq_refl [] = refl
bytes_eq_refl (a ∷ s) = let same : (a == a) ≡ true = ground arith in rw (same) (bytes_eq_refl s)

bytes_eq→≡ : (s t : Bytes) → bytes_eq s t ≡ true → s ≡ t
unfolding bytes_eq
bytes_eq→≡ [] [] h = refl
bytes_eq→≡ [] (b ∷ t) h = absurd (cc)
bytes_eq→≡ (a ∷ s) [] h = absurd (cc)
bytes_eq→≡ (a ∷ s) (b ∷ t) h = elim (Bool-cases (a == b)) [
  | inl same ↦
      let e : a ≡ b = ground arith in
      let rest : bytes_eq s t ≡ true = simp (same) at h in rw (e, bytes_eq→≡ s t rest) refl
  | inr other ↦ let wrong : false ≡ true = simp (other) at h in absurd (cc)
]

pub Reply-cases :
    {A : Type 0} (r : Reply A)
    → ((a : A) × (r ≡ found a)) ⊎ ((r ≡ document_not_found) ⊎ (r ≡ failed))
Reply-cases (found a) = inl (a, refl)
Reply-cases document_not_found = inr (inl refl)
Reply-cases failed = inr (inr refl)

module _ {D : Type 0} (db : Database D) where
  -- The player is let in as the one that the database holds under the name, with the same password;
  -- or there is no such login, and neither is the database changed nor an identity given away.
  pub data Verdict (d : D) (name password : Bytes) : D × PacketHandshakeResponse → Type 0 where
    accepted :
        (l : PlayerLogin) (next : D) (r : PacketHandshakeResponse)
        → db.get_login d name ≡ found l
        → l.password ≡ password
        → r.error_code ≡ Code.success
        → r.player_uuid ≡ l.identity
        → Verdict d name password (next, r)
    refused :
        (r : PacketHandshakeResponse)
        → ((l : PlayerLogin) → db.get_login d name ≡ found l → l.password ≢ password)
        → r.error_code ≢ Code.success
        → r.player_uuid ≡ []
        → Verdict d name password (d, r)

  update_session_lem :
      (d : D) (key : ℕ) (name : Bytes) (r : PacketHandshakeResponse)
      → ((update_session db d key name r).1.error_code ≡ r.error_code)
        × ((update_session db d key name r).1.player_uuid ≡ r.player_uuid)
  unfolding update_session
  update_session_lem d key name r = elim (Reply-cases (db.get_session d name)) [
    | inl (prev, e) ↦ rw (update_session, e) (refl, refl)
    | inr (inl e) ↦ rw (update_session, e) (refl, refl)
    | inr (inr e) ↦ rw (update_session, e) (refl, refl)
  ]

  -- log_in accepts a handshake exactly with the name and the password of a login of the database,
  -- and answers with that player's identity; otherwise it answers with an error, changes nothing
  -- in the database, and gives no identity.
  pub log_in-Verdict :
      (d : D) (key : ℕ) (name password : Bytes)
      → Verdict d name password (log_in db d key name password)
  unfolding log_in
  log_in-Verdict d key name password = elim (Reply-cases (db.get_login d name)) [
    | inl (l, e) ↦ elim (Bool-cases (bytes_eq l.password password)) [
      | inl same ↦
          let (error, uuid) = update_session_lem d key name (login_succeeded key l) in
          rw (log_in, e, same)
            (accepted l (update_session db d key name (login_succeeded key l)).0
              (update_session db d key name (login_succeeded key l)).1 e
              (bytes_eq→≡ l.password password same) error uuid)
      | inr other ↦
          rw (log_in, e, other)
            (refused (login_failed key)
              (λ l2 e2 same.
                let one : l ≡ l2 = cc in
                let equal : bytes_eq l.password password ≡ true =
                  rw (ap (λ x. x.password) one ∙ same) (bytes_eq_refl password) in
                absurd (cc))
              (omega arith) refl)
    ]
    | inr (inl e) ↦
        rw (log_in, e)
          (refused (record (login_failed key) { error_code = Code.player_not_exist })
            (λ l e2. absurd (cc)) (omega arith) refl)
    | inr (inr e) ↦
        rw (log_in, e) (refused (login_failed key) (λ l e2. absurd (cc)) (omega arith) refl)
  ]
