-- ===== src/Postgres/Revocation.antt =====
-- Revoked sessions under the statements of internal/auth/postgres/queries.
use passwordless_auth_servic.Prelude.{
  String, Bool, false, some, List, [], ◌∷◌, ◌++◌, any, find, update, ◌==◌, ◌≡◌, refl, ◌⊎◌, inl, inr,
  Bool-cases,
}
use passwordless_auth_servic.Auth.Domain.{Session, is_nil}
use passwordless_auth_servic.Platform.World.{Db}
use passwordless_auth_servic.Platform.Uow.Keeps.{Leaves}
use passwordless_auth_servic.Postgres.Accounts.{clashes}
use passwordless_auth_servic.Postgres.Verifications.{has_id}
use passwordless_auth_servic.Postgres.Sessions.{
  has_token_hash, session_clashes, account_exists_in, is_live, session_create,
}
use passwordless_auth_servic.Postgres.Keeps.{Stable}
use passwordless_auth_servic.Postgres.Integrity.{same_event}

-- The row that a token's hash finds is a revoked session.
abbrev pub IsRevoked : String → Db → Type 0
IsRevoked token_hash d =
    (s : Session) × (find (has_token_hash token_hash) d.sessions ≡ some s)
    × (is_nil s.revoked_at ≡ false)

module _ {ℓ} {A : Type ℓ} (p : A → Bool) where
  find-snoc : (xs : List A) (y : A) {x : A} → find p xs ≡ some x → find p (xs ++ y ∷ []) ≡ some x
  find-snoc [] y e = absurd (cc)
  find-snoc (z ∷ xs) y e = elim (Bool-cases (p z)) [
    | inl here ↦ rw here (rw here at e)
    | inr other ↦ rw other (find-snoc xs y (rw other at e))
  ]

  -- An update that the test does not see leaves what the test finds, or changes it.
  pub find-update :
      (q : A → Bool) (f : A → A)
      → ((x : A) → p (f x) ≡ p x)
      → (xs : List A) {x : A} → find p xs ≡ some x
      → (find p (update q f xs) ≡ some x) ⊎ (find p (update q f xs) ≡ some (f x))
  find-update q f same [] e = absurd (cc)
  find-update q f same (z ∷ xs) {x} e = elim (Bool-cases (q z)) [
    | inl changed ↦ elim (Bool-cases (p z)) [
      | inl here ↦ let is_z = rw here at e in rw (changed, same z, here) (inr (cc))
      | inr other ↦ rw (changed, same z, other) (find-update q f same xs (rw other at e))
    ]
    | inr kept ↦ elim (Bool-cases (p z)) [
      | inl here ↦ rw (kept, here) (inl (rw here at e))
      | inr other ↦ rw (kept, other) (find-update q f same xs (rw other at e))
    ]
  ]

module _ (token_hash : String) where
  updated :
      (q : Session → Bool) (f : Session → Session) (d : Db)
      → ((s : Session) → (f s).token_hash ≡ s.token_hash)
      → ((s : Session) → is_nil s.revoked_at ≡ false → is_nil (f s).revoked_at ≡ false)
      → IsRevoked token_hash d
      → IsRevoked token_hash (record d { sessions = update q f d.sessions })
  updated q f d same keeps (s, row, over) =
      elim (find-update (has_token_hash token_hash) q f (λ t. rw (same t) refl) d.sessions row) [
        | inl row' ↦ (s, row', over)
        | inr row' ↦ (f s, row', keeps s over)
      ]

  session_created :
      (s : Session) (d : Db)
      → IsRevoked token_hash d
      → Leaves (IsRevoked token_hash) (session_create s d)
  session_created s d (t, row, over) = elim (Bool-cases (any (session_clashes s) d.sessions)) [
    | inl clash ↦ rw clash tt
    | inr fresh ↦ rw fresh (elim (Bool-cases (account_exists_in s.account_id d)) [
      | inr orphan ↦ rw orphan tt
      | inl owned ↦ rw owned (t, find-snoc (has_token_hash token_hash) d.sessions s row, over)
    ])
  ]

  pub IsRevoked-Stable : Stable (IsRevoked token_hash)
  IsRevoked-Stable = record {
    outside = record {
      under_account_create = λ a d h. elim (Bool-cases (any (clashes a) d.accounts)) [
        | inl e ↦ rw e tt
        | inr e ↦ rw e h
      ];
      under_session_create = session_created;
      under_session_update = λ s d h.
          updated (λ t. t.id == s.id)
            (λ t. record t { last_active_at = s.last_active_at; expires_at = s.expires_at }) d
            (λ t. refl) (λ t over. over) h;
      under_session_revoke = λ other now d h.
          updated (is_live other) (λ t. record t { revoked_at = some now }) d (λ t. refl)
            (λ t over. refl) h;
      under_audit_event_create = λ e d h. elim (Bool-cases (any (same_event e) d.audit_events)) [
        | inl clash ↦ rw clash tt
        | inr fresh ↦ rw fresh (elim (Bool-cases (account_exists_in e.target_account_id d)) [
          | inl owned ↦ rw owned h
          | inr orphan ↦ rw orphan tt
        ])
      ];
    };
    under_verification_create = λ v d h. elim (Bool-cases (any (has_id v.id) d.verifications)) [
      | inl e ↦ rw e tt
      | inr e ↦ rw e h
    ];
    under_verification_update = λ v d h. h;
  }
