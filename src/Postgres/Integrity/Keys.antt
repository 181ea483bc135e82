-- ===== src/Postgres/Integrity/Keys.antt =====
-- The unique keys and the references that migrations/ declares, key by key, apart from the tests with which
-- the statements enforce them.
use mathlib.Core.Option.{some-injective}
use passwordless_auth_servic.Prelude.{
  ℕ, sym, ap, Bool, false, Option, none, some, String, ◌||◌, ◌==◌, ==_iff, str_eq, eq_iff, ◌≡◌, ◌≢◌,
  refl, ◌⊎◌, inl, inr, Bool-cases, arith,
}
use passwordless_auth_servic.Auth.Domain.{Account, Session}
use passwordless_auth_servic.Platform.World.{Db}
use passwordless_auth_servic.Postgres.Accounts.{clashes, same_subject}
use passwordless_auth_servic.Postgres.Verifications.{has_id}
use passwordless_auth_servic.Postgres.Sessions.{session_clashes}
use passwordless_auth_servic.Postgres.Integrity.{IsSound, same_event}
use passwordless_auth_servic.Postgres.Integrity.Rows.{All, All-mono}
use passwordless_auth_servic.Postgres.Integrity.Pairs.{
  Unique, UniqueOrNull, Has, Distinct-Pairs, Pairs-Distinct, Pairs-both, Pairs-mono, any-Has,
  Has-any,
}

-- No two accounts share an id, a phone or a Google subject, no two challenges an id, no two sessions an id
-- or a token hash, no two audit events an id, and each session and each audit event has its account.
pub record IsIntact (d : Db) : Type 0 where
  pub account_ids : Unique (λ a. a.id) d.accounts
  pub account_phones : Unique (λ a. a.phone) d.accounts
  pub google_subjects : UniqueOrNull (λ a. a.google_subject) d.accounts
  pub challenge_ids : Unique (λ v. v.id) d.verifications
  pub session_ids : Unique (λ s. s.id) d.sessions
  pub token_hashes : Unique (λ s. s.token_hash) d.sessions
  pub event_ids : Unique (λ e. e.id) d.audit_events
  pub sessions_owned : All (λ s. Has (λ (a : Account). a.id ≡ s.account_id) d.accounts) d.sessions
  pub events_owned :
      All (λ e. Has (λ (a : Account). a.id ≡ e.target_account_id) d.accounts) d.audit_events

neither : (a b : Bool) → (a || b) ≡ false → (a ≡ false) × (b ≡ false)
neither a b h = ground arith

none_of_three : (a b c : Bool) → (a || b || c) ≡ false → (a ≡ false) × (b ≡ false) × (c ≡ false)
none_of_three a b c h = ground arith

id_apart : (k l : ℕ) → (k == l) ≡ false → k ≢ l
id_apart k l differ = ground arith

id_clear : (k l : ℕ) → k ≢ l → (k == l) ≡ false
id_clear k l differ = ground arith

text_apart : (s t : String) → str_eq s t ≡ false → s ≢ t
text_apart s t differ same = let equal = (eq_iff s t).1 same in cc

text_clear : (s t : String) → s ≢ t → str_eq s t ≡ false
text_clear s t differ = elim (Bool-cases (str_eq s t)) [
  | inl equal ↦ absurd (differ ((eq_iff s t).0 equal))
  | inr other ↦ other
]

subject_apart : (o p : Option String) → same_subject o p ≡ false → (o ≡ none) ⊎ (o ≢ p)
subject_apart none p differ = inl refl
subject_apart (some s) none differ = inr (λ same. cc)
subject_apart (some s) (some t) differ =
    inr (λ same. text_apart s t differ (some-injective _ _ same))

subject_clear : (o p : Option String) → (o ≡ none) ⊎ (o ≢ p) → same_subject o p ≡ false
subject_clear none p apart = refl
subject_clear (some s) none apart = refl
subject_clear (some s) (some t) (inl absent) = absurd (cc)
subject_clear (some s) (some t) (inr differ) = text_clear s t (λ same. differ (ap some same))

abbrev KeysDiffer : Account → Account → Type 0
KeysDiffer a b =
    (a.id ≢ b.id)
    × ((a.phone ≢ b.phone) × ((a.google_subject ≡ none) ⊎ (a.google_subject ≢ b.google_subject)))

account_apart : (a b : Account) → clashes a b ≡ false → KeysDiffer a b
account_apart a b clear =
    let (ids, phones, subjects) = none_of_three (a.id == b.id) (str_eq a.phone b.phone) _ clear in
    (
      id_apart a.id b.id ids,
      (text_apart a.phone b.phone phones, subject_apart a.google_subject b.google_subject subjects),
    )

account_clear : (a b : Account) → KeysDiffer a b → clashes a b ≡ false
account_clear a b (ids, (phones, subjects)) =
    rw
      (
        id_clear a.id b.id ids,
        text_clear a.phone b.phone phones,
        subject_clear a.google_subject b.google_subject subjects,
      )
      refl

session_apart :
    (s t : Session) → session_clashes s t ≡ false → (s.id ≢ t.id) × (s.token_hash ≢ t.token_hash)
session_apart s t clear =
    let (ids, hashes) = neither (t.id == s.id) _ clear in
    (
      λ same. id_apart t.id s.id ids (sym same),
      λ same. text_apart t.token_hash s.token_hash hashes (sym same),
    )

session_clear :
    (s t : Session) → (s.id ≢ t.id) × (s.token_hash ≢ t.token_hash) → session_clashes s t ≡ false
session_clear s t (ids, hashes) =
    rw
      (
        id_clear t.id s.id (λ same. ids (sym same)),
        text_clear t.token_hash s.token_hash (λ same. hashes (sym same)),
      )
      refl

pub IsSound-IsIntact : (d : Db) → IsSound d → IsIntact d
IsSound-IsIntact d h =
    let accounts = Distinct-Pairs clashes _ d.accounts account_apart h.accounts_distinct in
    let sessions = Distinct-Pairs session_clashes _ d.sessions session_apart h.sessions_distinct in
    record {
      account_ids = Pairs-mono _ _ d.accounts (λ a b apart. apart.0) accounts;
      account_phones = Pairs-mono _ _ d.accounts (λ a b apart. apart.1.0) accounts;
      google_subjects = Pairs-mono _ _ d.accounts (λ a b apart. apart.1.1) accounts;
      challenge_ids =
          Distinct-Pairs (λ v. has_id v.id) _ d.verifications
            (λ u v clear same. id_apart v.id u.id clear (sym same)) h.verifications_distinct;
      session_ids = Pairs-mono _ _ d.sessions (λ s t apart. apart.0) sessions;
      token_hashes = Pairs-mono _ _ d.sessions (λ s t apart. apart.1) sessions;
      event_ids =
          Distinct-Pairs same_event _ d.audit_events
            (λ e f clear same. id_apart f.id e.id clear (sym same)) h.events_distinct;
      sessions_owned =
          All-mono _ _ d.sessions
            (λ s. any-Has _ _ d.accounts (λ a there. (==_iff a.id s.account_id).0 there))
            h.sessions_owned;
      events_owned =
          All-mono _ _ d.audit_events
            (λ e. any-Has _ _ d.accounts (λ a there. (==_iff a.id e.target_account_id).0 there))
            h.events_owned;
    }

pub IsIntact-IsSound : (d : Db) → IsIntact d → IsSound d
IsIntact-IsSound d h = record {
  accounts_distinct = Pairs-Distinct clashes _ d.accounts account_clear (
      Pairs-both _ _ d.accounts h.account_ids
        (Pairs-both _ _ d.accounts h.account_phones h.google_subjects));
  verifications_distinct =
      Pairs-Distinct (λ v. has_id v.id) _ d.verifications
        (λ u v apart. id_clear v.id u.id (λ same. apart (sym same))) h.challenge_ids;
  sessions_distinct =
      Pairs-Distinct session_clashes _ d.sessions session_clear
        (Pairs-both _ _ d.sessions h.session_ids h.token_hashes);
  events_distinct =
      Pairs-Distinct same_event _ d.audit_events
        (λ e f apart. id_clear f.id e.id (λ same. apart (sym same))) h.event_ids;
  sessions_owned =
      All-mono _ _ d.sessions
        (λ s. Has-any _ _ d.accounts (λ a there. (==_iff a.id s.account_id).1 there))
        h.sessions_owned;
  events_owned =
      All-mono _ _ d.audit_events
        (λ e. Has-any _ _ d.accounts (λ a there. (==_iff a.id e.target_account_id).1 there))
        h.events_owned;
}
