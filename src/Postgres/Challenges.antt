-- ===== src/Postgres/Challenges.antt =====
-- The challenge of an id in the table of internal/auth/postgres/queries, as it goes through its life.
use mathlib.Core.Path.{subst}
use passwordless_auth_servic.Prelude.{
  ◌-◌, ◌<◌, Bool, false, Option, none, some, List, [], ◌∷◌, ◌++◌, ◌==◌, ==_iff, find, update, ◌≡◌,
  refl, sym, String, any, select, ltb, ==_refl, true, eq_iff, arith, ◌⊎◌, inl, inr, Bool-cases,
}
use passwordless_auth_servic.Auth.Domain.{Uuid, Verification, send_cap_window, max_sends_per_window}
use passwordless_auth_servic.Auth.Verification.{
  lock, register_send, register_failure, mark_verified,
}
use passwordless_auth_servic.Auth.Verification.Life.{
  Actor, IsNew, Move, wrong_code, right_code, sent_again, resend_capped, request_capped, unlocked,
  Tally, requested, moved, Life, done, idle, step,
}
use passwordless_auth_servic.Platform.World.{Db}
use passwordless_auth_servic.Postgres.Verifications.{
  has_id, has_phone, set_columns, later, newest, find_latest, sends_since,
}
use passwordless_auth_servic.Postgres.Integrity.Rows.{Distinct}
use passwordless_auth_servic.Postgres.Answered.{find-has_id}

-- The challenge of an id.
abbrev pub challenge : Uuid → Db → Option Verification
challenge id d = find (has_id id) d.verifications

-- The sends that the tables count.
abbrev pub tally : Db → Tally
tally d phone since = sends_since phone since d

-- Between two states of the tables every challenge takes at most one step of its life, whose guards
-- hold at the first of them.
abbrev pub Evolves : Actor → Db → Db → Type 0
Evolves who d d' = (id : Uuid) → Life who (tally d ∷ []) (challenge id d) (challenge id d')

module _ (id : Uuid) where
  find-snoc :
      (vs : List Verification) (v : Verification)
      → (find (has_id id) (vs ++ v ∷ []) ≡ find (has_id id) vs)
        ⊎ ((find (has_id id) vs ≡ none) × (find (has_id id) (vs ++ v ∷ []) ≡ some v))
  find-snoc [] v = ground arith
  find-snoc (u ∷ vs) v = ground (arith, find-snoc vs v)

  -- The row of another id stays.
  find-update_other :
      (v : Verification) (f : Verification → Verification) (vs : List Verification)
      → ((u : Verification) → (f u).id ≡ u.id)
      → (v.id == id) ≡ false
      → find (has_id id) (update (has_id v.id) f vs) ≡ find (has_id id) vs
  find-update_other v f [] same other = refl
  find-update_other v f (u ∷ vs) same other =
      let kept = same u in ground (arith, find-update_other v f vs same other)

  pub find-update_self :
      (f : Verification → Verification) (vs : List Verification) {v : Verification}
      → ((u : Verification) → (f u).id ≡ u.id)
      → find (has_id id) vs ≡ some v
      → find (has_id id) (update (has_id id) f vs) ≡ some (f v)
  find-update_self f [] same found = absurd (cc)
  find-update_self f (u ∷ vs) {v} same found =
      let kept = same u in
      elim (Bool-cases (u.id == id)) [
        | inl here ↦ let is_u = rw here at found in rw (here, kept, here) (cc)
        | inr other ↦ rw (other, other) (find-update_self f vs same (rw other at found))
      ]

-- A change sets columns that the update statement writes.
pub Move-set_columns :
    {who : Actor} {sends : Tally} {v v' : Verification}
    → Move who sends v v'
    → set_columns v' v ≡ v'
unfolding lock register_send register_failure mark_verified
Move-set_columns (wrong_code now is_open e) = rw e (ground arith)
Move-set_columns (right_code now is_open e) = rw e refl
Move-set_columns (sent_again now code_hash is_open ready below e) = rw e refl
Move-set_columns (resend_capped now is_open ready reached e) = rw e refl
Move-set_columns (request_capped now free ready reached e) = rw e refl
Move-set_columns (unlocked now admin held e) = rw e refl

pub Evolves-created :
    {who : Actor} (d d' : Db) (v : Verification)
    → IsNew v
    → tally d v.phone (v.sent_at - send_cap_window) < max_sends_per_window
    → d'.verifications ≡ d.verifications ++ v ∷ []
    → Evolves who d d'
Evolves-created d d' v new below e id = rw e (elim (find-snoc id d.verifications v) [
  | inl same ↦ rw same (idle done)
  | inr (absent, there) ↦ rw (absent, there) (step (requested v new below) done)
])

pub Evolves-saved :
    {who : Actor} (d d' : Db) {v v' : Verification}
    → Move who (tally d) v v'
    → find (has_id v.id) d.verifications ≡ some v
    → d'.verifications ≡ update (has_id v.id) (set_columns v') d.verifications
    → Evolves who d d'
Evolves-saved d d' {v} {v'} m found e id = rw e (elim (Bool-cases (v.id == id)) [
  | inr other ↦
      rw (find-update_other id v (set_columns v') d.verifications (λ u. refl) other) (idle done)
  | inl here ↦
      let is_id = (==_iff v.id id).0 here in
      let there = find-update_self v.id (set_columns v') d.verifications (λ u. refl) found in
      rw (← is_id) (rw (found, there, Move-set_columns m) (step (moved m) done))
])

-- A row of a table with distinct ids has an id that no row before it has.
find-clash :
    (k : Uuid) (vs : List Verification) {v : Verification}
    → find (has_id v.id) vs ≡ some v
    → any (has_id k) vs ≡ false
    → (k == v.id) ≡ false
find-clash k [] found clear = absurd (cc)
find-clash k (u ∷ vs) {v} found clear = ground (arith, find-clash k vs {v = v})

newest_cases :
    (u : Verification) (o : Option Verification) {v : Verification}
    → some (later u o) ≡ some v
    → (u ≡ v) ⊎ (o ≡ some v)
newest_cases u none e = inl (cc)
newest_cases u (some x) e = elim (Bool-cases (ltb u.sent_at x.sent_at)) [
  | inl older ↦ let chosen = rw older at e in inr (cc)
  | inr young ↦ let chosen = rw young at e in inl (cc)
]

newest-row :
    (p : Verification → Bool) (vs : List Verification) {v : Verification}
    → Distinct (λ u. has_id u.id) vs
    → newest (select p vs) ≡ some v
    → find (has_id v.id) vs ≡ some v
newest-row p [] distinct e = absurd (cc)
newest-row p (u ∷ vs) {v} (clear, distinct) e = elim (Bool-cases (p u)) [
  | inr out ↦ later_row vs u (newest-row p vs distinct (rw out at e)) clear
  | inl in_phone ↦ elim (newest_cases u (newest (select p vs)) (rw in_phone at e)) [
    | inl is_u ↦ rw (← is_u) (rw (==_refl u.id) refl)
    | inr is_later ↦ later_row vs u (newest-row p vs distinct is_later) clear
  ]
]
  where
    later_row :
        (vs : List Verification) {v : Verification} (u : Verification)
        → find (has_id v.id) vs ≡ some v
        → any (has_id u.id) vs ≡ false
        → find (has_id v.id) (u ∷ vs) ≡ some v
    later_row vs {v} u found clear =
        let apart = find-clash u.id vs {v = v} found clear in rw apart found

newest-holds :
    (p : Verification → Bool) (vs : List Verification) {v : Verification}
    → newest (select p vs) ≡ some v
    → p v ≡ true
newest-holds p [] e = absurd (cc)
newest-holds p (u ∷ vs) {v} e = elim (Bool-cases (p u)) [
  | inr out ↦ newest-holds p vs (rw out at e)
  | inl in_phone ↦ elim (newest_cases u (newest (select p vs)) (rw in_phone at e)) [
    | inl is_u ↦ rw (← is_u) in_phone
    | inr is_later ↦ newest-holds p vs is_later
  ]
]

-- The latest challenge of a phone has that phone.
pub find_latest-phone :
    (phone : String) (d : Db) {v : Verification} → find_latest phone d ≡ some v → v.phone ≡ phone
unfolding find_latest
find_latest-phone phone d {v} e =
    (eq_iff v.phone phone).0 (newest-holds (has_phone phone) d.verifications e)

-- The latest challenge of a phone is the challenge of its id.
pub find_latest-challenge :
    (phone : String) (d : Db) {v : Verification}
    → Distinct (λ u. has_id u.id) d.verifications
    → find_latest phone d ≡ some v
    → challenge v.id d ≡ some v
unfolding find_latest
find_latest-challenge phone d distinct e = newest-row (has_phone phone) d.verifications distinct e

-- The challenge that an id finds is the challenge of its own id.
pub challenge-own :
    (id : Uuid) (d : Db) {v : Verification} → challenge id d ≡ some v → challenge v.id d ≡ some v
challenge-own id d {v} found =
    subst (λ k. challenge k d ≡ some v) (sym (find-has_id id d.verifications found)) found

pub Evolves-rows : {who : Actor} (d d' : Db) → d'.verifications ≡ d.verifications → Evolves who d d'
Evolves-rows d d' same id = rw same (idle done)
