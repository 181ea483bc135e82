-- ===== src/Postgres/Lockouts.antt =====
-- The batched lockout query beside the lookup of one phone.
use passwordless_auth_servic.Prelude.{
  String, Bool, true, false, Option, none, some, List, [], ◌∷◌, str_eq, eq_iff, find, any, select,
  lookup_or, ◌≡◌, refl, arith, ◌∙◌, ap, sym, inl, inr, Bool-cases,
}
use passwordless_auth_servic.Auth.Domain.{Time, Verification}
use passwordless_auth_servic.Auth.Verification.{is_locked}
use passwordless_auth_servic.Platform.World.{Db}
use passwordless_auth_servic.Postgres.Verifications.{
  has_phone, later, newest, find_latest, keep_newest, distinct_on_phone, lock_columns, is_among,
  locked_phone_rows, locked_map,
}

-- Whether a challenge, if any, is locked at a time.
abbrev pub locked_at : Time → Option Verification → Bool
locked_at now none = false
locked_at now (some v) = is_locked v now

lookup-locked_map :
    (now : Time) (phone : String) (vs : List Verification)
    → lookup_or false phone (locked_map now (lock_columns vs))
      ≡ locked_at now (find (has_phone phone) vs)
unfolding locked_map is_locked
lookup-locked_map now phone [] = refl
lookup-locked_map now phone (v ∷ vs) = ground (arith, lookup-locked_map now phone vs)

abbrev joined_with : Bool → Verification → Option Verification → Option Verification
joined_with true v o = some (later v o)
joined_with false v o = o

later-phone :
    (phone : String) (v u : Verification)
    → u.phone ≡ v.phone
    → has_phone phone (later v (some u)) ≡ has_phone phone v
later-phone phone v u e = ground arith

merged :
    (phone : String) (v u : Verification) (us : List Verification)
    → u.phone ≡ v.phone
    → find (has_phone phone) (later v (some u) ∷ us)
      ≡ joined_with (has_phone phone v) v (find (has_phone phone) (u ∷ us))
merged phone v u us e = elim (Bool-cases (has_phone phone v)) [
  | inl here ↦ rw (later-phone phone v u e, here, ap (λ p. str_eq p phone) e, here)
  | inr there ↦ rw (later-phone phone v u e, there, ap (λ p. str_eq p phone) e, there)
]

skipped :
    (phone : String) (v u : Verification) (us : List Verification)
    → str_eq u.phone v.phone ≡ false
    → find (has_phone phone) (keep_newest v us)
      ≡ joined_with (has_phone phone v) v (find (has_phone phone) us)
    → find (has_phone phone) (u ∷ keep_newest v us)
      ≡ joined_with (has_phone phone v) v (find (has_phone phone) (u ∷ us))
skipped phone v u us differ ih = elim (Bool-cases (has_phone phone u)) [
  | inl hit ↦ rw hit (elim (Bool-cases (has_phone phone v)) [
    | inl both ↦ absurd (ne_of_differ (sym_trans hit both))
    | inr only ↦ rw only
  ])
  | inr miss ↦ rw miss ih
]
  where
    sym_trans : has_phone phone u ≡ true → has_phone phone v ≡ true → u.phone ≡ v.phone
    sym_trans hu hv = (eq_iff _ _).0 hu ∙ sym ((eq_iff _ _).0 hv)

    ne_of_differ : u.phone ≡ v.phone → ⊥
    ne_of_differ e = let same = (eq_iff u.phone v.phone).1 e in cc

find-keep_newest :
    (phone : String) (v : Verification) (us : List Verification)
    → find (has_phone phone) (keep_newest v us)
      ≡ joined_with (has_phone phone v) v (find (has_phone phone) us)
find-keep_newest phone v [] = ground arith
find-keep_newest phone v (u ∷ us) = elim (Bool-cases (str_eq u.phone v.phone)) [
  | inl same ↦ rw same (merged phone v u us ((eq_iff _ _).0 same))
  | inr differ ↦ rw differ (skipped phone v u us differ (find-keep_newest phone v us))
]

find-distinct_on_phone :
    (phone : String) (vs : List Verification)
    → find (has_phone phone) (distinct_on_phone vs) ≡ newest (select (has_phone phone) vs)
find-distinct_on_phone phone [] = refl
find-distinct_on_phone phone (v ∷ vs) =
    ground (arith, find-keep_newest phone v (distinct_on_phone vs), find-distinct_on_phone phone vs)

select-is_among :
    (phone : String) (phones : List String) (vs : List Verification)
    → any (λ p. str_eq p phone) phones ≡ true
    → select (has_phone phone) (select (is_among phones) vs) ≡ select (has_phone phone) vs
select-is_among phone phones [] among = refl
select-is_among phone phones (v ∷ vs) among =
    ground (arith, eq_iff v.phone phone, select-is_among phone phones vs among)

-- For each phone that is asked for, the map that `LockedPhones` builds says what looking up the
-- phone's latest challenge and testing its lock says, a phone with no challenge being unlocked.
pub locked_map-find_latest :
    (now : Time) (phone : String) (phones : List String) (d : Db)
    → any (λ p. str_eq p phone) phones ≡ true
    → lookup_or false phone (locked_map now (locked_phone_rows phones d))
      ≡ locked_at now (find_latest phone d)
unfolding locked_phone_rows find_latest
locked_map-find_latest now phone phones d among =
    lookup-locked_map now phone _
    ∙ ap (locked_at now) (
        find-distinct_on_phone phone (select (is_among phones) d.verifications)
        ∙ ap newest (select-is_among phone phones d.verifications among))
