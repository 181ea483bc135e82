-- ===== src/Postgres/Verifications/Enum.antt =====
-- The optional enum columns: `nullableEnum` on the way in, the nil test of `scanVerification` on the
-- way out.
use passwordless_auth_servic.Prelude.{
  String, Option, none, some, str_eq, if◌then◌else◌, ◌≡◌, arith, eq_iff,
}
use passwordless_auth_servic.Auth.Domain.{Verification}

unfoldable pub nullable_enum : String → Option String
nullable_enum s = if str_eq s "" then none else some s

-- A NULL leaves the field at its zero value.
unfoldable pub scan_enum : Option String → String
scan_enum none = ""
scan_enum (some s) = s

-- A challenge as a later scan reads the row that `Create` inserts for it.
unfoldable pub stored : Verification → Verification
unfolding nullable_enum scan_enum
stored v = record v {
  pending_role = scan_enum (nullable_enum v.pending_role);
  pending_language = scan_enum (nullable_enum v.pending_language);
}

pub scan_enum-nullable_enum : (s : String) → scan_enum (nullable_enum s) ≡ s
unfolding scan_enum nullable_enum
scan_enum-nullable_enum s = ground (arith, eq_iff s "")

pub stored_lem : (v : Verification) → stored v ≡ v
unfolding stored
stored_lem v =
    rw (scan_enum-nullable_enum v.pending_role, scan_enum-nullable_enum v.pending_language)
