-- ===== src/Platform/Config/Required.antt =====
-- Which environments `Load` of internal/platform/config/config.go refuses.
use passwordless_auth_servic.Prelude.{
  ap, String, true, false, str_eq, eq_iff, ◌≡◌, refl, ◌↔◌, ◌⊎◌, inl, inr, Bool-cases, sym, ◌∙◌,
}
use passwordless_auth_servic.Auth.Failure.{Result, is_err, ok, err}
use passwordless_auth_servic.Platform.Config.{Config, read_config, validate, load}

-- No database is named, or a production process has no link secret.
abbrev pub Lacks : (String → String) → Type 0
Lacks getenv =
    (getenv "DATABASE_URL" ≡ "")
    ⊎ ((getenv "APP_ENV" ≡ "production") × (getenv "GOOGLE_LINK_SECRET" ≡ ""))

-- The same of a configuration.
abbrev Incomplete : Config → Type 0
Incomplete cfg =
    (cfg.database_url ≡ "") ⊎ ((cfg.env ≡ "production") × (cfg.google_link_secret ≡ ""))

validate_cases :
    (cfg : Config)
    → ((is_err (validate cfg) ≡ true) × Incomplete cfg)
      ⊎ ((validate cfg ≡ ok cfg) × ¬ Incomplete cfg)
unfolding validate
validate_cases cfg = elim (Bool-cases (str_eq cfg.database_url "")) [
  | inl missing ↦ inl (rw missing refl, inl ((eq_iff _ _).0 missing))
  | inr named ↦ elim (Bool-cases (str_eq cfg.env "production")) [
    | inr other ↦ inr (
      rw (named, other) refl,
      λ lacks. elim lacks [ inl e ↦ differ named e | inr (e, _) ↦ differ other e ],
    )
    | inl production ↦ elim (Bool-cases (str_eq cfg.google_link_secret "")) [
      | inl unset ↦ inl (
        rw (named, production, unset) refl,
        inr ((eq_iff _ _).0 production, (eq_iff _ _).0 unset),
      )
      | inr secret ↦ inr (
        rw (named, production, secret) refl,
        λ lacks. elim lacks [ inl e ↦ differ named e | inr (_, e) ↦ differ secret e ],
      )
    ]
  ]
]
  where
    differ : {s t : String} → str_eq s t ≡ false → s ≡ t → ⊥
    differ {s} {t} unequal e = let equal = (eq_iff s t).1 e in cc

-- The default of APP_ENV is not the production value.
env_read :
    (getenv : String → String)
    → ((read_config getenv).env ≡ "production") ↔ (getenv "APP_ENV" ≡ "production")
env_read getenv = elim (Bool-cases (str_eq (getenv "APP_ENV") "")) [
  | inr set ↦ rw set (λ e. e, λ e. e)
  | inl unset ↦ rw unset (
    λ e. absurd (apart "development" "production" refl e),
    λ e. absurd (apart "" "production" refl (sym ((eq_iff (getenv "APP_ENV") "").0 unset) ∙ e)),
  )
]
  where
    apart : (s t : String) → str_eq s t ≡ false → s ≡ t → ⊥
    apart s t unequal e = let equal = (eq_iff s t).1 e in cc

-- `Load` fails exactly if no database is named or a production process has no link secret; else it
-- returns the configuration that it read.
pub load_cases :
    (getenv : String → String)
    → ((is_err (load getenv) ≡ true) × Lacks getenv)
      ⊎ ((load getenv ≡ ok (read_config getenv)) × ¬ Lacks getenv)
unfolding load
load_cases getenv = elim (validate_cases (read_config getenv)) [
  | inl (bad, inl missing) ↦ inl (bad, inl missing)
  | inl (bad, inr (production, unset)) ↦ inl (bad, inr ((env_read getenv).0 production, unset))
  | inr (good, complete) ↦ inr (
    good,
    λ lacks. elim lacks [
      | inl missing ↦ complete (inl missing)
      | inr (production, unset) ↦ complete (inr ((env_read getenv).1 production, unset))
    ],
  )
]

config_or : Config → Result Config → Config
config_or d (ok cfg) = cfg
config_or d (err e) = d

-- What a successful load has read.
pub load-eq-ok :
    (getenv : String → String) {cfg : Config}
    → load getenv ≡ ok cfg
    → (cfg ≡ read_config getenv) × ¬ Lacks getenv
unfolding config_or
load-eq-ok getenv {cfg} loaded = elim (load_cases getenv) [
  | inl (bad, _) ↦ absurd (cc)
  | inr (good, complete) ↦ (ap (config_or cfg) (sym loaded ∙ good), complete)
]
