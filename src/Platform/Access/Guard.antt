-- ===== src/Platform/Access/Guard.antt =====
-- What the admin middleware lets through.
use Prim.Native.String.{◌++◌}
use passwordless_auth_servic.Prelude.{
  String, true, false, none, some, str_eq, eq_iff, eq_refl, ◌≡◌, ◌≢◌, ◌↔◌, ◌⊎◌, inl, inr, refl, sym,
  ap, ◌∙◌, Bool-cases, Option-cases,
}
use passwordless_auth_servic.Platform.World.{World}
use passwordless_auth_servic.Auth.Phone.{cut_prefix}
use passwordless_auth_servic.Auth.Phone.Forms.{cut_prefix-append, cut_prefix_sound}
use passwordless_auth_servic.Platform.Access.{
  Context, Response, rejection, bearer_token, context_with_admin_principal, admin_middleware,
}

-- The header carries the key as a bearer token, and there is a key.
abbrev pub Carries : String → String → Type 0
Carries key header = (key ≢ "") × (header ≡ "Bearer " ++ key)

bearer_token_iff :
    (key header : String) → key ≢ "" → (bearer_token header ≡ key) ↔ (header ≡ "Bearer " ++ key)
unfolding bearer_token
bearer_token_iff key header set = (
  λ e. elim (Option-cases (cut_prefix "Bearer " header)) [
    | inl missing ↦ absurd (set (sym e ∙ of_missing missing))
    | inr (token, there) ↦
        cut_prefix_sound "Bearer " header (there ∙ ap some (sym (of_token there) ∙ e))
  ],
  λ e. of_token (ap (cut_prefix "Bearer ") e ∙ cut_prefix-append "Bearer " key),
)
  where
    of_missing : cut_prefix "Bearer " header ≡ none → bearer_token header ≡ ""
    of_missing h = rw (bearer_token, h) refl

    of_token :
        {token : String} → cut_prefix "Bearer " header ≡ some token → bearer_token header ≡ token
    of_token h = rw (bearer_token, h) refl

-- Let through with the admin principal attached, or rejected before anything runs.
abbrev pub Guarded {ℓ} :
    {A : Type ℓ}
    → String
    → String
    → (Context → World → Response A × World)
    → Context
    → World
    → String
    → Response A × World
    → Type ℓ
Guarded key admin_id next ctx w header p =
    (Carries key header
      × (p ≡ next (context_with_admin_principal ctx (record { id = admin_id })) w))
    ⊎ (¬ Carries key header × (p ≡ (rejection 401 "missing or invalid admin credential", w)))

-- A request passes the admin middleware exactly if an admin key is configured and the header is
-- `Bearer ` followed by that key: then the next handler runs, with the admin principal attached, and
-- otherwise nothing runs and the response is a 401. With no key configured every request is rejected.
pub admin_middleware_passes {ℓ} :
    {A : Type ℓ} (key admin_id : String) (next : Context → World → Response A × World)
    (header : String) (ctx : Context) (w : World)
    → Guarded key admin_id next ctx w header (admin_middleware key admin_id next header ctx w)
unfolding admin_middleware
admin_middleware_passes key admin_id next header ctx w = elim (Bool-cases (str_eq key "")) [
  | inl unset ↦ inr (λ carries. carries.0 ((eq_iff _ _).0 unset), rw unset refl)
  | inr set ↦ with_key (λ e. true_not_false (sym ((eq_iff _ _).1 e) ∙ set)) set
]
  where
    true_not_false : true ≡ false → ⊥
    true_not_false e = cc

    differs : str_eq (bearer_token header) key ≡ false → bearer_token header ≡ key → ⊥
    differs differ e = true_not_false (sym ((eq_iff _ _).1 e) ∙ differ)

    rejected :
        str_eq key "" ≡ false
        → str_eq (bearer_token header) key ≡ false
        → admin_middleware key admin_id next header ctx w
          ≡ (rejection 401 "missing or invalid admin credential", w)
    rejected set differ = elim (Bool-cases (str_eq (bearer_token header) "")) [
      | inl empty ↦ rw (set, empty) refl
      | inr token ↦ rw (set, token, differ) refl
    ]

    with_key :
        key ≢ ""
        → str_eq key "" ≡ false
        → Guarded key admin_id next ctx w header (admin_middleware key admin_id next header ctx w)
    with_key there set = elim (Bool-cases (str_eq (bearer_token header) key)) [
      | inl same ↦
          let is_key = (eq_iff _ _).0 same in
          inl (
            (there, (bearer_token_iff key header there).0 is_key),
            rw (set, is_key, set, eq_refl key) refl,
          )
      | inr differ ↦ inr (
        λ carries. differs differ ((bearer_token_iff key header there).1 carries.1),
        rejected set differ,
      )
    ]
