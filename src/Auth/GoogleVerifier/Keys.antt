-- ===== src/Auth/GoogleVerifier/Keys.antt =====
-- When the signing keys of internal/auth/google.go are fetched, and where the cached ones come from.
use passwordless_auth_servic.Prelude.{
  ℕ, suc, ◌-◌, ◌<◌, ◌≤◌, ltb→lt, String, true, Option, none, some, List, [], ltb, ◌≡◌, refl, ◌∙◌,
  arith, ◌⊎◌, inl, inr, Bool-cases, Option-cases,
}
use passwordless_auth_servic.Auth.Domain.{hour}
use passwordless_auth_servic.Auth.Failure.{Result, ok, is_err}
use passwordless_auth_servic.Auth.GoogleVerifier.{
  store_keys, fetched, received, key_of, read_clock, Jwk, collect_keys, PublicKey, Outside, Cache,
  lookup, public_key, refresh_keys, refreshed_key, found_key,
}

-- The key was cached within the hour, and nothing is fetched.
abbrev pub Hit : Outside → String → Cache → Result PublicKey × Cache → Type 0
Hit o kid c (r, c') =
    (k : PublicKey) × (lookup kid c.keys ≡ some k)
    × (o.now c.readings - c.fetched_at < hour)
    × (r ≡ ok k)
    × (c'.keys ≡ c.keys)
    × (c'.fetches ≡ c.fetches)

-- The keys are those of the response to the next request for them.
abbrev pub JustFetched : Outside → ℕ → List (String × PublicKey) → Type 0
JustFetched o n keys =
    (body : String) × (ks : List Jwk) × (o.get_certs n ≡ some body)
    × (o.decode_jwks body ≡ some ks)
    × (keys ≡ collect_keys o [] ks)

-- A fetch was tried once, and what came is the key of its response, or an error.
abbrev pub Fetches : Outside → String → Cache → Result PublicKey × Cache → Type 0
Fetches o kid c (r, c') =
    (c'.fetches ≡ suc c.fetches)
    × (((is_err r ≡ true) × ((c'.keys ≡ c.keys) ⊎ JustFetched o c.fetches c'.keys))
        ⊎ ((k : PublicKey) × (r ≡ ok k)
            × (lookup kid c'.keys ≡ some k)
            × JustFetched o c.fetches c'.keys))

-- The key is not cached, or the cache is an hour old.
abbrev pub Stale : Outside → String → Cache → Type 0
Stale o kid c =
    (k : PublicKey) → lookup kid c.keys ≡ some k → hour ≤ o.now c.readings - c.fetched_at

module _ (o : Outside) (kid : String) where
  found_cases :
      (c c' : Cache) (key : Option PublicKey)
      → lookup kid c'.keys ≡ key
      → c'.fetches ≡ suc c.fetches
      → JustFetched o c.fetches c'.keys
      → Fetches o kid c (found_key o kid key c')
  found_cases c c' none there count from = (count, inl (refl, inr from))
  found_cases c c' (some k) there count from = (count, inr (k, refl, there, from))

  stored_cases :
      (c : Cache) (body : String) (parsed : Option (List Jwk))
      → o.get_certs c.fetches ≡ some body
      → o.decode_jwks body ≡ parsed
      → Fetches o kid c (key_of o kid (store_keys o parsed (fetched o c)))
  stored_cases c body none came garbled = (refl, inl (refl, inl refl))
  stored_cases c body (some ks) came decoded =
      found_cases c _ (lookup kid (collect_keys o [] ks)) refl refl (body, ks, came, decoded, refl)

  received_cases :
      (c : Cache) (got : Option String)
      → o.get_certs c.fetches ≡ got
      → Fetches o kid c (key_of o kid (received o got (fetched o c)))
  received_cases c none down = (refl, inl (refl, inl refl))
  received_cases c (some body) came = stored_cases c body (o.decode_jwks body) came refl

  refreshed_cases : (c : Cache) → Fetches o kid c (refreshed_key o kid c)
  unfolding refresh_keys
  refreshed_cases c = received_cases c (o.get_certs c.fetches) refl

  pub public_key_cases :
      (c : Cache)
      → let p = public_key o kid c in Hit o kid c p ⊎ (Stale o kid c × Fetches o kid c p)
  unfolding public_key
  public_key_cases c = elim (Option-cases (lookup kid c.keys)) [
    | inl missing ↦ rw missing (inr (λ k e. absurd (cc), refreshed_cases c))
    | inr (key, there) ↦ rw there (elim (Bool-cases (ltb (o.now c.readings - c.fetched_at) hour)) [
      | inl young ↦ rw young (inl (key, refl, ltb→lt _ _ young, refl, refl, refl))
      | inr old ↦ rw old (inr (λ k e. ground arith, refreshed_cases (read_clock o c)))
    ])
  ]

-- The cached keys are those of one response to a request for Google's keys, or there are none yet.
abbrev pub Published : Outside → Cache → Type 0
Published o c = (c.keys ≡ []) ⊎ ((n : ℕ) × (n < c.fetches) × JustFetched o n c.keys)

module _ (o : Outside) where
  republished :
      (c c' : Cache) → c'.keys ≡ c.keys → c.fetches ≤ c'.fetches → Published o c → Published o c'
  republished c c' same more (inl empty) = inl (same ∙ empty)
  republished c c' same more (inr (n, before, (body, ks, came, decoded, keys))) =
      inr (n, omega (arith, before, more), (body, ks, came, decoded, same ∙ keys))

  pub public_key-Published :
      (kid : String) (c : Cache) → Published o c → Published o (public_key o kid c).1
  public_key-Published kid c h =
      let c' = (public_key o kid c).1 in
      elim (public_key_cases o kid c) [
        | inl (_, _, _, _, same, count) ↦ republished c c' same (omega (arith, count)) h
        | inr (_, (count, inl (_, inl same))) ↦ republished c c' same (omega (arith, count)) h
        | inr (_, (count, inl (_, inr from))) ↦ inr (c.fetches, omega (arith, count), from)
        | inr (_, (count, inr (_, _, _, from))) ↦ inr (c.fetches, omega (arith, count), from)
      ]
