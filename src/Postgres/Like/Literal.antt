-- ===== src/Postgres/Like/Literal.antt =====
-- LIKE on an escaped filter.
use Prim.Native.Char.{code}
use Prim.Native.String.{[], ◌∷◌, ◌++◌}
use text.Mathlib.TextLemmas.{nil-append, cons-append}
use text.Mathlib.TextEquality.{Char-path}
use passwordless_auth_servic.Prelude.{
  String, Bool, true, false, ◌≡◌, refl, ◌↔◌, ◌==◌, List, arith, Bool-cases, sym, ==_iff, inl, inr,
  ==_refl, ap,
}
use passwordless_auth_servic.Postgres.Like.{
  escape_like, contains_pattern, Piece, run, exact, pieces, some_suffix, at_char, at_end, matches,
  like, is_special,
}

-- A text as pieces that match it alone.
exactly : String → List Piece → List Piece
exactly [] ps = ps
exactly (c ∷ s) ps = List.◌∷◌ (exact c) (exactly s ps)

pieces-escape_like : (s p : String) → pieces false (escape_like s ++ p) ≡ exactly s (pieces false p)
unfolding escape_like pieces exactly
pieces-escape_like [] p = rw nil-append
pieces-escape_like (c ∷ s) p = elim (Bool-cases (is_special c)) [
  | inl special ↦
      rw (special, cons-append, nil-append, cons-append, cons-append) (rw (pieces-escape_like s p))
  | inr plain ↦ rw (plain, cons-append) (ground (arith, pieces-escape_like s p))
]

-- `some_suffix` finds every suffix, and nothing else.
some_suffix_sound :
    (q : String → Bool) (s : String)
    → some_suffix q s ≡ true
    → (a b : String) × (s ≡ a ++ b) × (q b ≡ true)
unfolding some_suffix
some_suffix_sound q [] h = ([], [], sym (nil-append _), h)
some_suffix_sound q (c ∷ s) h = elim (Bool-cases (q (c ∷ s))) [
  | inl here ↦ ([], c ∷ s, sym (nil-append _), here)
  | inr miss ↦
      let (a, b, e, found) = some_suffix_sound q s (rw miss at h) in
      (c ∷ a, b, rw cons-append (ap (◌∷◌ c) e), found)
]

some_suffix_complete :
    (q : String → Bool) (a b : String) → q b ≡ true → some_suffix q (a ++ b) ≡ true
unfolding some_suffix
some_suffix_complete q [] [] h = h
some_suffix_complete q [] (c ∷ b) h = rw (nil-append, h)
some_suffix_complete q (c ∷ a) b h = rw cons-append (ground (arith, some_suffix_complete q a b h))

at_end_suffix : (b : String) → some_suffix at_end b ≡ true
unfolding some_suffix at_end
at_end_suffix [] = refl
at_end_suffix (c ∷ b) = at_end_suffix b

matches-exactly_sound :
    (f s : String)
    → matches (exactly f (List.◌∷◌ run List.[])) s ≡ true
    → (b : String) × (s ≡ f ++ b)
unfolding matches exactly at_char
matches-exactly_sound [] s h = (s, sym (nil-append s))
matches-exactly_sound (c ∷ f) [] h = absurd (cc)
matches-exactly_sound (c ∷ f) (d ∷ s) h = elim (Bool-cases (code d == code c)) [
  | inl same ↦
      let (b, e) = matches-exactly_sound f s (rw same at h) in
      (b, rw cons-append (cc (Char-path d c ((==_iff _ _).0 same))))
  | inr differ ↦ absurd (ground arith)
]

matches-exactly_complete :
    (f b : String) → matches (exactly f (List.◌∷◌ run List.[])) (f ++ b) ≡ true
unfolding matches exactly at_char
matches-exactly_complete [] b = rw nil-append (at_end_suffix b)
matches-exactly_complete (c ∷ f) b = rw (cons-append, ==_refl) (matches-exactly_complete f b)

like_unfolded :
    (f s : String)
    → like (contains_pattern (escape_like f)) s
      ≡ some_suffix (matches (exactly f (List.◌∷◌ run List.[]))) s
unfolding like contains_pattern
like_unfolded f s = rw (cons-append, nil-append) (rw (pieces-escape_like f "%") refl)

-- With the filter escaped, `phone LIKE '%' || $1 || '%'` holds exactly where the filter occurs in
-- the phone as it is written, with any `%`, `_` or `\` in it standing for itself.
pub like-contains :
    (f s : String)
    → (like (contains_pattern (escape_like f)) s ≡ true)
      ↔ ((before after : String) × (s ≡ before ++ (f ++ after)))
like-contains f s = rw (like_unfolded f s) (
  λ h.
      let (a, b, e, m) = some_suffix_sound _ s h in
      let (after, e') = matches-exactly_sound f b m in (a, after, cc),
  λ (a, after, e). rw e (some_suffix_complete _ a (f ++ after) (matches-exactly_complete f after)),
)
