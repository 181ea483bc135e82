-- ===== src/Platform/Config/Origins.antt =====
-- The list of origins that `splitCSV` of internal/platform/config/config.go reads.
use Prim.Native.Char.{code}
use Prim.Native.String.{[], ◌∷◌, ◌++◌}
use text.Mathlib.TextLemmas.{nil-append, cons-append}
use passwordless_auth_servic.Prelude
use passwordless_auth_servic.Prelude.{
  String, Bool, not, map, select, true, false, List, str_eq, eq_iff, ◌==◌, ◌≡◌, ◌≢◌, refl, ap, ◌∙◌,
  sym, arith, Bool-cases, if◌then◌else◌, inl, inr,
}
use passwordless_auth_servic.Auth.Phone.{is_space, trim_space}
use passwordless_auth_servic.Platform.Config.{split, trimmed_parts, split_csv}
use passwordless_auth_servic.Postgres.Integrity.Rows.{All}

-- The origins with commas between them.
abbrev pub joined : String → List String → String
joined o Prelude.[] = o
joined o (Prelude.◌∷◌ p ps) = o ++ ("," ++ joined p ps)

abbrev pub join_comma : List String → String
join_comma Prelude.[] = ""
join_comma (Prelude.◌∷◌ o os) = joined o os

abbrev NoComma : String → Type 0
NoComma [] = Unit
NoComma (c ∷ s) = ((code c == b',') ≡ false) × NoComma s

split-alone : (o : String) → NoComma o → split b',' o ≡ Prelude.◌∷◌ o Prelude.[]
unfolding split
split-alone [] h = refl
split-alone (c ∷ s) (other, h) = rw (other, split-alone s h) refl

split-append :
    (o r : String) → NoComma o → split b',' (o ++ ("," ++ r)) ≡ Prelude.◌∷◌ o (split b',' r)
unfolding split
split-append [] r h = rw (nil-append, cons-append, nil-append) refl
split-append (c ∷ s) r (other, h) = rw (cons-append, other, split-append s r h) refl

split-joined :
    (o : String) (os : List String)
    → All NoComma (Prelude.◌∷◌ o os)
    → split b',' (joined o os) ≡ Prelude.◌∷◌ o os
split-joined o Prelude.[] (plain, _) = split-alone o plain
split-joined o (Prelude.◌∷◌ p ps) (plain, h) =
    split-append o (joined p ps) plain ∙ ap (Prelude.◌∷◌ o) (split-joined p ps h)

abbrev pub given : String → Bool
given o = not (str_eq o "")

trimmed_parts-select : (os : List String) → trimmed_parts os ≡ select given (map trim_space os)
unfolding trimmed_parts
trimmed_parts-select Prelude.[] = refl
trimmed_parts-select (Prelude.◌∷◌ o os) = elim (Bool-cases (str_eq (trim_space o) "")) [
  | inl empty ↦ rw empty (trimmed_parts-select os)
  | inr there ↦ rw (there, trimmed_parts-select os) refl
]

blank : trimmed_parts (split b',' "") ≡ Prelude.[]
unfolding split trimmed_parts trim_space is_space
blank = refl

-- Texts without a comma, empty ones and ones with space around them too, written with commas between
-- them are read as the list of them, in their order, each without the space around it, less those of
-- which nothing is left.
pub split_csv-join_comma :
    (origins : List String)
    → All NoComma origins
    → split_csv (join_comma origins) ≡ select given (map trim_space origins)
unfolding split_csv
split_csv-join_comma Prelude.[] h = refl
split_csv-join_comma (Prelude.◌∷◌ o os) h = elim (Bool-cases (str_eq (joined o os) "")) [
  | inr there ↦ rw (there, split-joined o os h) (trimmed_parts-select (Prelude.◌∷◌ o os))
  | inl empty ↦ rw empty (
      sym (
        sym (trimmed_parts-select (Prelude.◌∷◌ o os))
        ∙ (ap trimmed_parts (sym (split-joined o os h))
            ∙ (ap (λ v. trimmed_parts (split b',' v)) ((eq_iff (joined o os) "").0 empty)
                ∙ blank))))
]
