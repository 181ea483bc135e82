-- ===== src/Postgres/Like.antt =====
-- `escapeLike` of internal/auth/postgres/repository.go, and the LIKE operator of PostgreSQL with
-- ESCAPE '\', which account_list.sql applies to its result.
pub mod Literal
use Prim.Native.Char.{Char, code}
use Prim.Native.String.{[], ◌∷◌, ◌++◌}
use passwordless_auth_servic.Prelude.{
  String, Bool, true, false, ◌&&◌, ◌||◌, ◌==◌, if◌then◌else◌, List, ◌≡◌, refl,
}
use mathlib.Core.List

-- The characters that LIKE reads specially: `\`, `%` and `_`.
abbrev pub is_special : Char → Bool
is_special c = (code c == 92) || (code c == b'%') || (code c == b'_')

-- `likeEscaper.Replace`
unfoldable pub escape_like : String → String
escape_like [] = []
escape_like (c ∷ s) = if is_special c then "\\" ++ (c ∷ escape_like s) else c ∷ escape_like s

-- `'%' || $1 || '%'`
unfoldable pub contains_pattern : String → String
contains_pattern s = "%" ++ (s ++ "%")

-- A pattern that ends in the escape character is an error in PostgreSQL; `broken` matches nothing.
pub data Piece : Type 0 where
  run one broken : Piece
  exact : Char → Piece

abbrev plain_piece : Char → Piece
plain_piece c = if code c == b'%' then run else if code c == b'_' then one else exact c

-- The first argument says that the escape character came before.
pieces : Bool → String → List Piece
pieces false [] = List.[]
pieces true [] = List.◌∷◌ broken List.[]
pieces true (c ∷ p) = List.◌∷◌ (exact c) (pieces false p)
pieces false (c ∷ p) =
    let escaped = pieces true p in
    let plain = List.◌∷◌ (plain_piece c) (pieces false p) in if code c == 92 then escaped else plain

-- The test at some suffix of the text.
some_suffix : (String → Bool) → String → Bool
some_suffix p [] = p []
some_suffix p (c ∷ s) = p (c ∷ s) || some_suffix p s

at_char : (Char → Bool) → (String → Bool) → String → Bool
at_char p q [] = false
at_char p q (c ∷ s) = p c && q s

at_end : String → Bool
at_end [] = true
at_end (_ ∷ _) = false

matches : List Piece → String → Bool
matches List.[] = at_end
matches (List.◌∷◌ run ps) = some_suffix (matches ps)
matches (List.◌∷◌ one ps) = at_char (λ _. true) (matches ps)
matches (List.◌∷◌ broken ps) = λ _. false
matches (List.◌∷◌ (exact c) ps) = at_char (λ d. code d == code c) (matches ps)

-- `text LIKE pattern ESCAPE '\'`
unfoldable pub like : String → String → Bool
unfolding pieces matches some_suffix at_char at_end
like pattern = matches (pieces false pattern)
