-- ===== src/Prelude/Numbers.antt =====
-- The integers that Python's `int` reads from a text.
use Prim.Native.Char.{code}
use ups_orchestrator.Prelude.{
  ℕ, zero, suc, ◌+◌, ◌-◌, ◌*◌, ◌≡◌, refl, String, Bool, false, ◌&&◌, ◌||◌, Option, none, some, leb,
  ◌==◌, if◌then◌else◌,
}
use ups_orchestrator.Prelude.Int.{ℤ, pos, negsuc}
use ups_orchestrator.Prelude.Options.{map_option}
use ups_orchestrator.Prelude.Texts.{strip, is_white}

abbrev is_digit : ℕ → Bool
is_digit c = leb b'0' c && leb c b'9'

-- The value of digits that follow those worth `acc`; an underscore may stand between two digits, and
-- `after` says whether a digit stands in front.
unfoldable digits : ℕ → Bool → String → Option ℕ
digits acc after String.[] = if after then some acc else none
digits acc after (String.◌∷◌ c s) =
    let digit = is_digit (code c) in
    let rest = digits (if digit then 10 * acc + (code c - b'0') else acc) digit s in
    if digit || (code c == b'_' && after) then rest else none

abbrev negate : ℕ → ℤ
negate zero = pos 0
negate (suc n) = negsuc n

unfoldable signed : String → Option ℤ
unfolding digits
signed String.[] = none
signed (String.◌∷◌ c s) =
    if code c == b'-'
    then map_option negate (digits 0 false s)
    else if code c == b'+'
    then map_option pos (digits 0 false s)
    else map_option pos (digits 0 false (String.◌∷◌ c s))

-- `int` of an ASCII text, `none` where it raises ValueError.
unfoldable pub parse_int : String → Option ℤ
unfolding signed
parse_int text = signed (strip is_white text)

number_samples : map_option (λ (n : ℤ). n) (parse_int " -1_0 ") ≡ some (negsuc 9)
unfolding parse_int
number_samples = refl
