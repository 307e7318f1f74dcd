-- ===== src/Prelude/Environ.antt =====
-- The environment of a program, and the settings that it reads from there.
use ups_orchestrator.Prelude.{
  ℕ, ◌≡◌, refl, String, Bool, true, ◌&&◌, Option, none, some, List, [], ◌∷◌, str_eq, is_some,
  Option-cases, inl, inr, if◌then◌else◌,
}
use ups_orchestrator.Prelude.Int.{ℤ, pos}
use ups_orchestrator.Prelude.Options.{◌>>=◌}
use ups_orchestrator.Prelude.Numbers.{parse_int}

-- `os.environ`, a name with its value.
abbrev pub Environ : Type 0
Environ = List (String × String)

-- `os.environ.get(name)`
abbrev pub get : String → Environ → Option String
get name [] = none
get name ((key, value) ∷ rest) = if str_eq key name then some value else get name rest

-- `os.environ.get(name, default)`
abbrev pub text_of : Option String → String → String
text_of none default = default
text_of (some t) default = t

abbrev pub int_of : Option String → ℕ → Option ℤ
int_of none default = some (pos default)
int_of (some t) default = parse_int t

-- A variable that is not set, or set to a number.
abbrev pub is_number : Option String → Bool
is_number none = true
is_number (some t) = is_some (parse_int t)

abbrev pub all_numbers : Environ → List String → Bool
all_numbers e [] = true
all_numbers e (name ∷ names) = is_number (get name e) && all_numbers e names

-- A number that is read, and what follows.
pub is_some-bind :
    {A : Type 0} (o : Option String) (d : ℕ) (k : ℤ → Option A) (b : Bool)
    → ((n : ℤ) → is_some (k n) ≡ b)
    → is_some (int_of o d >>= k) ≡ is_number o && b
is_some-bind none d k b h = h (pos d)
is_some-bind (some t) d k b h = elim (Option-cases (parse_int t)) [
  | inl e ↦ rw e refl
  | inr (n, e) ↦ rw e (h n)
]
