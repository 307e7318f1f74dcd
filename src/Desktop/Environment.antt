-- ===== src/Desktop/Environment.antt =====
-- What the environment holds after the .env file is read.
use ups_orchestrator.Prelude.{
  ◌≡◌, refl, ◌∙◌, String, true, Option, none, some, List, [], ◌∷◌, ◌++◌, arith, eq_iff, All,
  Option-cases, inl, inr,
}
use mathlib.Core.Path.{subst}
use ups_orchestrator.Prelude.Options.{◌>>=◌, map_option, or_first}
use ups_orchestrator.Prelude.Texts.{split_lines}
use ups_orchestrator.Prelude.Environ.{Environ, get}
use ups_orchestrator.Prelude.Environ.{Environ, get}
use ups_orchestrator.Desktop.EnvFile.{
  is_valid, set_default, parse_line, load_lines, EnvFiles, env_file, load_text, load_env,
}

-- The assignments of the lines, in order.
abbrev pub cons_option : Option (String × String) → Environ → Environ
cons_option none environ = environ
cons_option (some entry) environ = entry ∷ environ

unfoldable pub assignments : List String → Environ
assignments [] = []
assignments (line ∷ lines) = cons_option (parse_line line) (assignments lines)

-- The lines of the file that is read, if one is.
abbrev pub lines_of : Option String → List String
lines_of none = []
lines_of (some text) = split_lines text

abbrev pub IsValid : String × String → Type 0
IsValid entry = is_valid entry ≡ true

get-append :
    (name : String) (environ added : Environ)
    → get name (environ ++ added) ≡ or_first (get name environ) (get name added)
get-append name [] added = refl
get-append name ((key, value) ∷ rest) added = ground (arith, get-append name rest added)

get-set_default :
    (name : String) (entry : String × String) (environ : Environ)
    → IsValid entry
    → map_option (get name) (set_default entry environ)
      ≡ some (or_first (get name environ) (get name (entry ∷ [])))
unfolding set_default
get-set_default name (key, value) environ h =
    ground (arith, get-append name environ ((key, value) ∷ []), eq_iff key name)

or_first_assoc {ℓ} :
    {A : Type ℓ} (o p q : Option A) → or_first (or_first o p) q ≡ or_first o (or_first p q)
or_first_assoc none p q = refl
or_first_assoc (some a) p q = refl

-- A step that leaves the value `v` at the name, and what follows.
map_get-bind :
    (name : String) (o : Option Environ) (v : Option String) (r : Option (Option String))
    (k : Environ → Option Environ)
    → map_option (get name) o ≡ some v
    → ((e : Environ) → get name e ≡ v → map_option (get name) (k e) ≡ r)
    → map_option (get name) (o >>= k) ≡ r
map_get-bind name none v r k h after = cc
map_get-bind name (some e) v r k h after = after e (cc h)

get-load_lines :
    (name : String) (lines : List String) (environ : Environ)
    → All IsValid (assignments lines)
    → map_option (get name) (load_lines lines environ)
      ≡ some (or_first (get name environ) (get name (assignments lines)))
unfolding load_lines assignments
get-load_lines name [] environ h = ground arith
get-load_lines name (line ∷ lines) environ h = elim (Option-cases (parse_line line)) [
  | inl e ↦ rw e (
      get-load_lines name lines environ
        (subst (λ o. All IsValid (cons_option o (assignments lines))) e h))
  | inr ((key, value), e) ↦
      let valid = subst (λ o. All IsValid (cons_option o (assignments lines))) e h in
      rw e (
        map_get-bind name (set_default (key, value) environ)
          (or_first (get name environ) (get name ((key, value) ∷ [])))
          (some (or_first (get name environ) (get name ((key, value) ∷ assignments lines))))
          (load_lines lines) (get-set_default name (key, value) environ valid.0)
          (λ changed same. get-load_lines name lines changed valid.1 ∙ ground (arith, same)))
]

get-load_text :
    (name : String) (text : Option String) (environ : Environ)
    → All IsValid (assignments (lines_of text))
    → map_option (get name) (load_text text environ)
      ≡ some (or_first (get name environ) (get name (assignments (lines_of text))))
unfolding load_lines
get-load_text name none environ h = get-load_lines name [] environ h
get-load_text name (some text) environ h = get-load_lines name (split_lines text) environ h

-- Reading a .env file whose assignments have a name and no NUL succeeds, and afterwards every name has
-- the value that it had in the environment before, if it had one, and otherwise the value of the first
-- line of the file that assigns it, if one does; an absent or unreadable file changes nothing.
pub get-load_env :
    (name : String) (files : EnvFiles) (environ : Environ)
    → All IsValid (assignments (lines_of (env_file files)))
    → map_option (get name) (load_env files environ)
      ≡ some (or_first (get name environ) (get name (assignments (lines_of (env_file files)))))
unfolding load_env
get-load_env name files environ h = get-load_text name (env_file files) environ h
