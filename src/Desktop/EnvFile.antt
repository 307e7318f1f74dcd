-- ===== src/Desktop/EnvFile.antt =====
-- The .env file of desktop/app/config.py, and the environment that it is read into.
use ups_orchestrator.Prelude.{
  ℕ, ◌≡◌, refl, String, Bool, true, not, ◌&&◌, ◌||◌, Option, none, some, List, [], ◌∷◌, ◌++◌, ◌==◌,
  if◌then◌else◌,
}
use ups_orchestrator.Prelude.Options.{◌>>=◌}
use ups_orchestrator.Prelude.Environ.{Environ, get}
use ups_orchestrator.Prelude.Texts.{
  is_empty, strip, before_first, after_first, has, starts, is_white, split_lines,
}

-- What `putenv` takes: a name that is not empty, and no NUL. The name has no "=" already.
abbrev pub is_valid : String × String → Bool
is_valid entry =
    not (is_empty entry.0) && not (has (λ c. c == 0) entry.0 || has (λ c. c == 0) entry.1)

abbrev set_unless : Option String → String × String → Environ → Option Environ
set_unless (some _) entry environ = some environ
set_unless none entry environ = if is_valid entry then some (environ ++ entry ∷ []) else none

-- `os.environ.setdefault`, `none` where it raises.
unfoldable pub set_default : String × String → Environ → Option Environ
set_default entry environ = set_unless (get entry.0 environ) entry environ

abbrev pub is_equals : ℕ → Bool
is_equals c = c == b'='

abbrev pub is_hash : ℕ → Bool
is_hash c = c == b'#'

abbrev pub is_quote : ℕ → Bool
is_quote c = c == 39 || c == 34

-- The assignment on a line that is stripped.
unfoldable pub parse_stripped : String → Option (String × String)
parse_stripped line =
    if has is_equals line && not (starts is_hash line)
    then some (
      strip is_white (before_first is_equals line),
      strip is_quote (strip is_white (after_first is_equals line)),
    )
    else none

-- The body of the loop over the lines, less the change of the environment.
unfoldable pub parse_line : String → Option (String × String)
unfolding parse_stripped
parse_line line = parse_stripped (strip is_white line)

abbrev apply : Option (String × String) → Environ → Option Environ
apply none environ = some environ
apply (some entry) environ = set_default entry environ

-- The loop over the lines.
unfoldable pub load_lines : List String → Environ → Option Environ
load_lines [] environ = some environ
load_lines (line ∷ lines) environ = do
  changed ← apply (parse_line line) environ
  load_lines lines changed

-- The two files: the text, `none` for one that is not a readable file.
pub record EnvFiles : Type 0 where
  pub local_exists : Bool
  pub local : Option String
  pub system : Option String

-- The file of a checkout if it is there, else the one of the package.
abbrev pub env_file : EnvFiles → Option String
env_file files = if files.local_exists then files.local else files.system

abbrev pub load_text : Option String → Environ → Option Environ
load_text none environ = some environ
load_text (some text) environ = load_lines (split_lines text) environ

unfoldable pub load_env : EnvFiles → Environ → Option Environ
load_env files environ = load_text (env_file files) environ

sample :
    load_env
      (record {
        local_exists = true;
        local = some " A = 'x y' \r\n#B=1\nC\nA=2\nD=\"a=b";
        system = none;
      })
      (("D", "0") ∷ [])
    ≡ some (("D", "0") ∷ ("A", "x y") ∷ [])
unfolding load_env load_lines set_default parse_line split_lines
sample = refl
