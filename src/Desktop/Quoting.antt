-- ===== src/Desktop/Quoting.antt =====
-- Writing an assignment so that desktop/app/config.py reads it back.
use Prim.Native.Char.{Char, code, nul}
use ups_orchestrator.Prelude.{ℕ, ◌≡◌, refl, ap, ◌∙◌, String, Bool, true, false, some, arith}
use ups_orchestrator.Prelude.Texts.{
  is_empty, strip_start, strip_end, strip, before_first, after_first, has, starts, is_white,
}
use ups_orchestrator.Desktop.EnvFile.{is_equals, is_hash, is_quote, parse_line}

-- One text after the other, character by character.
infixr 65 ◌+++◌
abbrev pub ◌+++◌ : String → String → String
String.[] +++ t = t
(String.◌∷◌ c s) +++ t = String.◌∷◌ c (s +++ t)

abbrev head : String → Char
head String.[] = nul
head (String.◌∷◌ c s) = c

abbrev equals : Char
equals = head "="

abbrev quote : Char
quote = head "\""

-- `name="value"`
abbrev pub write_line : String → String → String
write_line name value = name +++ "=\"" +++ value +++ "\""

module _ (picked : ℕ → Bool) where
  -- No such character is at either end.
  abbrev pub IsTrimmed : String → Type 0
  IsTrimmed s = (starts picked s ≡ false) × (strip_end picked s ≡ s)

  is_empty-append : (s t : String) → is_empty t ≡ false → is_empty (s +++ t) ≡ false
  is_empty-append String.[] t h = h
  is_empty-append (String.◌∷◌ c s) t h = refl

  strip_start_id : (s : String) → starts picked s ≡ false → strip_start picked s ≡ s
  strip_start_id String.[] h = refl
  strip_start_id (String.◌∷◌ c s) h = ground arith

  -- What stands before an end that stays stays too.
  strip_end-append :
      (s t : String)
      → is_empty t ≡ false
      → strip_end picked t ≡ t
      → strip_end picked (s +++ t) ≡ s +++ t
  strip_end-append String.[] t some_end h = h
  strip_end-append (String.◌∷◌ c s) t some_end h =
      ground (arith, strip_end-append s t some_end h, is_empty-append s t)

  strip_end_drop :
      (s : String) (c : Char)
      → picked (code c) ≡ true
      → strip_end picked (s +++ String.◌∷◌ c "") ≡ strip_end picked s
  strip_end_drop String.[] c h = ground arith
  strip_end_drop (String.◌∷◌ d s) c h = ground (arith, strip_end_drop s c h)

  before_first-append :
      (s : String) (c : Char) (t : String)
      → has picked s ≡ false
      → picked (code c) ≡ true
      → before_first picked (s +++ String.◌∷◌ c t) ≡ s
  before_first-append String.[] c t without at_c = ground arith
  before_first-append (String.◌∷◌ d s) c t without at_c = ground (arith, before_first-append s c t)

  after_first-append :
      (s : String) (c : Char) (t : String)
      → has picked s ≡ false
      → picked (code c) ≡ true
      → after_first picked (s +++ String.◌∷◌ c t) ≡ t
  after_first-append String.[] c t without at_c = ground arith
  after_first-append (String.◌∷◌ d s) c t without at_c = ground (arith, after_first-append s c t)

  has-append :
      (s : String) (c : Char) (t : String)
      → picked (code c) ≡ true
      → has picked (s +++ String.◌∷◌ c t) ≡ true
  has-append String.[] c t at_c = ground arith
  has-append (String.◌∷◌ d s) c t at_c = ground (arith, has-append s c t at_c)

  starts-append :
      (s : String) (c : Char) (t : String)
      → starts picked s ≡ false
      → picked (code c) ≡ false
      → starts picked (s +++ String.◌∷◌ c t) ≡ false
  starts-append String.[] c t h k = k
  starts-append (String.◌∷◌ d s) c t h k = h

-- A name without an equals sign, with no white space at its ends and no hash sign in front.
abbrev pub IsName : String → Type 0
IsName s = (has is_equals s ≡ false) × IsTrimmed is_white s × (starts is_hash s ≡ false)

strip_quotes :
    (value : String) → IsTrimmed is_quote value → strip is_quote ("\"" +++ value +++ "\"") ≡ value
strip_quotes String.[] h = refl
strip_quotes (String.◌∷◌ c s) h =
    ap (strip_end is_quote) (strip_start_id is_quote (String.◌∷◌ c (s +++ "\"")) h.0)
    ∙ strip_end_drop is_quote (String.◌∷◌ c s) quote refl
    ∙ h.1

strip_white_quoted :
    (value : String) → strip is_white ("\"" +++ value +++ "\"") ≡ "\"" +++ value +++ "\""
strip_white_quoted value =
    ap (λ t. String.◌∷◌ quote t) (strip_end-append is_white value "\"" refl refl)

strip_line :
    (name value : String)
    → IsName name
    → strip is_white (write_line name value) ≡ write_line name value
strip_line name value h =
    ap (strip_end is_white) (
      strip_start_id is_white (write_line name value)
        (starts-append is_white name equals ("\"" +++ value +++ "\"") h.1.0 refl))
    ∙ strip_end-append is_white name ("=\"" +++ value +++ "\"") refl
        (ap (λ t. String.◌∷◌ equals t) (strip_white_quoted value))

-- A value between double quotes is read back as it is, with its white space, its equals signs and its
-- hash signs, if it has no quote at either end and the name is one that can be written.
pub parse_line-write_line :
    (name value : String)
    → IsName name
    → IsTrimmed is_quote value
    → parse_line (write_line name value) ≡ some (name, value)
unfolding parse_line
parse_line-write_line name value n v =
    let rest = "\"" +++ value +++ "\"" in
    rw
      (
        strip_line name value n,
        has-append is_equals name equals rest refl,
        starts-append is_hash name equals rest n.2 refl,
        before_first-append is_equals name equals rest n.0 refl,
        after_first-append is_equals name equals rest n.0 refl,
        strip_start_id is_white name n.1.0,
        n.1.1,
      )
      (ap (λ t. some (name, t))
        (ap (strip is_quote) (strip_white_quoted value) ∙ strip_quotes value v))
