-- ===== src/Prelude/Texts.antt =====
-- What the programs use of the texts of Python.
use Prim.Native.Char.{Char, code}
use ups_orchestrator.Prelude.{
  ℕ, String, Bool, true, false, ◌&&◌, ◌||◌, List, [], ◌∷◌, leb, ◌==◌, if◌then◌else◌,
}

abbrev pub is_empty : String → Bool
is_empty String.[] = true
is_empty (String.◌∷◌ _ _) = false

-- The characters of a text that a test picks: `strip` takes them off both ends.
module _ (picked : ℕ → Bool) where
  abbrev pub strip_start : String → String
  strip_start String.[] = ""
  strip_start (String.◌∷◌ c s) =
      let rest = strip_start s in if picked (code c) then rest else String.◌∷◌ c s

  abbrev pub strip_end : String → String
  strip_end String.[] = ""
  strip_end (String.◌∷◌ c s) =
      let rest = strip_end s in if picked (code c) && is_empty rest then "" else String.◌∷◌ c rest

  abbrev pub strip : String → String
  strip s = strip_end (strip_start s)

  -- The text up to the first such character, and the text behind it.
  abbrev pub before_first : String → String
  before_first String.[] = ""
  before_first (String.◌∷◌ c s) =
      let rest = before_first s in if picked (code c) then "" else String.◌∷◌ c rest

  abbrev pub after_first : String → String
  after_first String.[] = ""
  after_first (String.◌∷◌ c s) = let rest = after_first s in if picked (code c) then s else rest

  -- Whether such a character is in the text, and whether the text starts with one.
  abbrev pub has : String → Bool
  has String.[] = false
  has (String.◌∷◌ c s) = picked (code c) || has s

  abbrev pub starts : String → Bool
  starts String.[] = false
  starts (String.◌∷◌ c s) = picked (code c)

-- `str.isspace` of one character.
abbrev pub is_white : ℕ → Bool
is_white c =
    leb 9 c && leb c 13
    || leb 28 c && leb c 32
    || c == 133
    || c == 160
    || c == 5760
    || leb 8192 c && leb c 8202
    || c == 8232
    || c == 8233
    || c == 8239
    || c == 8287
    || c == 12288

-- The characters that end a line for `splitlines`.
abbrev pub is_break : ℕ → Bool
is_break c = leb 10 c && leb c 13 || leb 28 c && leb c 30 || c == 133 || c == 8232 || c == 8233

-- One more character at the start of the first line.
abbrev extend : Char → List String → List String
extend c [] = String.◌∷◌ c "" ∷ []
extend c (line ∷ lines) = String.◌∷◌ c line ∷ lines

-- `splitlines`; "\r\n" is one end of a line.
unfoldable pub split_lines : String → List String
split_lines String.[] = []
split_lines (String.◌∷◌ c s) =
    let rest = split_lines s in
    if code c == 13 && starts (λ d. d == 10) s
    then rest
    else if is_break (code c)
    then "" ∷ rest
    else extend c rest
