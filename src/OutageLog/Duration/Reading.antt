-- ===== src/OutageLog/Duration/Reading.antt =====
-- What the text of a duration says.
use Prim.Native.Char.{Char, code}
use Prim.Native.String.{◌++◌ as ◌<>◌}
use ups_orchestrator.Prelude.{
  ℕ, Bool, zero, suc, ◌+◌, ◌-◌, ◌*◌, ◌/◌, ◌%◌, ◌≡◌, ◌≢◌, All, ◌≤◌, ◌<◌, refl, ap, ◌∙◌, sym, String,
  List, [], ◌∷◌, map, ltb, leb, ◌&&◌, ◌==◌, if◌then◌else◌, arith, Bool-cases, inl, inr,
}
use mathlib.Core.Path.{ap₂}
use text.Mathlib.TextLemmas.{append_assoc, append-nil, nil-append, cons-append}
use ups_orchestrator.Prelude.Int.{pos}
use ups_orchestrator.Prelude.Decimal.{digit, code-digit, digits_onto, decimal, join_by_space}
use ups_orchestrator.OutageLog.Duration.{
  TimeUnit, hours, minutes, seconds, label, DurationPart, part_text, parts, human_duration,
}

abbrev is_decimal : ℕ → Bool
is_decimal k = leb 48 k && leb k 57

-- The number so far, behind a character: a digit goes on with it, and a letter or a space ends it.
abbrev next_number : ℕ → ℕ → ℕ
next_number acc k = if is_decimal k then acc * 10 + (k - 48) else 0

-- The seconds so far, behind a character: `h`, `m` and `s` add the number that they end.
abbrev next_total : ℕ → ℕ → ℕ → ℕ
next_total total acc k =
    if k == b'h'
    then total + acc * 3600
    else if k == b'm'
    then total + acc * 60
    else if k == b's'
    then total + acc
    else total

unfoldable pub read_on : ℕ → ℕ → String → ℕ
read_on total acc String.[] = total
read_on total acc (String.◌∷◌ c s) =
    read_on (next_total total acc (code c)) (next_number acc (code c)) s

-- The number of seconds that a text such as `1h 2m 5s` stands for, read from left to right.
unfoldable pub read_back : String → ℕ
unfolding read_on
read_back text = read_on 0 0 text

is_number :
    (total acc d : ℕ)
    → d < 10
    → (next_total total acc (code (digit d)) ≡ total)
      × (next_number acc (code (digit d)) ≡ acc * 10 + d)
is_number total acc d h = ground (arith, code-digit d h)

read_on-digit :
    (total acc d : ℕ) (s : String)
    → d < 10
    → read_on total acc (String.◌∷◌ (digit d) s) ≡ read_on total (acc * 10 + d) s
unfolding read_on
read_on-digit total acc d s h =
    ap₂ (λ t a. read_on t a s) (is_number total acc d h).0 (is_number total acc d h).1

-- The digits of a number are read as that number.
read_on-digits_onto :
    (fuel n total : ℕ) (s : String)
    → n ≤ fuel
    → read_on total 0 (digits_onto fuel n s) ≡ read_on total n s
unfolding digits_onto
read_on-digits_onto zero n total s h = ap (λ k. read_on total k s) (omega arith)
read_on-digits_onto (suc fuel) n total s h = elim (Bool-cases (n == 0)) [
  | inl z ↦ rw z (ap (λ k. read_on total k s) (ground arith))
  | inr p ↦ rw p (
      read_on-digits_onto fuel (n / 10) total (String.◌∷◌ (digit (n % 10)) s) (ground arith)
      ∙ read_on-digit total (n / 10) (n % 10) s (omega arith)
      ∙ ap (λ k. read_on total k s) (omega arith))
]

digits_onto-append :
    (fuel n : ℕ) (s t : String) → digits_onto fuel n s <> t ≡ digits_onto fuel n (s <> t)
unfolding digits_onto
digits_onto-append zero n s t = refl
digits_onto-append (suc fuel) n s t = elim (Bool-cases (n == 0)) [
  | inl z ↦ rw z refl
  | inr p ↦ rw p (
      digits_onto-append fuel (n / 10) (String.◌∷◌ (digit (n % 10)) s) t
      ∙ ap (digits_onto fuel (n / 10)) (cons-append (digit (n % 10)) s t))
]

in_front : (c : Char) (t : String) → String.◌∷◌ c "" <> t ≡ String.◌∷◌ c t
in_front c t = cons-append c "" t ∙ ap (String.◌∷◌ c) (nil-append t)

read_digit_0 : (total : ℕ) (t : String) → read_on total 0 (String.◌∷◌ "0" t) ≡ read_on total 0 t
read_digit_0 total t = read_on-digit total 0 0 t (omega arith)

-- A printed number is read as itself.
read_on-decimal : (total n : ℕ) (t : String) → read_on total 0 (decimal n <> t) ≡ read_on total n t
unfolding decimal read_on
read_on-decimal total n t = elim (Bool-cases (n == 0)) [
  | inl z ↦ rw z (
      ap (read_on total 0) (in_front "0" t)
      ∙ read_digit_0 total t
      ∙ ap (λ k. read_on total k t) (ground arith))
  | inr p ↦ rw p (
      ap (read_on total 0) (digits_onto-append n n "" t ∙ ap (digits_onto n n) (nil-append t))
      ∙ read_on-digits_onto n n total t (omega arith))
]

abbrev unit_seconds : TimeUnit → ℕ
unit_seconds hours = 3600
unit_seconds minutes = 60
unit_seconds seconds = 1

abbrev seconds_of : List DurationPart → ℕ
seconds_of [] = 0
seconds_of (p ∷ ps) = p.value * unit_seconds p.unit + seconds_of ps

read_on-label :
    (total n : ℕ) (unit : TimeUnit) (t : String)
    → read_on total n (label unit <> t) ≡ read_on (total + n * unit_seconds unit) 0 t
unfolding read_on
read_on-label total n hours t = ap (read_on total n) (in_front "h" t)
read_on-label total n minutes t = ap (read_on total n) (in_front "m" t)
read_on-label total n seconds t =
    ap (read_on total n) (in_front "s" t) ∙ ap (λ k. read_on k 0 t) (omega arith)

read_on-part_text :
    (total : ℕ) (p : DurationPart) (t : String)
    → read_on total 0 (part_text p <> t) ≡ read_on (total + p.value * unit_seconds p.unit) 0 t
unfolding part_text
read_on-part_text total p t =
    ap (read_on total 0) (append_assoc (decimal p.value) (label p.unit) t)
    ∙ read_on-decimal total p.value (label p.unit <> t)
    ∙ read_on-label total p.value p.unit t

-- The parts are read one after another, over the spaces between them.
read_on-join :
    (total : ℕ) (ps : List DurationPart)
    → read_on total 0 (join_by_space (map part_text ps)) ≡ total + seconds_of ps
unfolding join_by_space read_on
read_on-join total [] = omega arith
read_on-join total (p ∷ []) =
    ap (read_on total 0) (sym (append-nil (part_text p)))
    ∙ read_on-part_text total p ""
    ∙ omega arith
read_on-join total (p ∷ q ∷ ps) =
    read_on-part_text total p (String.◌∷◌ " " (join_by_space (map part_text (q ∷ ps))))
    ∙ read_on-join (total + p.value * unit_seconds p.unit) (q ∷ ps)
    ∙ omega arith

seconds_of-parts : (n : ℕ) → seconds_of (parts n) ≡ n
unfolding parts
seconds_of-parts n = ground arith

-- A part is at least one unit, and its minutes or seconds stay below 60.
abbrev IsCarried : DurationPart → Type 0
IsCarried p = (1 ≤ p.value) × (p.unit ≢ hours → p.value < 60)

parts-IsCarried : (n : ℕ) → All IsCarried (parts n)
unfolding parts
parts-IsCarried n = ground arith

-- The text of a duration of zero seconds or more, read from left to right with `h`, `m` and `s` for
-- 3600, 60 and 1 seconds, stands for exactly that many seconds.
pub read_back-human_duration : (n : ℕ) → read_back (human_duration (pos n)) ≡ n
unfolding human_duration read_back part_text join_by_space
read_back-human_duration n = elim (Bool-cases (ltb n 60)) [
  | inl short ↦ rw short (read_on-join 0 (record { value = n; unit = seconds } ∷ []) ∙ omega arith)
  | inr long ↦ rw long (read_on-join 0 (parts n) ∙ omega (arith, seconds_of-parts n))
]
