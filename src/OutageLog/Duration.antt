-- ===== src/OutageLog/Duration.antt =====
-- `_human_duration` of server/app/outage_log.py.
use Prim.Native.Char.{code}
use Prim.Native.String.{◌++◌ as ◌<>◌}
use ups_orchestrator.Prelude.{
  ℕ, suc, ◌+◌, ◌-◌, ◌*◌, ◌/◌, ◌%◌, String, List, [], ◌∷◌, map, ltb, ◌==◌, if◌then◌else◌,
}
use ups_orchestrator.Prelude.Int.{ℤ, pos, negsuc}
use ups_orchestrator.Prelude.Decimal.{decimal, join_by_space}
pub mod Reading

pub data TimeUnit : Type 0 where
  hours minutes seconds : TimeUnit

abbrev pub label : TimeUnit → String
label hours = "h"
label minutes = "m"
label seconds = "s"

pub record DurationPart : Type 0 where
  pub value : ℕ
  pub unit : TimeUnit

-- f"{value}{label}"
unfoldable pub part_text : DurationPart → String
unfolding decimal
part_text p = decimal p.value <> label p.unit

abbrev add_part : ℕ → TimeUnit → List DurationPart → List DurationPart
add_part value unit rest = if value == 0 then rest else record { value = value; unit = unit } ∷ rest

-- The loop over the three units, unrolled: each takes `divmod` of what is left.
unfoldable pub parts : ℕ → List DurationPart
parts s =
    let rest = s % 3600 in
    add_part (s / 3600) hours (add_part (rest / 60) minutes (add_part (rest % 60 / 1) seconds []))

unfoldable pub human_duration : ℤ → String
unfolding part_text parts join_by_space
human_duration (negsuc n) = "-" <> (decimal (suc n) <> "s")
human_duration (pos n) =
    if ltb n 60 then decimal n <> "s" else join_by_space (map part_text (parts n))
