-- ===== src/Server/Contexts.antt =====
-- Which contexts the server has for its configured devices.
use ups_orchestrator.Prelude.{
  ◌≡◌, refl, ◌∙◌, String, Option, none, some, List, [], ◌∷◌, arith, str_eq, eq_iff, if◌then◌else◌,
}
use ups_orchestrator.Prelude.Options.{map_option, or_first, or_first-none}
use ups_orchestrator.Config.{UpsDeviceConfig}
use ups_orchestrator.Context.State.{World}
use ups_orchestrator.Server.Dispatch.{
  Contexts, get_context, replace_key, add_contexts, build_contexts,
}

-- The last device with an id.
abbrev pub last_with : String → List UpsDeviceConfig → Option UpsDeviceConfig
last_with id [] = none
last_with id (d ∷ ds) = or_first (last_with id ds) (if str_eq d.id id then some d else none)

get_context-replace_key :
    (id key : String) (w : World) (contexts : Contexts)
    → get_context id (replace_key key w contexts)
      ≡ (if str_eq key id then some w else get_context id contexts)
get_context-replace_key id key w [] = refl
get_context-replace_key id key w ((other, v) ∷ rest) =
    ground (
      arith,
      eq_iff other key,
      eq_iff other id,
      eq_iff key id,
      get_context-replace_key id key w rest,
    )

get_context-add_contexts :
    (new : UpsDeviceConfig → World) (id : String) (devices : List UpsDeviceConfig)
    (contexts : Contexts)
    → get_context id (add_contexts new devices contexts)
      ≡ or_first (map_option new (last_with id devices)) (get_context id contexts)
get_context-add_contexts new id [] contexts = refl
get_context-add_contexts new id (d ∷ ds) contexts = ground (
  arith,
  get_context-add_contexts new id ds (replace_key d.id (new d) contexts),
  get_context-replace_key id d.id (new d) contexts,
)

-- The server answers for exactly the ids of the devices that it is configured with, and its context
-- for an id is that of the last device with it; of two devices with one id the first has none.
pub get_context-build_contexts :
    (new : UpsDeviceConfig → World) (id : String) (devices : List UpsDeviceConfig)
    → get_context id (build_contexts new devices) ≡ map_option new (last_with id devices)
unfolding build_contexts
get_context-build_contexts new id devices =
    get_context-add_contexts new id devices []
    ∙ or_first-none (map_option new (last_with id devices))
