-- ===== src/Tests/Servers.antt =====
-- The theorems about the routes and the files, each at an input.
use ups_orchestrator.Prelude.{◌≡◌, ◌≢◌, ◌↔◌, refl, true, false, some, List, [], ◌∷◌, arith}
use ups_orchestrator.Prelude.Options.{map_option}
use ups_orchestrator.Config.{UpsDeviceConfig, primary, observer}
use ups_orchestrator.Context.State.{Mode, Command, World}
use ups_orchestrator.Context.Peers.{desktop_ups_on_battery}
use ups_orchestrator.Context.Handlers.{online, handle_event}
use ups_orchestrator.Server.Routes.{allowed, ok, preflight, route, check_command}
use ups_orchestrator.Server.Dispatch.{Contexts, get_context, build_contexts, serve}
use ups_orchestrator.Server.Preflight.{IsCurrent, Answer, preflight-allowed, online-preflight}
use ups_orchestrator.Server.Errors.{standing, serve-standing}
use ups_orchestrator.Samples.{device_of, env, world_in, command}

abbrev dying : World
dying = world_in primary Mode.shutting_down true

preflight-allowed_example :
    let w = dying in
    let r = (route env 300 (preflight command.id "critical_shutdown") w).0 in
    ((r.body ≡ allowed)
      ↔ ((c : Command) × (w.command_file ≡ some c) × IsCurrent command.id "critical_shutdown" c))
    × Answer command.id "critical_shutdown" w.command_file r
    × ((route env 300 (preflight command.id "critical_shutdown") w).1 ≡ w)
preflight-allowed_example = preflight-allowed env 300 command.id "critical_shutdown" dying

-- Before the event the same command passes.
passes_before : (route env 300 (preflight command.id "critical_shutdown") dying).0 ≡ ok allowed
unfolding route
passes_before = refl

online-preflight_example :
    (route env 300
      (preflight command.id "critical_shutdown")
      (handle_event env online dying).1).0.body
    ≢ allowed
unfolding desktop_ups_on_battery
online-preflight_example =
    online-preflight env 300 command.id "critical_shutdown" dying (λ k. refl) refl

abbrev both : Contexts
both = ("server-ups", dying) ∷ ("desktop-ups", world_in observer Mode.idle false) ∷ []

-- Two devices have one id.
abbrev devices : List UpsDeviceConfig
devices = device_of primary ∷ device_of observer ∷ []

abbrev new : UpsDeviceConfig → World
new d = record (world_in primary Mode.idle false) { device = d }

observer_wins :
    get_context "server-ups" (build_contexts new devices) ≡ some (new (device_of observer))
unfolding build_contexts
observer_wins = refl

-- The desktop asks for a command of another name.
other_name-refused :
    (serve env 300 "change-me" "change-me" "server-ups"
      (preflight command.id "suspend")
      both).0.code
    ≡ 409
unfolding serve check_command route
other_name-refused = refl

serve-standing_example :
    let served =
      serve env 300 "change-me" "change-me" "server-ups" (preflight command.id "suspend") both in
    map_option standing (get_context "server-ups" served.1)
    ≡ map_option standing (get_context "server-ups" both)
serve-standing_example =
    serve-standing env 300 "change-me" "change-me" "server-ups" (preflight command.id "suspend")
      both "server-ups" (ground (arith, other_name-refused))
