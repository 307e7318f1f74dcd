-- ===== src/Server/Errors.antt =====
-- What a request leaves that is not answered with 200.
use ups_orchestrator.Prelude.{
  ℕ, ◌≡◌, ◌≢◌, refl, String, some, List, [], ◌∷◌, arith, eq_iff, inl, inr, Option-cases,
}
use ups_orchestrator.Prelude.Options.{map_option}
use ups_orchestrator.Config.{UpsDeviceConfig}
use ups_orchestrator.Context.State.{CommandId, CommandStatus, Shared, Effect, Worker, World}
use ups_orchestrator.Context.Monad.{Env}
use ups_orchestrator.Server.Routes.{
  Request, get_status, post_event, update_state, get_state, read_command, create_command,
  create_nameless, ack, preflight, route,
}
use ups_orchestrator.Server.Dispatch.{Contexts, get_context, put_context, serve}

-- A context, but for the time and the number of its calls.
abbrev pub standing : World → UpsDeviceConfig × Shared × List Effect × List Worker
standing w = (w.device, w.shared, w.effects, w.threads)

module _ (env : Env) (max_age : ℕ) where
  get_state-ok : (w : World) → (route env max_age get_state w).0.code ≡ 200
  unfolding route
  get_state-ok w = ground arith

  ack-ok :
      (id : CommandId) (new : CommandStatus) (w : World)
      → (route env max_age (ack id new) w).0.code ≡ 200
  unfolding route
  ack-ok id new w = ground arith

  route-standing :
      (req : Request) (w : World)
      → (route env max_age req w).0.code ≢ 200
      → standing (route env max_age req w).1 ≡ standing w
  unfolding route
  route-standing get_status w h = refl
  route-standing (post_event text) w h = absurd (h refl)
  route-standing (update_state hostname status user_active source) w h = absurd (h refl)
  route-standing get_state w h = absurd (h (get_state-ok w))
  route-standing read_command w h = refl
  route-standing (create_command name event expires_at) w h = absurd (h refl)
  route-standing create_nameless w h = refl
  route-standing (ack id new) w h = absurd (h (ack-ok id new w))
  route-standing (preflight id name) w h = refl

put_context-standing :
    (id key : String) (w w' : World) (contexts : Contexts)
    → get_context id contexts ≡ some w
    → standing w' ≡ standing w
    → map_option standing (get_context key (put_context id w' contexts))
      ≡ map_option standing (get_context key contexts)
put_context-standing id key w w' [] h e = refl
put_context-standing id key w w' ((other, v) ∷ rest) h e =
    ground (arith, eq_iff other id, eq_iff other key, put_context-standing id key w w' rest)

module _ (env : Env) (max_age : ℕ) (shared_token : String) where
  -- A request that is not answered with 200 changes nothing under any id: whether it was refused for
  -- its token, its UPS, its command or a missing `upsc`, every context has its device, its shared
  -- state, its effects and its threads as before.
  pub serve-standing :
      (token id : String) (req : Request) (contexts : Contexts) (key : String)
      → let served = serve env max_age shared_token token id req contexts in
        served.0.code ≢ 200
        → map_option standing (get_context key served.1)
          ≡ map_option standing (get_context key contexts)
  unfolding serve
  serve-standing token id req contexts key h = elim (Option-cases (get_context id contexts)) [
    | inl e ↦ ground arith
    | inr (w, e) ↦ ground (
      arith,
      put_context-standing id key w (route env max_age req w).1 contexts e,
      route-standing env max_age req w,
    )
  ]
