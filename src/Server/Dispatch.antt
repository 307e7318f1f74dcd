-- ===== src/Server/Dispatch.antt =====
-- `require_token`, `get_context` and the routes over all contexts, in the order of CONTEXTS.
use ups_orchestrator.Prelude.{
  ℕ, ◌≡◌, ◌≢◌, ◌⊎◌, refl, String, Option, none, some, List, [], ◌∷◌, arith, str_eq, eq_iff,
  if◌then◌else◌,
}
use text.Mathlib.TextPositions.{eq_refl}
use ups_orchestrator.Config.{UpsDeviceConfig}
use ups_orchestrator.Context.State.{World}
use ups_orchestrator.Context.Monad.{Env}
use ups_orchestrator.Server.Routes.{Request, Response, empty, route}

abbrev pub Contexts : Type 0
Contexts = List (String × World)

-- `CONTEXTS.get(ups_id)`
abbrev pub get_context : String → Contexts → Option World
get_context id [] = none
get_context id ((key, w) ∷ rest) = if str_eq key id then some w else get_context id rest

abbrev pub replace_key : String → World → Contexts → Contexts
replace_key id w [] = (id, w) ∷ []
replace_key id w ((key, v) ∷ rest) =
    if str_eq key id then (key, w) ∷ rest else (key, v) ∷ replace_key id w rest

-- CONTEXTS: a dictionary keeps a key where it was first, with the context that came last.
abbrev pub add_contexts : (UpsDeviceConfig → World) → List UpsDeviceConfig → Contexts → Contexts
add_contexts new [] contexts = contexts
add_contexts new (d ∷ ds) contexts = add_contexts new ds (replace_key d.id (new d) contexts)

unfoldable pub build_contexts : (UpsDeviceConfig → World) → List UpsDeviceConfig → Contexts
build_contexts new devices = add_contexts new devices []

-- The context under a key, as a request leaves it.
abbrev pub put_context : String → World → Contexts → Contexts
put_context id w' [] = []
put_context id w' ((key, w) ∷ rest) =
    if str_eq key id then (key, w') ∷ rest else (key, w) ∷ put_context id w' rest

module _ (env : Env) (max_age : ℕ) (shared_token : String) where
  serve_context : Option World → String → Request → Contexts → Response × Contexts
  serve_context none id req contexts = (record { code = 404; body = empty }, contexts)
  serve_context (some w) id req contexts =
      let (response, w') = route env max_age req w in (response, put_context id w' contexts)

  -- A request with its token to one context.
  unfoldable pub serve : String → String → Request → Contexts → Response × Contexts
  unfolding serve_context
  serve token id req contexts =
      if str_eq token shared_token
      then serve_context (get_context id contexts) id req contexts
      else (record { code = 403; body = empty }, contexts)

  -- Without the shared token, or for a UPS that is not configured, a request is refused and no
  -- context changes at all.
  pub serve_refused :
      (token id : String) (req : Request) (contexts : Contexts)
      → (token ≢ shared_token) ⊎ (get_context id contexts ≡ none)
      → ((serve token id req contexts).0.body ≡ empty)
        × ((serve token id req contexts).1 ≡ contexts)
        × (token ≢ shared_token → (serve token id req contexts).0.code ≡ 403)
        × (token ≡ shared_token → (serve token id req contexts).0.code ≡ 404)
  unfolding serve
  serve_refused token id req contexts h = ground (arith, eq_iff token shared_token)

  get_context-put_context_ne :
      (id other : String) (w' : World) (contexts : Contexts)
      → id ≢ other
      → get_context other (put_context id w' contexts) ≡ get_context other contexts
  get_context-put_context_ne id other w' [] h = refl
  get_context-put_context_ne id other w' ((key, w) ∷ rest) h =
      ground (arith, eq_iff key id, eq_iff key other, get_context-put_context_ne id other w' rest h)

  get_context-put_context_self :
      (id : String) (w w' : World) (contexts : Contexts)
      → get_context id contexts ≡ some w
      → get_context id (put_context id w' contexts) ≡ some w'
  get_context-put_context_self id w w' [] h = ground arith
  get_context-put_context_self id w w' ((key, v) ∷ rest) h =
      ground (arith, get_context-put_context_self id w w' rest)

  -- A request with the token to a configured UPS runs its route on that context alone: the answer is
  -- the route's, the context becomes what the route leaves, and every other context is as before.
  pub serve-route :
      (id : String) (req : Request) (w : World) (contexts : Contexts)
      → get_context id contexts ≡ some w
      → let served = serve shared_token id req contexts in
        (served.0 ≡ (route env max_age req w).0)
        × (get_context id served.1 ≡ some (route env max_age req w).1)
        × ((other : String) → id ≢ other → get_context other served.1 ≡ get_context other contexts)
  unfolding serve
  serve-route id req w contexts h =
      rw (eq_refl shared_token, h)
        (
          refl,
          get_context-put_context_self id w _ contexts h,
          λ other ne. get_context-put_context_ne id other _ contexts ne,
        )
