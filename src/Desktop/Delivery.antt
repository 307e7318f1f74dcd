-- ===== src/Desktop/Delivery.antt =====
-- From a report on the desktop to the state that the server keeps.
use ups_orchestrator.Prelude.{
  ℕ, ◌≡◌, refl, ap, ◌∙◌, sym, String, true, Option, none, some, List, ◌∷◌, arith, str_eq,
  if◌then◌else◌, ◌↔◌, ◌≢◌, ◌⊎◌, inl, inr, eq_iff, Bool-cases, Option-cases,
}
use ups_orchestrator.Prelude.Options.{map_option}
use ups_orchestrator.Context.State.{World, DesktopState, Status}
use ups_orchestrator.Context.Monad.{Env, now_ts}
use ups_orchestrator.Context.Handlers.{notify_desktop_state_change}
use ups_orchestrator.Server.Routes.{Response, route}
use ups_orchestrator.Server.Dispatch.{Contexts, get_context, serve, serve-route, serve_refused}
use ups_orchestrator.Desktop.Settings.{Settings}
use ups_orchestrator.Desktop.Reports.{
  Report, Post, Poster, imported, run_tool, tool_post, is_success, request_of, read_status,
}

-- What the server stores of a report at a time.
abbrev stored : Report → ℕ → DesktopState
stored r t = record {
  hostname = some r.hostname;
  status = some (read_status r.status);
  user_active = r.user_active;
  source = some r.source;
  last_seen = t;
}

-- The clock that the route reads.
abbrev arrival : Env → World → ℕ
arrival env w = (now_ts env w).0

module _ (env : Env) (max_age : ℕ) where
  notify-desktop_file :
      (s : Option Status) (w : World)
      → (notify_desktop_state_change env s w).1.shared.desktop_file ≡ w.shared.desktop_file
  unfolding notify_desktop_state_change
  notify-desktop_file s w = ground arith

  route-stored :
      (r : Report) (w : World)
      → ((route env max_age (request_of r) w).0.code ≡ 200)
        × ((route env max_age (request_of r) w).1.shared.desktop_file
            ≡ some (stored r (arrival env w)))
  unfolding route
  route-stored r w = (refl, notify-desktop_file (some (read_status r.status)) _)

module _ (env : Env) (max_age : ℕ) (shared_token : String) (contexts : Contexts) where
  -- The server's answer to a post, and the contexts that it leaves.
  abbrev pub deliver : Post → Response × Contexts
  deliver p = serve env max_age shared_token p.token p.device_id (request_of p.report) contexts

  -- A desktop whose posts reach the server.
  abbrev pub connected : Poster
  connected p = some (deliver p).0.code

  -- The stored state of the desktop after a post.
  abbrev pub kept : Post → Option (Option DesktopState)
  kept p = map_option (λ (w : World). w.shared.desktop_file) (get_context p.device_id (deliver p).1)

  kept-deliver :
      (p : Post) (w : World)
      → p.token ≡ shared_token
      → get_context p.device_id contexts ≡ some w
      → ((deliver p).0.code ≡ 200) × (kept p ≡ some (some (stored p.report (arrival env w))))
  kept-deliver p w token known =
      let served =
        serve-route env max_age shared_token p.device_id (request_of p.report) w contexts known in
      let here = route-stored env max_age p.report w in
      rw token (rw (served.0, served.1) (here.0, ap some here.1))

  -- A post is taken, or refused without any change.
  abbrev Taken : Post → Type 0
  Taken p =
      (p.token ≡ shared_token)
      × ((w : World) × (get_context p.device_id contexts ≡ some w))
      × ((deliver p).0.code ≡ 200)

  abbrev Refused : Post → Type 0
  Refused p =
      ((p.token ≢ shared_token) ⊎ (get_context p.device_id contexts ≡ none))
      × (((deliver p).0.code ≡ 403) ⊎ ((deliver p).0.code ≡ 404))
      × ((deliver p).1 ≡ contexts)

  deliver-cases : (p : Post) → Taken p ⊎ Refused p
  deliver-cases p =
      let refused =
        serve_refused env max_age shared_token p.token p.device_id (request_of p.report) contexts in
      elim (Bool-cases (str_eq p.token shared_token)) [
        | inl e ↦
            let same = (eq_iff p.token shared_token).0 e in
            elim (Option-cases (get_context p.device_id contexts)) [
              | inl absent ↦ let r = refused (inr absent) in inr (inr absent, inr (r.3 same), r.1)
              | inr (w, known) ↦ inl (same, (w, known), (kept-deliver p w same known).0)
            ]
        | inr e ↦
            let differs : p.token ≢ shared_token =
              λ same. ground (arith, eq_iff p.token shared_token) in
            let r = refused (inl differs) in inr (inl differs, inl (r.2 differs), r.1)
      ]

  -- The exit code of the tool after a post.
  abbrev exit_after : Post → ℕ
  exit_after p = if is_success (connected p) then 0 else 1

  exit_after-Taken : (p : Post) → Taken p → exit_after p ≡ 0
  exit_after-Taken p t = rw (t.2) refl

  exit_after-Refused : (p : Post) → Refused p → exit_after p ≡ 1
  exit_after-Refused p r = elim r.1 [ inl e ↦ rw e refl | inr e ↦ rw e refl ]

  Refused-Taken : (p : Post) → Refused p → ¬ Taken p
  Refused-Taken p r t = elim r.0 [
    | inl differs ↦ differs t.0
    | inr absent ↦ let known = t.1.1 in cc
  ]

-- With a connection to the server, the tool ends with code 0 exactly when the desktop's token is the
-- server's and its UPS is configured there. The desktop's state at the server is then the status that
-- the tool was given, at the server's time, from an active user and with the source `desktop-hook`;
-- otherwise no context changes.
pub run_tool-delivers :
    (env : Env) (max_age : ℕ) (shared_token : String) (contexts : Contexts) (s : Settings)
    (hostname status : String) (args : List String)
    → let run =
        run_tool
          (connected env max_age shared_token contexts)
          hostname
          (imported s)
          (status ∷ args) in
      (p : Post) × (run.posted ≡ some p)
      × ((run.exit_code ≡ 0) ↔ (
          (s.shared_token ≡ shared_token)
          × ((w : World) × (get_context s.ups_device_id contexts ≡ some w))))
      × ((w : World)
          → s.shared_token ≡ shared_token
          → get_context s.ups_device_id contexts ≡ some w
          → kept env max_age shared_token contexts p
            ≡ some (
                some (record {
                  hostname = some hostname;
                  status = some (read_status status);
                  user_active = true;
                  source = some "desktop-hook";
                  last_seen = (now_ts env w).0;
                })))
      × (run.exit_code ≢ 0 → (deliver env max_age shared_token contexts p).1 ≡ contexts)
unfolding run_tool
run_tool-delivers env max_age shared_token contexts s hostname status args =
    let p = tool_post s.server_base s.ups_device_id s.shared_token hostname status in
    let kept_then =
      λ (w : World) (token : s.shared_token ≡ shared_token)
          (known : get_context s.ups_device_id contexts ≡ some w).
        (kept-deliver env max_age shared_token contexts p w token known).1 in
    elim (deliver-cases env max_age shared_token contexts p) [
      | inl t ↦
          let done = exit_after-Taken env max_age shared_token contexts p t in
          (p, refl, ((λ _. (t.0, t.1)), λ _. done), kept_then, λ failed. absurd (failed done))
      | inr r ↦
          let failed = exit_after-Refused env max_age shared_token contexts p r in
          (
            p,
            refl,
            (
              (λ done. let e : 1 ≡ 0 = sym failed ∙ done in absurd (omega (arith, e))),
              λ k. absurd (
                  Refused-Taken env max_age shared_token contexts p r (
                    k.0,
                    k.1,
                    (kept-deliver env max_age shared_token contexts p k.1.0 k.0 k.1.1).0,
                  )),
            ),
            kept_then,
            λ _. r.2,
          )
    ]
