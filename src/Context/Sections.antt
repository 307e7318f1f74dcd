-- ===== src/Context/Sections.antt =====
-- The sections under `_action_lock` and `_start_lock` against the methods of server/app/ups_context.py as one step.
use ups_orchestrator.Prelude.{
  ℕ, suc, ◌+◌, ◌≡◌, refl, sym, ap, ◌∙◌, none, List, [], ◌∷◌, Bool, Bool-cases, inl, inr, true,
  false, some, arith,
}
use ups_orchestrator.Config.{is_observer}
use ups_orchestrator.Context.State.{
  Mode, idle, is_monitoring, is_down, Status, Reason, Shared, World, mode_of,
}
use ups_orchestrator.Context.Monad.{Env}
use ups_orchestrator.Context.Power.{leave_monitoring, terminal_action}
use ups_orchestrator.Context.Phases.{execute_phase_action, start_monitoring_if_mode}
use ups_orchestrator.Context.Handlers.{notify_desktop_state_change}
use ups_orchestrator.Context.Threads.{whole, System, Interleaved, one_by_one}
use ups_orchestrator.Context.Serial.{Interleaved-one_by_one}
use ups_orchestrator.Context.Lock.{
  Section, execute, report, reset, finish, goes_on, write_section, write_start,
}

module _ (env : Env) (w : World) where
  -- The clock at the next call, and at the one after it.
  abbrev next_time : ℕ
  next_time = w.clock + env.delay w.ticks

  abbrev later_time : ℕ
  later_time = next_time + env.delay (suc w.ticks)

  execute-section :
      (r : Reason)
      → (execute_phase_action env r w).1.shared
        ≡ whole (write_section env.to_iso (execute next_time later_time)) w.shared
  unfolding execute_phase_action write_section
  execute-section r = ground arith

  reset-section :
      (leave_monitoring env idle (some "ONLINE") w).1.shared
      ≡ whole (write_section env.to_iso (reset next_time)) w.shared
  unfolding leave_monitoring write_section
  reset-section = ground arith

  finish-section :
      goes_on (finish next_time (is_observer w.device)) w.shared ≡ false
      → (terminal_action env w).1.shared
        ≡ whole (write_section env.to_iso (finish next_time (is_observer w.device))) w.shared
  unfolding terminal_action write_section
  finish-section h = ground arith

  report-section :
      (status : Status)
      → is_down (some status) ≡ true
      → is_observer w.device ≡ false
      → is_monitoring (mode_of w.shared) ≡ true
      → (notify_desktop_state_change env (some status) w).1.orch_file
        ≡ (whole (write_section env.to_iso (report next_time)) w.shared).orch_file
  unfolding notify_desktop_state_change write_section
  report-section status d o m = ground arith

  start-section :
      (allowed : Mode → Bool)
      → (start_monitoring_if_mode env allowed w).1.shared
        ≡ whole (write_start (record { env = env; context = w; allowed = allowed })) w.shared
  unfolding start_monitoring_if_mode write_start
  start-section allowed = elim (Bool-cases (allowed (mode_of w.shared))) [
    | inl b ↦ rw b refl
    | inr b ↦ rw b refl
  ]

-- A call of a method with a part under `_action_lock`: the answers that it gets, and the context with
-- its clock.
pub data Method : Type 0 where
  phase_action : Reason → Method
  stand_down : Method

pub record LockedCall : Type 0 where
  pub env : Env
  pub context : World
  pub method : Method

section_at : Env → World → Method → Section
section_at env w (phase_action r) = execute (next_time env w) (later_time env w)
section_at env w stand_down = reset (next_time env w)

-- What the thread of the call writes under the lock.
unfoldable pub write_call : LockedCall → Shared → Shared → Shared
unfolding section_at
write_call c = write_section c.env.to_iso (section_at c.env c.context c.method)

step_at : Env → World → Method → Shared
step_at env w (phase_action r) = (execute_phase_action env r w).1.shared
step_at env w stand_down = (leave_monitoring env idle (some "ONLINE") w).1.shared

-- The call as one step, as the other modules have it.
unfoldable pub step : LockedCall → Shared → Shared
unfolding step_at
step c h = step_at c.env (record c.context { shared = h }) c.method

pub steps : (ℕ → LockedCall) → List ℕ → Shared → Shared
steps calls [] h = h
steps calls (i ∷ order) h = step (calls i) (steps calls order h)

step-section :
    (env : Env) (w : World) (m : Method)
    → step_at env w m ≡ whole (write_section env.to_iso (section_at env w m)) w.shared
unfolding step_at section_at
step-section env w (phase_action r) = execute-section env w r
step-section env w stand_down = reset-section env w

section_at-shared :
    (env : Env) (w : World) (h : Shared) (m : Method)
    → section_at env (record w { shared = h }) m ≡ section_at env w m
unfolding section_at
section_at-shared env w h (phase_action r) = refl
section_at-shared env w h stand_down = refl

steps-one_by_one :
    (calls : ℕ → LockedCall) (start : Shared) (order : List ℕ)
    → steps calls order start ≡ one_by_one (λ i. write_call (calls i)) start order
unfolding steps step write_call one_by_one
steps-one_by_one calls start [] = refl
steps-one_by_one calls start (i ∷ order) =
    let c = calls i in
    let h = steps calls order start in
    let v = record c.context { shared = h } in
    let same : one_by_one (λ i. write_call (calls i)) start order ≡ h =
      sym (steps-one_by_one calls start order) in
    rw same (
      step-section c.env v c.method
      ∙ ap (λ sec. whole (write_section c.env.to_iso sec) h)
          (section_at-shared c.env c.context h c.method))

-- However the phase actions and resets of many threads interleave at the lock, whenever the lock is free
-- the shared state is the one that the calls leave one after another, each as one step, in the order in
-- which they took the lock.
pub calls-one_by_one :
    (calls : ℕ → LockedCall) (start : Shared) (order : List ℕ) (s : System)
    → Interleaved (λ i. write_call (calls i)) start order s
    → s.holder ≡ none
    → s.shared ≡ steps calls order start
calls-one_by_one calls start order s r free =
    Interleaved-one_by_one (λ i. write_call (calls i)) start order s r free
    ∙ sym (steps-one_by_one calls start order)
