-- ===== src/Context/Starting.antt =====
-- How an outage begins: the phase that is chosen, its deadline and its timer.
use ups_orchestrator.Prelude.{
  ℕ, suc, ◌+◌, ◌≤◌, ◌≡◌, Bool, true, false, Option, none, some, is_some, Bool-cases, inl, inr, refl,
  ap, sym, ◌∙◌, arith, if◌then◌else◌,
}
use mathlib.Core.Path.{ap₂, subst}
use ups_orchestrator.Prelude.Options.{or_first}
use ups_orchestrator.Config.{TimingConfig, UpsDeviceConfig, DesktopConfig, is_observer}
use ups_orchestrator.Context.State.{
  Mode, monitoring_battery, is_down, Phase, user_prompt, offline_wait, suspend_wait, Status,
  status_of, OrchestratorState, World, mode_of, orch_of,
}
use ups_orchestrator.Context.Monad.{Env, GetReply, reply, unreachable, broken}
use ups_orchestrator.Context.Phases.{
  start_battery_monitoring, start_primary, start_observer, start_phase, arm_phase, desktop_status,
  notify_desktop, choose_phase,
}

-- The phase that each status of a desktop calls for.
abbrev known_phase : Option Status → Phase
known_phase none = offline_wait
known_phase (some Status.online) = user_prompt
known_phase (some Status.suspended) = suspend_wait
known_phase (some Status.offline) = offline_wait
known_phase (some Status.shutting_down) = offline_wait
known_phase (some (Status.other _)) = offline_wait

-- The configured wait of a phase.
abbrev pub configured_wait : TimingConfig → Phase → ℕ
configured_wait timing offline_wait = timing.desktop_offline_wait
configured_wait timing suspend_wait = timing.desktop_suspend_wait
configured_wait timing user_prompt = timing.desktop_online_prompt_wait

-- The phase that the outage starts in, from the configuration, the last known status and the
-- answer of the desktop.
abbrev reply_phase : Option Status → GetReply → Phase
reply_phase cached (reply s) = known_phase (or_first s.status cached)
reply_phase cached unreachable = if is_down cached then offline_wait else suspend_wait
reply_phase cached broken = if is_down cached then offline_wait else suspend_wait

abbrev pub first_phase : Bool → Option DesktopConfig → Option Status → GetReply → Phase
first_phase true desktop cached r = offline_wait
first_phase false none cached r = offline_wait
first_phase false (some d) cached r = reply_phase cached r

-- A time that is set, and no earlier or no later than a bound.
abbrev pub AtLeast : ℕ → Option ℕ → Type 0
AtLeast n none = ⊥
AtLeast n (some t) = n ≤ t

abbrev pub AtMost : ℕ → Option ℕ → Type 0
AtMost n none = ⊥
AtMost n (some t) = t ≤ n

AtLeast-le : {m n : ℕ} → m ≤ n → (o : Option ℕ) → AtLeast n o → AtLeast m o
AtLeast-le le none h = h
AtLeast-le le (some t) h = omega arith

module _ (env : Env) where
  -- What holds of a world `w'` in which `phase` has been started since `w`.
  abbrev Begun : World → Phase → World → Type 0
  Begun w phase w' =
      (mode_of w'.shared ≡ monitoring_battery)
      × ((orch_of w'.orch_file).phase ≡ some phase)
      × AtLeast (w.clock + configured_wait w.device.timing phase)
          (orch_of w'.orch_file).phase_deadline
      × AtMost (configured_wait w.device.timing phase) w'.deadline_timer

  -- A phase that is begun later, on the same device, is begun.
  later-Begun :
      (w v : World) (phase phase' : Phase) (w' : World)
      → v.device ≡ w.device
      → w.clock ≤ v.clock
      → phase ≡ phase'
      → Begun v phase w'
      → Begun w phase' w'
  later-Begun w v phase phase' w' d c e h =
      let same : configured_wait v.device.timing phase ≡ configured_wait w.device.timing phase' =
        ap₂ (λ (device : UpsDeviceConfig) (p : Phase). configured_wait device.timing p) d e in
      (
        h.0,
        h.1 ∙ ap {B = Option Phase} some e,
        AtLeast-le (omega (arith, same)) (orch_of w'.orch_file).phase_deadline h.2,
        subst (λ n. AtMost n w'.deadline_timer) same h.3,
      )

  notify_desktop-same :
      (w : World)
      → let w' = (notify_desktop env w).1 in
        (w'.orch_file ≡ w.orch_file) × (w'.deadline_timer ≡ w.deadline_timer)
  unfolding notify_desktop
  notify_desktop-same w = ground arith

  arm_phase-Begun :
      (orch : OrchestratorState) (status : Option Status) (phase : Phase) (w : World)
      → orch.mode ≡ monitoring_battery
      → Begun w phase (arm_phase env orch status phase w).1
  unfolding arm_phase
  arm_phase-Begun orch status phase w m = ground arith

  -- The phase stays begun while the desktop is told of it.
  notify_desktop-Begun :
      (w : World) (phase : Phase) (v : World)
      → Begun w phase v
      → Begun w phase (notify_desktop env v).1
  notify_desktop-Begun w phase v (m, p, d, t) =
      let (f, e) = notify_desktop-same v in
      (
        ap {B = Mode} (λ file. (orch_of file).mode) f ∙ m,
        ap {B = Option Phase} (λ file. (orch_of file).phase) f ∙ p,
        subst
            (λ file.
              AtLeast (w.clock + configured_wait w.device.timing phase)
                (orch_of file).phase_deadline)
            (sym f) d,
        subst (AtMost (configured_wait w.device.timing phase)) (sym e) t,
      )

  pub start_phase-Begun :
      (orch : OrchestratorState) (status : Option Status) (phase : Phase) (w : World)
      → orch.mode ≡ monitoring_battery
      → Begun w phase (start_phase env orch status phase w).1
  unfolding start_phase
  start_phase-Begun orch status user_prompt w m =
      notify_desktop-Begun w user_prompt (arm_phase env orch status user_prompt w).1
        (arm_phase-Begun orch status user_prompt w m)
  start_phase-Begun orch status offline_wait w m = arm_phase-Begun orch status offline_wait w m
  start_phase-Begun orch status suspend_wait w m = arm_phase-Begun orch status suspend_wait w m

  start_observer-Begun :
      (orch : OrchestratorState) (w : World)
      → orch.mode ≡ monitoring_battery
      → Begun w offline_wait (start_observer env orch w).1
  unfolding start_observer
  start_observer-Begun orch w m = ground arith

  -- The phase that follows from the live query.
  desktop_status-first_phase :
      (w : World)
      → let asked = desktop_status env w.device.desktop w in
        (asked.1.device ≡ w.device)
        × (w.clock ≤ asked.1.clock)
        × (choose_phase (is_some w.device.desktop) asked.0
            ≡ first_phase false w.device.desktop (status_of w.desktop_file) (env.get_reply w.ticks))
  unfolding desktop_status
  desktop_status-first_phase w = ground arith

  start_primary-Begun :
      (orch : OrchestratorState) (w : World)
      → orch.mode ≡ monitoring_battery
      → Begun w
          (first_phase false w.device.desktop (status_of w.desktop_file) (env.get_reply w.ticks))
          (start_primary env orch w).1
  unfolding start_primary
  start_primary-Begun orch w m =
      let asked = desktop_status env w.device.desktop w in
      let (d, c, e) = desktop_status-first_phase w in
      later-Begun w asked.1 (choose_phase (is_some w.device.desktop) asked.0) _
        (start_primary env orch w).1 d c e
        (start_phase-Begun orch asked.0 (choose_phase (is_some w.device.desktop) asked.0) asked.1 m)

  -- The branch on the role, in the world `v` that the first lines of the method leave.
  start_role-Begun :
      (orch : OrchestratorState) (w v : World)
      → orch.mode ≡ monitoring_battery
      → v.device ≡ w.device
      → v.desktop_file ≡ w.desktop_file
      → v.ticks ≡ suc w.ticks
      → w.clock ≤ v.clock
      → Begun w
          (first_phase
            (is_observer w.device)
            w.device.desktop
            (status_of w.desktop_file)
            (env.get_reply (suc w.ticks)))
          ((if is_observer w.device then start_observer env orch else start_primary env orch) v).1
  start_role-Begun orch w v m d f t c = elim (Bool-cases (is_observer w.device)) [
    | inl o ↦ rw o (
        later-Begun w v offline_wait offline_wait (start_observer env orch v).1 d c refl
          (start_observer-Begun orch v m))
    | inr o ↦ rw o (
        later-Begun w v
          (first_phase false v.device.desktop (status_of v.desktop_file) (env.get_reply v.ticks))
          (first_phase false w.device.desktop (status_of w.desktop_file)
            (env.get_reply (suc w.ticks)))
          (start_primary env orch v).1 d c
          (λ i. first_phase false (d i).desktop (status_of (f i)) (env.get_reply (t i)))
          (start_primary-Begun orch v m))
  ]

  -- Monitoring starts in the phase that the role, the desktop's answer and, where there is none, its
  -- last known status call for: an observer and a primary without a desktop wait offline; a desktop
  -- that is online is prompted, a suspended one has the wait before it is woken, and any other waits
  -- offline, by the status that it answers; and one that does not answer counts as suspended unless it
  -- had said that it was going down. The deadline lies the whole wait of the phase after the call,
  -- and the armed timer fires after that wait at the latest.
  pub start_battery_monitoring-phase :
      (w : World)
      → let w' = (start_battery_monitoring env w).1 in
        let phase =
          first_phase
            (is_observer w.device)
            w.device.desktop
            (status_of w.desktop_file)
            (env.get_reply (suc w.ticks)) in
        let wait = configured_wait w.device.timing phase in
        (mode_of w'.shared ≡ monitoring_battery)
        × ((orch_of w'.orch_file).phase ≡ some phase)
        × AtLeast (w.clock + wait) (orch_of w'.orch_file).phase_deadline
        × AtMost wait w'.deadline_timer
  unfolding start_battery_monitoring
  start_battery_monitoring-phase w = elim (Bool-cases w.ups_on_battery) [
    | inl b ↦ rw b (start_role-Begun _ w _ refl refl refl refl (omega arith))
    | inr b ↦ rw b (start_role-Begun _ w _ refl refl refl refl (omega arith))
  ]
