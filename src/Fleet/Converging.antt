-- ===== src/Fleet/Converging.antt =====
-- The fleet once every UPS is on mains again.
use ups_orchestrator.Prelude.{
  ℕ, ◌≡◌, refl, ap, ◌∙◌, sym, String, Bool, true, false, not, ◌&&◌, Option, some, none, List, [],
  ◌∷◌, arith, any, map, str_eq, contains, Bool-cases, inl, inr, All, eq_iff,
}
use mathlib.Core.Path.{subst}
use ups_orchestrator.Config.{UpsDeviceConfig, is_observer}
use ups_orchestrator.Context.State.{
  Mode, idle, monitoring_battery, shutting_down, desktop_handled, World, mode_of,
}
use ups_orchestrator.Context.Monad.{Env, printed, upsc_argv, read_ups_status}
use ups_orchestrator.Context.Peers.{desktop_ups_on_battery}
use ups_orchestrator.Context.Desktop.{fetch_state_from_desktop}
use ups_orchestrator.Context.Phases.{follow_desktop_ups, follow, reset_to_idle, ask_desktop_ups}
use ups_orchestrator.Context.Handlers.{
  note_own_power, note_status, on_status, handle_flags, handle_ups_status_transition,
}
use ups_orchestrator.Context.Recovery.{note_own_power-facts}
use ups_orchestrator.Context.Conduct.{
  handle_ups_status_transition-Conduct, handle_ups_status_unavailable-Conduct,
}
use ups_orchestrator.Server.Routes.{poll_device, poll_status}
use ups_orchestrator.Fleet.{with_peers}
use ups_orchestrator.Fleet.Reachable.{fetch_state-SameState}
use ups_orchestrator.Fleet.Standing.{holds, same_desktop, any-register_peers}
use ups_orchestrator.Fleet.Polls.{poll_one}

-- `upsc` says that the UPS is on line, and neither on battery nor low.
abbrev pub OnLine : Option String → Type 0
OnLine none = ⊥
OnLine (some text) =
    (contains "OB" text ≡ false) × (contains "LB" text ≡ false) × (contains "OL" text ≡ true)

reset_to_idle-idle :
    (env : Env) (reason : String) (w : World) → mode_of (reset_to_idle env reason w).1.shared ≡ idle
unfolding reset_to_idle
reset_to_idle-idle env reason w = ground arith

-- With no UPS of its desktop out, a context on mains is idle.
follow-idle :
    (env : Env) (mode : Mode) (reason : String) (w : World)
    → mode_of w.shared ≡ mode
    → mode_of (follow env false mode reason w).1.shared ≡ idle
unfolding follow
follow-idle env idle reason w e = e
follow-idle env monitoring_battery reason w e = reset_to_idle-idle env reason w
follow-idle env shutting_down reason w e = reset_to_idle-idle env reason w
follow-idle env desktop_handled reason w e = reset_to_idle-idle env reason w

module _ (env : Env) (w : World) where
  -- No UPS of the desktop of `w` is out, whenever the peers are asked.
  abbrev Free : Type 0
  Free = (k : ℕ) → desktop_ups_on_battery w.device (env.peers k) ≡ false

  follow_ups-idle :
      (reason : String) (v : World)
      → Free
      → v.device ≡ w.device
      → mode_of (follow_desktop_ups env (mode_of v.shared) reason v).1.shared ≡ idle
  unfolding follow_desktop_ups
  follow_ups-idle reason v free d =
      let asked = (ask_desktop_ups env v).1 in
      let out : (ask_desktop_ups env v).0 ≡ false =
        ap (λ (device : UpsDeviceConfig). desktop_ups_on_battery device (env.peers v.ticks)) d
        ∙ free v.ticks in
      rw out (follow-idle env (mode_of v.shared) reason asked refl)

  on_line-idle :
      (v : World)
      → Free
      → v.device ≡ w.device
      → mode_of (handle_flags env false false true v).1.shared ≡ idle
  unfolding handle_flags note_status on_status
  on_line-idle v free d =
      let u = (note_own_power env false v).1 in
      follow_ups-idle "power_restored" u free ((note_own_power-facts env false v).3 ∙ d)

  transition-idle :
      (text : String) (v : World)
      → OnLine (some text)
      → Free
      → v.device ≡ w.device
      → mode_of (handle_ups_status_transition env text v).1.shared ≡ idle
  unfolding handle_ups_status_transition
  transition-idle text v (b, low, l) free d = rw (b, low, l) (on_line-idle v free d)

pub not_empty : (text : String) → contains "OL" text ≡ true → str_eq text "" ≡ false
unfolding contains
not_empty text h = elim (Bool-cases (str_eq text "")) [
  | inl e ↦
      let empty : text ≡ "" = (eq_iff text "").0 e in
      let no : contains "OL" "" ≡ true = subst (λ t. contains "OL" t ≡ true) empty h in cc no
  | inr e ↦ e
]

-- What a poll that finds the UPS on line leaves behind.
unfoldable pub Settled : World → World → Type 0
Settled w w' = (mode_of w'.shared ≡ idle) × (w'.device ≡ w.device)

poll_status-Settled :
    (env : Env) (max_age : ℕ) (w v : World) (status : Option String)
    → OnLine status
    → Free env w
    → v.device ≡ w.device
    → Settled w (poll_status env max_age status v).1
unfolding Settled poll_status
poll_status-Settled env max_age w v none h free d = absurd h
poll_status-Settled env max_age w v (some text) (b, low, l) free d = rw (not_empty text l) (
  transition-idle env w text v (b, low, l) free d,
  (handle_ups_status_transition-Conduct env text v).same_device ∙ d,
)

-- Two devices of one desktop, of which `c` is an observer.
abbrev pub shares : UpsDeviceConfig → UpsDeviceConfig → Bool
shares d c = not (str_eq c.id d.id) && (is_observer c && same_desktop d.desktop c.desktop)

-- No desktop has two observers.
abbrev pub Apart : List UpsDeviceConfig → Type 0
Apart devices = All (λ d. is_observer d ≡ true → any (shares d) devices ≡ false) devices

abbrev pub devices_of : List World → List UpsDeviceConfig
devices_of fleet = map (λ w. w.device) fleet

abbrev pub IsIdle : World → Type 0
IsIdle w = mode_of w.shared ≡ idle

-- An observer is out of its outage.
abbrev pub ObserverIdle : World → Type 0
ObserverIdle w = is_observer w.device ≡ true → IsIdle w

pub any-holds_apart :
    (w : World) (fleet : List World)
    → any (shares w.device) (devices_of fleet) ≡ false
    → any (holds w) fleet ≡ false
any-holds_apart w [] h = refl
any-holds_apart w (c ∷ fleet) h = ground (arith, any-holds_apart w fleet)

holds_idle : (w c : World) → ObserverIdle c → holds w c ≡ false
holds_idle w c h = elim (Bool-cases (is_observer c.device)) [
  | inl e ↦ let m = h e in rw (e, m) (ground arith)
  | inr e ↦ rw e (ground arith)
]

pub any-holds_idle :
    (w : World) (fleet : List World) → All ObserverIdle fleet → any (holds w) fleet ≡ false
any-holds_idle w [] h = refl
any-holds_idle w (c ∷ fleet) h = ground (arith, holds_idle w c h.0, any-holds_idle w fleet h.1)

-- A poll never changes the device, whatever `upsc` says.
poll_status-device :
    (env : Env) (max_age : ℕ) (status : Option String) (w : World)
    → (poll_status env max_age status w).1.device ≡ w.device
unfolding poll_status
poll_status-device env max_age none w = (handle_ups_status_unavailable-Conduct env w).same_device
poll_status-device env max_age (some text) w = elim (Bool-cases (str_eq text "")) [
  | inl e ↦ rw e ((handle_ups_status_unavailable-Conduct env w).same_device)
  | inr e ↦ rw e ((handle_ups_status_transition-Conduct env text w).same_device)
]

pub poll_one-device :
    (env : UpsDeviceConfig → Env) (max_age : ℕ) (fleet : List World) (w : World)
    → (poll_one env max_age fleet w).device ≡ w.device
unfolding poll_device
poll_one-device env max_age fleet w =
    let e = with_peers (env w.device) fleet w in
    let v = (fetch_state_from_desktop e w).1 in
    poll_status-device e max_age (read_ups_status e v).0 (read_ups_status e v).1
    ∙ (fetch_state-SameState e w).2

module _ (env : UpsDeviceConfig → Env) (max_age : ℕ)
    (mains : (d : UpsDeviceConfig) (k : ℕ)
      → OnLine (printed ((env d).upsc k (upsc_argv d.nut_name "ups.status")))) where
  -- What a poll reads once it has asked the desktop.
  pub polled-OnLine :
      (fleet : List World) (w : World)
      → let e = with_peers (env w.device) fleet w in
        OnLine (read_ups_status e (fetch_state_from_desktop e w).1).0
  polled-OnLine fleet w =
      let e = with_peers (env w.device) fleet w in
      let v = (fetch_state_from_desktop e w).1 in
      subst
        (λ (d : UpsDeviceConfig).
          OnLine (printed (e.upsc v.ticks (upsc_argv d.nut_name "ups.status"))))
        (sym (fetch_state-SameState e w).2) (mains w.device v.ticks)

  -- A context that no other holds is idle after its poll, and keeps its device.
  pub poll_one-Settled :
      (fleet : List World) (w : World)
      → any (holds w) fleet ≡ false
      → Settled w (poll_one env max_age fleet w)
  unfolding poll_device
  poll_one-Settled fleet w free =
      let e = with_peers (env w.device) fleet w in
      let v = (fetch_state_from_desktop e w).1 in
      poll_status-Settled e max_age w (read_ups_status e v).1 (read_ups_status e v).0
        (polled-OnLine fleet w) (λ k. any-register_peers w fleet ∙ free)
        (fetch_state-SameState e w).2
