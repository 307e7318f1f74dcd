-- ===== src/Fleet/Standing.antt =====
-- Whether mains power ends an outage, in a fleet.
use ups_orchestrator.Prelude.{
  ◌≡◌, refl, ap, ◌∙◌, sym, Bool, true, false, not, ◌&&◌, ◌||◌, Option, some, none, List, [], ◌∷◌,
  arith, any, map, select, str_eq, Bool-cases, inl, inr,
}
use ups_orchestrator.Config.{DesktopConfig, is_observer}
use ups_orchestrator.Context.State.{World, Peer, monitoring_battery, is_idle, mode_of}
use ups_orchestrator.Context.Monad.{Env}
use ups_orchestrator.Context.Peers.{
  in_outage, register_peers, peers_of_desktop, desktop_ups_on_battery,
}
use ups_orchestrator.Context.Handlers.{online, handle_event}
use ups_orchestrator.Context.Recovery.{online-IsStoodDown}
use ups_orchestrator.Context.Holding.{online_held}
use ups_orchestrator.Fleet.{peer_of, with_peers}

abbrev pub same_desktop : Option DesktopConfig → Option DesktopConfig → Bool
same_desktop none _ = false
same_desktop (some d) none = false
same_desktop (some d) (some e) = str_eq e.agent_url d.agent_url

-- A context `c` holds `w` in the outage: it is another one, the observer of the same desktop, and in
-- an outage.
abbrev pub holds : World → World → Bool
holds w c =
    not (str_eq c.device.id w.device.id)
    && (is_observer c.device
        && same_desktop w.device.desktop c.device.desktop
        && in_outage c.shared)

any-select :
    {A : Type 0} (p q : A → Bool) (xs : List A) → any p (select q xs) ≡ any (λ x. q x && p x) xs
any-select p q [] = refl
any-select p q (x ∷ xs) = elim (Bool-cases (q x)) [
  | inl e ↦ rw e (ap (λ b. p x || b) (any-select p q xs))
  | inr e ↦ rw e (any-select p q xs)
]

any-map :
    {A B : Type 0} (f : A → B) (p : B → Bool) (xs : List A)
    → any p (map f xs) ≡ any (λ x. p (f x)) xs
any-map f p [] = refl
any-map f p (x ∷ xs) = ap (λ b. p (f x) || b) (any-map f p xs)

any_ext :
    {A : Type 0} (p q : A → Bool) → ((x : A) → p x ≡ q x) → (xs : List A) → any p xs ≡ any q xs
any_ext p q h [] = refl
any_ext p q h (x ∷ xs) = ground (arith, h x, any_ext p q h xs)

-- An observer of this desktop that is in an outage.
abbrev is_out : Option DesktopConfig → Peer → Bool
is_out o c = is_observer c.device && same_desktop o c.device.desktop && in_outage c.shared

any-never : {A : Type 0} (p : A → Bool) → ((x : A) → p x ≡ false) → (xs : List A) → any p xs ≡ false
any-never p h [] = refl
any-never p h (x ∷ xs) = ground (arith, h x, any-never p h xs)

any-peers_of_desktop :
    (o : Option DesktopConfig) (peers : List Peer)
    → any (λ c. in_outage c.shared) (peers_of_desktop o true peers) ≡ any (is_out o) peers
unfolding peers_of_desktop
any-peers_of_desktop none peers = sym (any-never (is_out none) (λ c. ground arith) peers)
any-peers_of_desktop (some d) peers =
    any-select (λ c. in_outage c.shared)
      (λ c. is_observer c.device && same_desktop (some d) c.device.desktop) peers
    ∙ any_ext
        (λ c.
          (is_observer c.device && same_desktop (some d) c.device.desktop) && in_outage c.shared)
        (is_out (some d)) (λ c. ground arith) peers

pub any-register_peers :
    (w : World) (fleet : List World)
    → desktop_ups_on_battery w.device (register_peers w.device (map peer_of fleet))
      ≡ any (holds w) fleet
unfolding desktop_ups_on_battery register_peers
any-register_peers w fleet =
    any-peers_of_desktop w.device.desktop (register_peers w.device (map peer_of fleet))
    ∙ any-select (is_out w.device.desktop) (λ c. not (str_eq c.device.id w.device.id))
        (map peer_of fleet)
    ∙ any-map peer_of (λ c. not (str_eq c.device.id w.device.id) && is_out w.device.desktop c) fleet

-- At a context that monitors, mains power ends the outage exactly when no other context of the fleet
-- is the observer of the same desktop and in an outage; otherwise the context goes on.
pub online-holds :
    (env : Env) (w : World) (fleet : List World)
    → mode_of w.shared ≡ monitoring_battery
    → is_idle (mode_of (handle_event (with_peers env fleet w) online w).1.shared)
      ≡ not (any (holds w) fleet)
online-holds env w fleet m = elim (Bool-cases (any (holds w) fleet)) [
  | inl e ↦ rw e (online_held (with_peers env fleet w) w (λ k. any-register_peers w fleet ∙ e) m)
  | inr e ↦
      let down =
        online-IsStoodDown (with_peers env fleet w) w (λ k. any-register_peers w fleet ∙ e)
          (ap is_idle m) in
      rw e (ap is_idle down.0.mode_idle)
]
