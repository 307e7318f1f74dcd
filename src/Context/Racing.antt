-- ===== src/Context/Racing.antt =====
-- The threads that race for one outage in server/app/ups_context.py: which of them start what follows.
use ups_orchestrator.Prelude.{
  ℕ, ◌≡◌, ◌≢◌, refl, ap, ◌∙◌, [], ◌++◌, Bool-cases, inl, inr, String, Bool, true, false, none, List,
  ◌∷◌, arith,
}
use ups_orchestrator.Context.State.{
  Mode, monitoring_battery, is_monitoring, is_shutting_down, Shared, mode_of,
}
use ups_orchestrator.Context.Lock.{
  Section, execute, report, goes_on, write_section, StartCall, may_start, write_start,
}
use ups_orchestrator.Context.Threads.{left, System, whole, Interleaved, one_by_one}
use ups_orchestrator.Context.Serial.{Interleaved-one_by_one}
use ups_orchestrator.Context.Starting.{start_battery_monitoring-phase}
use ups_orchestrator.Context.Once.{IsGuarded, Interleaved-Single}

-- `_execute_phase_action`, or `notify_desktop_state_change` for a desktop that goes down.
abbrev pub is_starter : Section → Bool
is_starter (execute saved ended) = true
is_starter (report saved) = true
is_starter _ = false

module _ (to_iso : ℕ → String) where
  write_section-shuts :
      (c : Section) (v h : Shared)
      → is_starter c ≡ true
      → goes_on c v ≡ true
      → is_shutting_down (mode_of (write_section to_iso c v h)) ≡ true
  unfolding write_section
  write_section-shuts c v h k g = ground arith

  write_section-stays :
      (c : Section) (v h : Shared)
      → is_starter c ≡ true
      → goes_on c v ≡ false
      → write_section to_iso c v h ≡ h
  unfolding write_section
  write_section-stays c v h k g = ground arith

  goes_on-is_open :
      (c : Section) (v : Shared)
      → is_starter c ≡ true
      → goes_on c v ≡ true
      → is_shutting_down (mode_of v) ≡ false
  goes_on-is_open c v k g = ground arith

  starter-goes :
      (c : Section) (v : Shared)
      → is_starter c ≡ true
      → is_monitoring (mode_of v) ≡ true
      → goes_on c v ≡ true
  starter-goes c v k m = ground arith

  -- However many phase actions and desktop reports race, and however their steps interleave, at most
  -- one of them goes on to start a thread; and if the context was monitoring, it is shutting down
  -- whenever the lock is free after the first of them.
  pub starters-once :
      (code : ℕ → Section) (start : Shared) (order : List ℕ) (s : System)
      → ((i : ℕ) → is_starter (code i) ≡ true)
      → Interleaved (λ i. write_section to_iso (code i)) start order s
      → ((j k : ℕ) (u v : Shared)
          → s.place j ≡ left u
          → goes_on (code j) u ≡ true
          → s.place k ≡ left v
          → goes_on (code k) v ≡ true
          → j ≡ k)
        × ((first : ℕ) (rest : List ℕ)
            → order ≡ first ∷ rest
            → is_monitoring (mode_of start) ≡ true
            → s.holder ≡ none
            → is_shutting_down (mode_of s.shared) ≡ true)
  starters-once code start order s starters r =
      let guarded : IsGuarded _ (λ i. goes_on (code i)) (λ h. is_shutting_down (mode_of h)) =
        record {
          closes = λ i v h. write_section-shuts (code i) v h (starters i);
          stays = λ i v h. write_section-stays (code i) v h (starters i);
          found_open = λ i v. goes_on-is_open (code i) v (starters i);
        } in
      let single = Interleaved-Single _ start _ _ guarded order s r in
      (
        single.0,
        λ first rest e m. single.1 first rest e (λ j. starter-goes (code j) start (starters j) m),
      )

is_monitoring-eq : (m : Mode) → is_monitoring m ≡ true → m ≡ monitoring_battery
is_monitoring-eq m h = ground arith

write_start-monitors :
    (c : StartCall) (v h : Shared)
    → may_start c v ≡ true
    → is_monitoring (mode_of (write_start c v h)) ≡ true
unfolding write_start
write_start-monitors c v h g =
    let w = record c.context { shared = record h { orch_file = v.orch_file } } in
    rw g (ap is_monitoring (start_battery_monitoring-phase c.env w).0)

write_start-stays : (c : StartCall) (v h : Shared) → may_start c v ≡ false → write_start c v h ≡ h
unfolding write_start
write_start-stays c v h n = rw n refl

changes-may_start :
    (c : StartCall) (v : Shared) → whole (write_start c) v ≢ v → may_start c v ≡ true
changes-may_start c v changes = elim (Bool-cases (may_start c v)) [
  | inl g ↦ g
  | inr n ↦ absurd (changes (write_start-stays c v v n))
]

may_start-is_open :
    (c : StartCall) (v : Shared)
    → c.allowed monitoring_battery ≡ false
    → may_start c v ≡ true
    → is_monitoring (mode_of v) ≡ false
may_start-is_open c v refuses g = elim (Bool-cases (is_monitoring (mode_of v))) [
  | inl m ↦ let at = ap c.allowed (is_monitoring-eq (mode_of v) m) in cc
  | inr n ↦ n
]

-- The first call starts the monitoring, and those behind it write nothing.
first_start :
    (calls : ℕ → StartCall) (start : Shared) (first : ℕ) (later : List ℕ)
    → ((i : ℕ) → (calls i).allowed monitoring_battery ≡ false)
    → may_start (calls first) start ≡ true
    → one_by_one (λ i. write_start (calls i)) start (later ++ first ∷ [])
      ≡ whole (write_start (calls first)) start
unfolding one_by_one
first_start calls start first [] refuses g = refl
first_start calls start first (i ∷ later) refuses g =
    let h = whole (write_start (calls first)) start in
    let before = first_start calls start first later refuses g in
    let monitors =
      is_monitoring-eq (mode_of h) (write_start-monitors (calls first) start start g) in
    rw before (write_start-stays (calls i) h h (ap (calls i).allowed monitors ∙ refuses i))

-- However many calls race to start the monitoring, such as an ONBATT of the UPS itself and a poll that
-- finds only the desktop's UPS out, if none of them allows a context that monitors already, then at most
-- one of them changes the state that it has found; and if the first to take the lock allows the mode at
-- first, then whenever the lock is free the state is the one that this call alone leaves, and the
-- context is monitoring.
pub start_calls-once :
    (calls : ℕ → StartCall) (start : Shared) (order : List ℕ) (s : System)
    → ((i : ℕ) → (calls i).allowed monitoring_battery ≡ false)
    → Interleaved (λ i. write_start (calls i)) start order s
    → ((j k : ℕ) (u v : Shared)
        → s.place j ≡ left u
        → whole (write_start (calls j)) u ≢ u
        → s.place k ≡ left v
        → whole (write_start (calls k)) v ≢ v
        → j ≡ k)
      × ((first : ℕ) (later : List ℕ)
          → order ≡ later ++ first ∷ []
          → (calls first).allowed (mode_of start) ≡ true
          → s.holder ≡ none
          → (s.shared ≡ whole (write_start (calls first)) start)
            × (is_monitoring (mode_of s.shared) ≡ true))
start_calls-once calls start order s refuses r =
    let guarded : IsGuarded _ (λ i. may_start (calls i)) (λ h. is_monitoring (mode_of h)) = record {
      closes = λ i v h. write_start-monitors (calls i) v h;
      stays = λ i v h. write_start-stays (calls i) v h;
      found_open = λ i v. may_start-is_open (calls i) v (refuses i);
    } in
    let single = (Interleaved-Single _ start _ _ guarded order s r).0 in
    (
      λ j k u v at_j changes_j at_k changes_k.
          single j k u v at_j (changes-may_start (calls j) u changes_j) at_k
            (changes-may_start (calls k) v changes_k),
      λ first later e g free.
          let alone =
            Interleaved-one_by_one _ start order s r free
            ∙ ap (one_by_one (λ i. write_start (calls i)) start) e
            ∙ first_start calls start first later refuses g in
          (
            alone,
            ap (λ h. is_monitoring (mode_of h)) alone
                ∙ write_start-monitors (calls first) start start g,
          ),
    )
