-- ===== src/Agent/Answers.antt =====
-- What makes the agent act: the requests that it accepts, and the answers of the dialogs.
use ups_orchestrator.Prelude.{
  suc, ◌≡◌, ◌≢◌, ◌⊎◌, ◌↔◌, contains, str_eq, refl, String, Option-cases, inl, inr, true, false,
  Option, some, none, arith, eq_iff,
}
use ups_orchestrator.Agent.Monad.{CmdResult, AgentEnv, AgentState}
use ups_orchestrator.Agent.Dialogs.{
  cancel, zenity_argv, kdialog_argv, zenity_choice, kdialog_choice, ask_zenity, ask_kdialog,
  prompt_soft_suspend,
}
use ups_orchestrator.Agent.Handler.{Job, ask_user, shut_down, AgentRequest, is_text, do_post}

-- The dialog was closed, or confirmed with neither of the two choices.
abbrev pub IsDismissed : CmdResult → Type 0
IsDismissed r =
    (r.code ≡ 1)
    ⊎ ((r.code ≡ 0) × (contains "Shutdown" r.output ≡ false) × (contains "Sleep" r.output ≡ false))

zenity_choice-cancel : (r : CmdResult) → (zenity_choice r ≡ cancel) ↔ IsDismissed r
unfolding zenity_choice
zenity_choice-cancel r = ground arith

is_cancel :
    (text : String)
    → text ≡ "cancel"
    → (str_eq text "shutdown" ≡ false) × (str_eq text "sleep" ≡ false)
is_cancel text e = rw e (refl, refl)

kdialog_choice-cancel :
    (r : CmdResult) → (kdialog_choice r ≡ cancel) ↔ ((r.code ≡ 0) × (r.output ≡ "cancel"))
unfolding kdialog_choice
kdialog_choice-cancel r = ground (
  arith,
  eq_iff r.output "shutdown",
  eq_iff r.output "sleep",
  eq_iff r.output "cancel",
  λ (e : r.output ≡ "cancel"). is_cancel r.output e,
)

-- The two ways in which a dialog cancels.
abbrev pub IsClosed : Option CmdResult → Type 0
IsClosed none = ⊥
IsClosed (some r) = IsDismissed r

abbrev pub SaysCancel : Option CmdResult → Type 0
SaysCancel none = ⊥
SaysCancel (some r) = (r.code ≡ 0) × (r.output ≡ "cancel")

is_text_iff : (o : Option String) (t : String) → (is_text o t ≡ true) ↔ (o ≡ some t)
is_text_iff none t = ground arith
is_text_iff (some s) t = ground (arith, eq_iff s t)

module _ (env : AgentEnv) where
  ask_zenity-cancel :
      (s : AgentState)
      → ((ask_zenity env s).0 ≡ some cancel) ↔ IsClosed (env.run s.ticks (zenity_argv env))
  unfolding ask_zenity
  ask_zenity-cancel s = elim (Option-cases (env.run s.ticks (zenity_argv env))) [
    | inl e ↦ rw e (ground arith)
    | inr (r, e) ↦ rw e (ground (arith, zenity_choice-cancel r))
  ]

  ask_kdialog-cancel :
      (s : AgentState)
      → ((ask_kdialog env s).0 ≡ some cancel) ↔ SaysCancel (env.run s.ticks (kdialog_argv env))
  unfolding ask_kdialog
  ask_kdialog-cancel s = elim (Option-cases (env.run s.ticks (kdialog_argv env))) [
    | inl e ↦ rw e (ground arith)
    | inr (r, e) ↦ rw e (ground (arith, kdialog_choice-cancel r))
  ]

  -- The computer is left running exactly if the user said so in a dialog: zenity ended with code 1, for
  -- a dialog that was closed, or with code 0 and an output that names neither `Shutdown` nor `Sleep`;
  -- or, without zenity, kdialog ended with code 0 and printed `cancel`. A dialog that timed out or
  -- failed, or that neither tool can show, never cancels.
  pub prompt_soft_suspend-cancel :
      (s : AgentState)
      → ((prompt_soft_suspend env s).0 ≡ some cancel) ↔ (
          ((env.which s.ticks "zenity" ≡ true) × IsClosed (env.run (suc s.ticks) (zenity_argv env)))
          ⊎ ((env.which s.ticks "zenity" ≡ false)
              × (env.which (suc s.ticks) "kdialog" ≡ true)
              × SaysCancel (env.run (suc (suc s.ticks)) (kdialog_argv env))))
  unfolding prompt_soft_suspend
  prompt_soft_suspend-cancel s = ground (
    arith,
    ask_zenity-cancel (record s { ticks = suc s.ticks }),
    ask_kdialog-cancel (record s { ticks = suc (suc s.ticks) }),
  )

  -- A thread is started exactly for a POST to /command with the shared token whose command is
  -- `ups_state` with the event ONBATT, which asks the user, or `critical_shutdown`, which does not;
  -- the answer is then 202, and 400, 403 or 404 otherwise.
  do_post-starts :
      (r : AgentRequest) (j : Job)
      → (((do_post env r).1 ≡ some j) ↔ (
          (r.token ≡ env.shared_token)
          × (r.path ≡ "/command")
          × (((r.command ≡ some "ups_state")
                × (r.event ≡ some "ONBATT")
                × (j ≡ ask_user r.id r.delay_seconds))
              ⊎ ((r.command ≡ some "critical_shutdown") × (j ≡ shut_down r.id r.delay_seconds)))))
        × ((do_post env r).1 ≡ some j → (do_post env r).0 ≡ 202)
        × ((do_post env r).1 ≡ none → (do_post env r).0 ≢ 202)
  unfolding do_post
  do_post-starts r j = ground (
    arith,
    eq_iff r.token env.shared_token,
    eq_iff r.path "/command",
    is_text_iff r.command "ups_state",
    is_text_iff r.command "critical_shutdown",
    is_text_iff r.event "ONBATT",
  )
