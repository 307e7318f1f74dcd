-- ===== src/Tests/Agents.antt =====
-- The theorems about the desktop's agents, each at an input.
use ups_orchestrator.Prelude.{
  ◌*◌, ◌≤◌, ℕ, ◌≡◌, ◌⊎◌, ◌↔◌, refl, String, Bool, true, false, none, some, List, [], ◌∷◌, str_eq,
  any, ◌+◌, if◌then◌else◌,
}
use ups_orchestrator.Prelude.Int.{pos, range_length}
use ups_orchestrator.Config.{primary}
use ups_orchestrator.Context.State.{Mode, World}
use ups_orchestrator.Context.Handlers.{online, handle_event}
use ups_orchestrator.Context.Peers.{desktop_ups_on_battery}
use ups_orchestrator.Agent.Monad.{CmdResult, ran, AgentEnv, AgentState}
use ups_orchestrator.Agent.Shutdown.{execute_shutdown, poweroff_cmd, first_word, do_suspend}
use ups_orchestrator.Agent.Dialogs.{
  Choice, zenity_argv, kdialog_argv, prompt_soft_suspend, zenity_choice,
}
use ups_orchestrator.Agent.Handler.{shut_down, AgentRequest, obey, run_job}
use ups_orchestrator.Agent.Obeying.{programs, asking, online-obey}
use ups_orchestrator.Agent.Bounds.{count_programs, do_suspend-count}
use ups_orchestrator.Agent.Answers.{IsClosed, SaysCancel, prompt_soft_suspend-cancel}
use ups_orchestrator.PowerAgent.{
  PowerEnv, Signal, prepare_for_sleep, terminated, waking_terminated, take_delay_lock, send_state,
  release_delay_lock, come_online, wake_up, on_signal, handle_signal, on_prepare_for_sleep,
  on_prepare_for_shutdown, on_signals, run_agent, fresh,
}
use ups_orchestrator.PowerAgent.Laws.{
  IsBalanced, opened_fds, closed_fds, ToldThenReleased, run_agent-IsBalanced,
  prepare-ToldThenReleased,
}
use ups_orchestrator.PowerAgent.Reporting.{last_report, run_agent-last_report}
use ups_orchestrator.Samples.{env, world_in, command}

-- A desktop on which suspending fails, and so does `upsmon`.
abbrev mentions : String → List String → Bool
mentions word argv = any (λ w. str_eq w word) argv

abbrev pub outcome : ℕ → List String → CmdResult
outcome k argv =
    if mentions "poweroff" argv
    then record { code = 0; output = "" }
    else if mentions "pidof" argv
    then record { code = 0; output = "4711 4712" }
    else record { code = 1; output = "Access denied" }

abbrev pub agent : AgentEnv
agent = record {
  run = λ k argv. some (outcome k argv);
  which = λ k name. str_eq name "zenity";
  allows = λ k id name. some true;
  shared_token = "change-me";
  max_retries = pos 3;
  retry_delay = pos 5;
  force_suspend = true;
  upsmon_bin = "upsmon";
  shutdown_bin = "/sbin/shutdown";
  prompt_timeout = "5";
}

abbrev pub start : AgentState
start = record { effects = []; ticks = 0 }

abbrev running : World
running = world_in primary Mode.shutting_down true

online-obey_example :
    let desktop = asking env 300 agent (handle_event env online running).1 in
    (programs (obey desktop command.id Choice.shutdown start).1.effects ≡ [])
    × (programs (run_job desktop (shut_down command.id 10) start).1.effects ≡ [])
unfolding desktop_ups_on_battery
online-obey_example =
    online-obey env 300 agent running command.id Choice.shutdown 10 start (λ k. refl) refl

-- The process of `upsmon` is the first that `pidof` prints, and `systemctl` is the way that works.
shutdown_runs :
    (execute_shutdown agent start).1.effects
    ≡ ran (poweroff_cmd agent)
      ∷ ran ("sudo" ∷ "-n" ∷ "upsmon" ∷ "-c" ∷ "fsd" ∷ "-P" ∷ "4711" ∷ [])
      ∷ ran ("pidof" ∷ "upsmon" ∷ [])
      ∷ []
unfolding execute_shutdown first_word
shutdown_runs = refl

-- Zenity is closed on this desktop.
prompt_soft_suspend-cancel_example : ((prompt_soft_suspend agent start).0 ≡ some Choice.cancel) ↔ (
    ((agent.which 0 "zenity" ≡ true) × IsClosed (agent.run 1 (zenity_argv agent)))
    ⊎ ((agent.which 0 "zenity" ≡ false)
        × (agent.which 1 "kdialog" ≡ true)
        × SaysCancel (agent.run 2 (kdialog_argv agent))))
prompt_soft_suspend-cancel_example = prompt_soft_suspend-cancel agent start

-- A dialog in which a choice was confirmed is no cancel.
confirmed : zenity_choice (record { code = 0; output = "Shutdown" }) ≡ Choice.shutdown
unfolding zenity_choice
confirmed = refl

abbrev request : AgentRequest
request = record {
  token = "change-me";
  path = "/command";
  command = some "critical_shutdown";
  id = command.id;
  delay_seconds = 30;
  event = none;
}

abbrev power : PowerEnv
power = record { post_ok = λ k status. false; inhibit = λ k. some (k + 10); network_wait = pos 5 }

abbrev signals : List Signal
signals = prepare_for_sleep true ∷ prepare_for_sleep false ∷ terminated ∷ []

run_agent-IsBalanced_example :
    IsBalanced
      (on_signals power signals (send_state power "online" 3 (take_delay_lock power fresh)).1)
    × (opened_fds (run_agent power signals).effects ≡ closed_fds (run_agent power signals).effects)
run_agent-IsBalanced_example = run_agent-IsBalanced power signals

-- Two locks are taken in this session.
session_opens : opened_fds (run_agent power signals).effects ≡ 17 ∷ 10 ∷ []
unfolding run_agent release_delay_lock on_signals on_signal handle_signal on_prepare_for_sleep
    come_online wake_up take_delay_lock send_state
session_opens = refl

run_agent-last_report_example :
    (last_report (run_agent power (prepare_for_sleep true ∷ terminated ∷ [])) ≡ some "offline")
    × (last_report (run_agent power (prepare_for_sleep true ∷ waking_terminated ∷ []))
        ≡ some "online")
run_agent-last_report_example = run_agent-last_report power (prepare_for_sleep true ∷ []) [] refl

prepare-ToldThenReleased_example :
    let holding = record fresh { inhibit_fd = some 10 } in
    ToldThenReleased power 10 holding (on_prepare_for_sleep power true holding)
    × ToldThenReleased power 10 holding (on_prepare_for_shutdown power true holding)
prepare-ToldThenReleased_example =
    prepare-ToldThenReleased power 10 (record fresh { inhibit_fd = some 10 }) refl

do_suspend-count_example :
    count_programs (do_suspend agent command.id start).1
    ≤ range_length agent.max_retries * 2 + 4 + count_programs start
do_suspend-count_example = do_suspend-count agent command.id start
