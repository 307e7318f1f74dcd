-- ===== src/Agent/Dialogs.antt =====
-- desktop/app/ui.py: the question to the user, and the warning.
use ups_orchestrator.Prelude.{
  String, Bool, some, List, [], ◌∷◌, ◌==◌, str_eq, contains, if◌then◌else◌,
}
use ups_orchestrator.Agent.Monad.{
  CmdResult, AgentEnv, Task, Done, pure, ◌>>=◌, ◌>>◌, when, run_cmd, count,
}

pub data Choice : Type 0 where
  cancel shutdown sleep : Choice

abbrev warning_text : String
warning_text = "Power outage detected! What should the computer do?"

-- What the dialog of zenity stands for, by its code and its output.
unfoldable pub zenity_choice : CmdResult → Choice
unfolding contains
zenity_choice r =
    if r.code == 0
    then if contains "Shutdown" r.output
      then shutdown
      else if contains "Sleep" r.output
      then sleep
      else cancel
    else if r.code == 1
    then cancel
    else shutdown

-- What the menu of kdialog stands for.
unfoldable pub kdialog_choice : CmdResult → Choice
kdialog_choice r =
    if r.code == 0
    then if str_eq r.output "shutdown"
      then shutdown
      else if str_eq r.output "sleep"
      then sleep
      else if str_eq r.output "cancel"
      then cancel
      else shutdown
    else shutdown

module _ (env : AgentEnv) where
  -- `shutil.which`
  abbrev has_tool : String → Task Bool
  has_tool name = count env λ k. some (env.which k name)

  -- `notify`
  unfoldable pub notify : String → String → Task Done
  notify title text = do
    found ← has_tool "notify-send"
    let send = do run_cmd env ("notify-send" ∷ title ∷ text ∷ []); pure tt
    when found send

  abbrev pub zenity_argv : List String
  zenity_argv =
      "zenity" ∷ "--list" ∷ "--radiolist" ∷ "--title" ∷ "UPS Power Warning" ∷ "--text"
      ∷ warning_text ∷ "--column" ∷ "" ∷ "--column" ∷ "Option" ∷ "TRUE" ∷ "Shutdown" ∷ "FALSE"
      ∷ "Sleep" ∷ "--timeout" ∷ env.prompt_timeout ∷ []

  abbrev pub kdialog_argv : List String
  kdialog_argv =
      "kdialog" ∷ "--menu" ∷ warning_text ∷ "shutdown" ∷ "Shutdown" ∷ "sleep" ∷ "Sleep" ∷ "cancel"
      ∷ "Cancel" ∷ "--default" ∷ "shutdown" ∷ "--timeout" ∷ env.prompt_timeout ∷ []

  unfoldable pub ask_zenity : Task Choice
  ask_zenity = do r ← run_cmd env zenity_argv; pure (zenity_choice r)

  unfoldable pub ask_kdialog : Task Choice
  ask_kdialog = do r ← run_cmd env kdialog_argv; pure (kdialog_choice r)

  -- `prompt_soft_suspend`
  unfoldable pub prompt_soft_suspend : Task Choice
  unfolding ask_zenity ask_kdialog notify
  prompt_soft_suspend = do
    zenity ← has_tool "zenity"
    let without = do notify "UPS Power Warning" warning_text; pure shutdown
    let try_kdialog = do kdialog ← has_tool "kdialog"; if kdialog then ask_kdialog else without
    if zenity then ask_zenity else try_kdialog

  abbrev critical_text : String
  critical_text = "Battery level is critical. The computer will shut down now."

  -- `show_critical_warning`
  unfoldable pub show_critical_warning : Task Done
  unfolding notify
  show_critical_warning = do
    zenity ← has_tool "zenity"
    let by_zenity = do
      run_cmd env (
          "zenity" ∷ "--warning" ∷ "--title" ∷ "UPS Critical Shutdown" ∷ "--text" ∷ critical_text
          ∷ "--timeout" ∷ env.prompt_timeout ∷ [])
      pure tt
    let by_kdialog = do
      run_cmd env (
          "kdialog" ∷ "--sorry" ∷ critical_text ∷ "--title" ∷ "UPS Critical Shutdown" ∷ "--timeout"
          ∷ env.prompt_timeout ∷ [])
      pure tt
    let try_kdialog = do
      kdialog ← has_tool "kdialog"
      if kdialog then by_kdialog else notify "UPS Critical Shutdown" critical_text
    if zenity then by_zenity else try_kdialog
