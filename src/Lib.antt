-- ===== src/Lib.antt =====
-- Verification of the UPS orchestrator: a server that watches the UPSes of a home server and of a
-- desktop, brings the desktop down and cuts or keeps the power, and an agent on the desktop.
--
-- Parts, and where they are modelled:
--   Prelude     what the others share of Python: texts (Prelude/Texts), int (Prelude/Numbers), the
--               printing of numbers (Prelude/Decimal) and the environment (Prelude/Environ), besides lists, options and integers.
--   Config      server/app/config.py: the configuration records of a UPS device, their loading
--               (Config/Loading, Config/Desktops), the settings and the choice of the file
--               (Config/Settings).
--   StateStore  server/app/state_store.py: read_json, write_json, state_is_fresh.
--   OutageLog   server/app/outage_log.py: record_start, record_end, resolve_on_startup and
--               _human_duration (OutageLog/Duration), whose text OutageLog/Duration/Reading
--               reads; sequences of calls (OutageLog/Laws).
--   EventLog    server/app/event_log.py: EventLog.record.
--   Wol         server/app/wol.py: the magic packet (Wol/Packet) and its sending (Wol/Send).
--   Context     server/app/ups_context.py, class UPSContext. Context/State has its attributes and
--               files, Context/Monad the calls of the system, Context/Peers the queries between
--               contexts, Context/Desktop and Context/Wake what goes to the desktop,
--               Context/Power the shutdown primitives, Context/Phases the transitions,
--               Context/Handlers the entry points and Context/Workers the threads that wait.
--               Context/Inputs puts the calls that reach a context into one type, and
--               Context/Threads and Context/Lock have its locks. The other
--               children prove: Shutdown, Waiting, Safety, Lasting, Packets, Recovery, LowBattery,
--               Starting, Gap, Dying, Emergency, Holding, Invariant, Upholding (any
--               invariant), Fitting and Recording (two of them), Leftover, Moves, Machine,
--               Restraint, Conduct, Serial, Once, Racing, Sections, Sparing, Cutting.
--   Server      server/app/server.py: the routes (Server/Routes), token and lookup
--               (Server/Dispatch), which contexts there are (Server/Contexts), the commands of the
--               desktop (Server/Preflight), and requests that fail (Server/Errors).
--   Fleet       all contexts of server/app/server.py: the start, the turns that the threads take (a
--               step relation), and the rounds of the poll loop (Fleet/Polls); Fleet/Reachable,
--               Fleet/Standing, Fleet/Converging, Fleet/Settling, Fleet/Orders,
--               Fleet/Held and Fleet/Rivals prove.
--   Agent       desktop/app/agent.py and desktop/app/ui.py: calls and exceptions (Agent/Monad), the
--               dialogs (Agent/Dialogs), do_suspend and do_shutdown (Agent/Shutdown), the requests
--               and threads (Agent/Handler). Agent/Ending, Agent/Bounds, Agent/Answers and Agent/Obeying
--               prove; Agent/Chain follows a shutdown from the server's push to the acknowledgement, and
--               Agent/Prompting the question to the user.
--   PowerAgent  desktop/app/power_agent.py: class PowerAgent; PowerAgent/Laws and
--               PowerAgent/Reporting prove.
--   Desktop     desktop/app/config.py: the .env file (Desktop/EnvFile) and the settings
--               (Desktop/Settings); the reports of state that
--               desktop/app/send_state.py and the agent make (Desktop/Reports). Desktop/Environment,
--               Desktop/Quoting and Desktop/Delivery prove.
--   Samples, Tests  concrete devices and worlds, and the theorems at them.
--
-- The server's poll loop and routes call the entry points of a context; these change its state, push
-- ups_state commands and start at most one worker; workers push critical_shutdown, wait, and end in
-- _terminal_action. A context reads the state of its peers, and the desktop asks the preflight route
-- before it obeys a command.
--
-- A method is an action on a World: the device, the state that threads share (attributes and files),
-- the effects and threads that this run has made, a clock, and the number of external calls. Every
-- answer of the system (HTTP, subprocesses, peers, the passing of time) is a field of Env that is
-- asked with that number, so that no two answers need agree. The clock never goes back, and a sleep
-- lasts five seconds at least. While a worker sleeps the other threads change the shared state as
-- Env.meanwhile says, which is arbitrary; between sleeps a call is one step, and a change by another
-- thread between two statements of one call is not seen, but for two places. Context/Threads has any
-- number of threads at one lock with their steps interleaved, and Context/Lock what they do under
-- _action_lock or under _start_lock; Context/Serial, Context/Once, Context/Racing and Context/Sections
-- prove, the last about the calls as one step. Context/Gap looks at the live query of
-- _start_battery_monitoring.
-- A wait of n seconds has fuel n + 1: a round takes five seconds or more, so that is enough.
--
-- A dictionary of the source is a record with the keys that the code writes, a missing file or key is
-- none, and a status that is null counts as missing. Numbers of seconds are natural; a difference of
-- clock readings in the outage log is an integer. The log takes a reading of the clock also where no
-- outage is open, where the source takes none.
--
-- The agent has a monad of its own, in which a call may raise: the exceptions of subprocess.run end a
-- thread or are caught where the source catches them, and preflight and ack catch what their requests
-- raise. The tries of a suspend and of a report are counted down from their configured number. A
-- signal of the system may come in the power agent's sleep after a wake-up, which is a signal of its
-- own in the model.
--
-- A round of the poll loop polls the contexts one after the other, in the order of the list or in any
-- other (a list of positions), and the loop is a number of rounds; a round's threads run side by side in
-- the source.
--
-- The settings are integers, as `int` reads an ASCII text. The desktop's agents take the number of
-- tries and their pauses as such integers, time.sleep raising below 0; what the server's settings and
-- timings are used for takes natural numbers.
--
-- Not modelled: log messages, the directories that server/app/config.py makes, and the text of time
-- stamps (to_iso, a parameter). Flask, requests, subprocess, threading, json, yaml and D-Bus are parameters
-- or the answers in Env, AgentEnv and PowerEnv.
pub mod Prelude
pub mod Config
pub mod OutageLog
pub mod EventLog
pub mod Wol
pub mod Context
pub mod StateStore
pub mod Server
pub mod Fleet
pub mod Agent
pub mod Desktop
pub mod PowerAgent
pub mod Samples
mod Tests
