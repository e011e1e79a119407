-- ===== src/Tests/Processes.antt =====
-- The supervisor of the sample upstream.
use mcp_broker.Upstream.Environment.{absent}
use mcp_broker.Prelude.{ℕ, ◌≤◌, true, false, none, some, List, [], ◌∷◌}
use mcp_broker.Supervisor.{
  Supervisor, StopAnswers, StartAnswers, spawned_as, says, new_supervisor, running,
}
use mcp_broker.Supervisor.Moves.{Request, starts, stops, polls, restarts_after_failure, perform_all}
use mcp_broker.Supervisor.Quiet.{IsQuiet, perform_all-IsQuiet}
use mcp_broker.Supervisor.Restarts.{restarts-le-max_attempts}
use mcp_broker.Tests.Samples.{github}

abbrev obeys : StopAnswers
obeys = record { alive = true; ends_on_term = true; ends_on_kill = true; members_left = false }

abbrev spawns : ℕ → StartAnswers
spawns pid = record {
  alive = false;
  has_directory = true;
  environ = ("GITHUB_TOKEN", "t") ∷ [];
  files = λ path. absent;
  spawned = spawned_as pid;
  now = 100;
  deadline = 160;
  rounds = some (record { now = 101; check = says true; alive = true } ∷ []);
  stopping = obeys;
}

abbrev day : List Request
day =
    starts (spawns 7)
    ∷ polls false
    ∷ restarts_after_failure 200 false obeys (spawns 8)
    ∷ stops obeys
    ∷ []

perform_all-IsQuiet_example : IsQuiet (perform_all day (new_supervisor github))
perform_all-IsQuiet_example = perform_all-IsQuiet github day

restarts-le-max_attempts_example : (perform_all day (new_supervisor github)).restart_count ≤ 2
restarts-le-max_attempts_example = restarts-le-max_attempts github day (tt, (tt, (tt, (tt, tt))))

abbrev busy : Supervisor
busy = record {
  upstream = github;
  restart_count = 0;
  process = some 7;
  state = running;
  history = running ∷ [];
  last_activity = 100;
  last_restart = none;
  events = [];
}
