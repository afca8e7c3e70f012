-- ===== src/Sandbox/Tests.antt =====
-- The sandboxes at a small host.
use autonomous_software_engi.Prelude.{ℕ, ◌+◌, String, none, some, List, [], ◌∷◌}
use autonomous_software_engi.Exec.{ok, Ensures, Anything}
use autonomous_software_engi.Policy.{default_policy}
use autonomous_software_engi.Sandbox.{
  Host, Docker, completed, slashed, launch, local_launch, local_run, docker_launch, docker_run,
  workdir_of,
}
use autonomous_software_engi.Sandbox.Launches.{Outcome, local_run-Outcome, docker_run-Outcome}
use autonomous_software_engi.Sandbox.Clip.{Bounded, launch-Bounded}

-- A host whose programs print nothing and end at once; the state counts them.
abbrev host : Host ℕ
host = record {
  root = "work" ∷ [];
  policy = default_policy;
  runner = λ what started. (ok (completed 0 "" ""), started + 1);
  resolve = λ path. path;
  decode = λ b. "";
  environ = ("PATH", "/usr/bin") ∷ [];
  clock = λ started. (7, started);
}

abbrev docker : Docker
docker = record {
  image = "ase-sandbox:latest";
  cpus = "2.0";
  memory = "2g";
  pids_limit = 256;
  docker_binary = "docker";
}

abbrev argv : List String
argv = "pytest" ∷ "-q" ∷ []

local_run-Outcome_example :
    Outcome host argv none
      (λ working relative limit.
        launch host argv (slashed working) (local_launch host argv working limit))
      0
      (local_run host argv none none 0)
local_run-Outcome_example = local_run-Outcome host argv none none 0

docker_run-Outcome_example :
    Outcome host argv none
      (λ working relative limit.
        launch host argv
          (workdir_of host docker relative)
          (docker_launch host docker argv relative limit))
      0
      (docker_run host docker argv none (some 600) 0)
docker_run-Outcome_example = docker_run-Outcome host docker argv none (some 600) 0

launch-Bounded_example :
    Ensures Anything
      (launch host argv "/work" (local_launch host argv ("work" ∷ []) 60))
      (λ r s. Bounded argv r)
launch-Bounded_example = launch-Bounded host argv "/work" (local_launch host argv ("work" ∷ []) 60)
