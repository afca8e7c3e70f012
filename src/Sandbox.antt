-- ===== src/Sandbox.antt =====
-- sandbox.py: `LocalSandbox`, `DockerSandbox` and `build_sandbox`. A path is the list of the parts of
-- an absolute path below the root of the file system.
pub mod Launches
pub mod Clip
mod Tests
use autonomous_software_engi.Prelude.{
  ltb, leb, ◌==◌, if◌then◌else◌, or_else, ℕ, ◌+◌, ◌-◌, String, true, false, not, ◌||◌, Option, none,
  some, List, [], ◌∷◌, ◌++◌, str_eq,
}
use autonomous_software_engi.Prelude.Text.{◌+s◌, join, decimal, take_chars}
use autonomous_software_engi.Prelude.Dict.{Dict, lookup}
use autonomous_software_engi.Prelude.Replace.{text_length}
use autonomous_software_engi.Exec.{
  Exec, Result, ok, err, command_denied, value_error, pure, lift, ◌>>=◌,
}
use autonomous_software_engi.Contracts.Types.{CommandResult}
use autonomous_software_engi.Policy.{Policy, command}

abbrev pub PathParts : Type 0
PathParts = List String

-- What the runner is called with.
pub record Launch : Type 0 where
  pub argv : List String
  pub cwd : Option PathParts
  pub env : Option (Dict String)
  pub timeout : ℕ

-- A stream of `subprocess.TimeoutExpired`.
pub data Captured : Type 0 where
  nothing : Captured
  text : String → Captured
  bytes : List ℕ → Captured

-- How the runner returns.
pub data Finished : Type 0 where
  completed : (returncode : ℕ) (stdout stderr : String) → Finished
  expired : (stdout stderr : Captured) → Finished

-- What both back ends are built from: `resolve` follows links, `decode` reads bytes as a text,
-- `environ` is `os.environ`, and `clock` the time in milliseconds.
pub record Host (S : Type 0) : Type 0 where
  pub root : PathParts
  pub policy : Policy
  pub runner : Launch → Exec S Finished
  pub resolve : PathParts → PathParts
  pub decode : List ℕ → String
  pub environ : Dict String
  pub clock : S → ℕ × S

-- `DockerSandbox`
pub record Docker : Type 0 where
  pub image : String
  pub cpus : String
  pub memory : String
  pub pids_limit : ℕ
  pub docker_binary : String

abbrev pub clip_maximum : ℕ
clip_maximum = 20_000

-- `_clip`
unfoldable pub clip : String → String
clip value =
    if leb (text_length value) clip_maximum
    then value
    else take_chars clip_maximum value +s "\n...[truncated]"

-- The path from `root` to `path`, if `path` is `root` or below it.
unfoldable pub below : PathParts → PathParts → Option PathParts
below [] path = some path
below (r ∷ root) [] = none
below (r ∷ root) (p ∷ path) = let rest = below root path in if str_eq r p then rest else none

-- `min(timeout or maximum, maximum)`
unfoldable pub time_limit : Option ℕ → ℕ → ℕ
time_limit none maximum = maximum
time_limit (some t) maximum = if t == 0 || ltb maximum t then maximum else t

abbrev variable : String → Dict String → String
variable name environ = elim (lookup name environ) [ none ↦ "" | some v ↦ v ]

unfoldable pub slashed : PathParts → String
slashed path = "/" +s join "/" path

module _ {S : Type 0} (host : Host S) where
  -- `_text`
  unfoldable pub captured_text : Captured → String
  captured_text nothing = ""
  captured_text (text s) = s
  captured_text (bytes b) = host.decode b

  -- What `run` looks at before anything is started: the working directory, the path to it from the
  -- root, and the limit.
  unfoldable pub checked :
      List String → Option PathParts → Option ℕ → Result (PathParts × PathParts × ℕ)
  checked argv cwd timeout =
      let decision = command host.policy argv in
      if not decision.allowed
      then err (command_denied (join "; " decision.reasons))
      else let working = host.resolve (or_else cwd host.root) in
        elim (below host.root working) [
          | none ↦ err (command_denied "working directory escapes sandbox root")
          | some relative ↦
              ok (working, relative, time_limit timeout host.policy.max_command_seconds)
        ]

  abbrev pub environment : Dict String
  environment =
      ("PATH", variable "PATH" host.environ)
      ∷ ("PYTHONPATH", variable "PYTHONPATH" host.environ)
      ∷ ("LANG", "C.UTF-8")
      ∷ ("CI", "true")
      ∷ ("PYTHONDONTWRITEBYTECODE", "1")
      ∷ []

  -- A reading of the clock.
  unfoldable pub tick : Exec S ℕ
  tick s = let (now, s') = host.clock s in (ok now, s')

  unfoldable pub result_of : List String → String → ℕ → Finished → CommandResult
  unfolding captured_text clip
  result_of argv cwd duration (completed code out error) = record {
    command = argv;
    cwd = cwd;
    exit_code = code;
    stdout = clip out;
    stderr = clip error;
    duration_ms = duration;
    timed_out = false;
  }
  result_of argv cwd duration (expired out error) = record {
    command = argv;
    cwd = cwd;
    exit_code = 124;
    stdout = clip (captured_text out);
    stderr = clip (captured_text error);
    duration_ms = duration;
    timed_out = true;
  }

  -- The one call of the runner, with the clock read before and after it.
  unfoldable pub launch : List String → String → Launch → Exec S CommandResult
  unfolding tick result_of
  launch argv cwd what = do
    started ← tick
    finished ← host.runner what
    ended ← tick
    pure (result_of argv cwd (ended - started) finished)

  -- The launch of `LocalSandbox.run`.
  abbrev pub local_launch : List String → PathParts → ℕ → Launch
  local_launch argv working limit = record {
    argv = argv;
    cwd = some working;
    env = some environment;
    timeout = limit;
  }

  -- `LocalSandbox.run`
  unfoldable pub local_run : List String → Option PathParts → Option ℕ → Exec S CommandResult
  unfolding slashed
  local_run argv cwd timeout = do
    (working, relative, limit) ← lift (checked argv cwd timeout)
    launch argv (slashed working) (local_launch argv working limit)

  module _ (docker : Docker) where
    abbrev pub network : List String
    network = "--network" ∷ (if host.policy.network_enabled then "bridge" else "none") ∷ []

    -- `DockerSandbox.docker_argv`
    unfoldable pub docker_argv : List String → String → ℕ → List String
    unfolding slashed
    docker_argv argv workdir timeout =
        (docker.docker_binary ∷ "run" ∷ "--rm" ∷ [])
        ++ (network
            ++ (("--cpus"
                  ∷ docker.cpus
                  ∷ "--memory"
                  ∷ docker.memory
                  ∷ "--pids-limit"
                  ∷ decimal docker.pids_limit
                  ∷ "--security-opt"
                  ∷ "no-new-privileges:true"
                  ∷ "--cap-drop"
                  ∷ "ALL"
                  ∷ "--user"
                  ∷ "10001:10001"
                  ∷ "--stop-timeout"
                  ∷ decimal timeout
                  ∷ "-e"
                  ∷ "CI=true"
                  ∷ "-e"
                  ∷ "PYTHONDONTWRITEBYTECODE=1"
                  ∷ "-v"
                  ∷ (slashed host.root +s ":/workspace")
                  ∷ "-w"
                  ∷ workdir
                  ∷ docker.image
                  ∷ [])
                ++ argv))

    -- The working directory inside the container.
    unfoldable pub workdir_of : PathParts → String
    workdir_of [] = "/workspace"
    workdir_of (p ∷ relative) = "/workspace/" +s join "/" (p ∷ relative)

    abbrev pub docker_launch : List String → PathParts → ℕ → Launch
    docker_launch argv relative limit = record {
      argv = docker_argv argv (workdir_of relative) limit;
      cwd = none;
      env = none;
      timeout = limit + 15;
    }

    -- `DockerSandbox.run`
    unfoldable pub docker_run : List String → Option PathParts → Option ℕ → Exec S CommandResult
    docker_run argv cwd timeout = do
      (working, relative, limit) ← lift (checked argv cwd timeout)
      launch argv (workdir_of relative) (docker_launch argv relative limit)

  -- `build_sandbox`: the `run` of the back end of a name.
  unfoldable pub build_sandbox :
      String → String → Result (List String → Option PathParts → Option ℕ → Exec S CommandResult)
  build_sandbox backend image =
      if str_eq backend "docker" || str_eq backend "container"
      then ok (
          docker_run (record {
            image = image;
            cpus = "2.0";
            memory = "2g";
            pids_limit = 256;
            docker_binary = "docker";
          }))
      else if str_eq backend "local"
      then ok local_run
      else err (value_error ("unknown sandbox backend: " +s backend))
