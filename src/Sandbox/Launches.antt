-- ===== src/Sandbox/Launches.antt =====
-- Which commands a sandbox starts.
use autonomous_software_engi.Prelude.{
  or_else, ℕ, ◌≤◌, String, ◌≡◌, refl, ◌⊎◌, inl, inr, Bool, true, false, Option, none, some, List,
  [], ◌∷◌, ◌++◌, arith, eq_iff,
}
use autonomous_software_engi.Exec.{Exec, Result, ok, err, command_denied, lift, ◌>>=◌}
use autonomous_software_engi.Contracts.Types.{CommandResult}
use autonomous_software_engi.Policy.{command}
use autonomous_software_engi.Sandbox.{
  Host, Docker, PathParts, below, time_limit, checked, slashed, launch, local_launch, local_run,
  docker_launch, docker_run, workdir_of,
}

-- The policy lets the command run, its directory is the root or below it, and its time is bounded.
pub record Confined {S : Type 0} (host : Host S) (argv : List String) (working relative : PathParts)
    (limit : ℕ) : Type 0 where
  pub allowed : (command host.policy argv).allowed ≡ true
  pub inside : working ≡ host.root ++ relative
  pub bounded : limit ≤ host.policy.max_command_seconds

-- A run is refused before anything is started, because of the command or its directory, or it is
-- one launch of a confined command.
pub data Outcome {S : Type 0} (host : Host S) (argv : List String) (cwd : Option PathParts)
    (start : PathParts → PathParts → ℕ → Exec S CommandResult) (s : S)
    : Result CommandResult × S → Type 0 where
  refused :
      (message : String)
      → ((command host.policy argv).allowed ≡ false)
        ⊎ (below host.root (host.resolve (or_else cwd host.root)) ≡ none)
      → Outcome host argv cwd start s (err (command_denied message), s)
  launched :
      (working relative : PathParts) (limit : ℕ)
      → Confined host argv working relative limit
      → Outcome host argv cwd start s (start working relative limit s)

below-append :
    (root path relative : PathParts) → below root path ≡ some relative → path ≡ root ++ relative
unfolding below
below-append [] path relative e = ground arith
below-append (r ∷ root) [] relative e = cc
below-append (r ∷ root) (p ∷ path) relative e =
    ground (arith, below-append root path relative, eq_iff r p)

time_limit-max : (timeout : Option ℕ) (maximum : ℕ) → time_limit timeout maximum ≤ maximum
unfolding time_limit
time_limit-max none maximum = omega arith
time_limit-max (some t) maximum = ground arith

module _ {S : Type 0} (host : Host S) where
  -- A check that returns, or why it does not.
  data Checked (argv : List String) (cwd : Option PathParts)
      : Result (PathParts × PathParts × ℕ) → Type 0 where
    denied :
        (message : String)
        → ((command host.policy argv).allowed ≡ false)
          ⊎ (below host.root (host.resolve (or_else cwd host.root)) ≡ none)
        → Checked argv cwd (err (command_denied message))
    passed :
        (working relative : PathParts) (limit : ℕ)
        → Confined host argv working relative limit
        → Checked argv cwd (ok (working, relative, limit))

  checked-Checked :
      (argv : List String) (cwd : Option PathParts) (timeout : Option ℕ)
      → Checked argv cwd (checked host argv cwd timeout)
  unfolding checked
  checked-Checked argv cwd timeout =
      by_command (command host.policy argv).allowed
        (below host.root (host.resolve (or_else cwd host.root))) refl refl
    where
      by_command :
          (b : Bool) (o : Option PathParts)
          → (command host.policy argv).allowed ≡ b
          → below host.root (host.resolve (or_else cwd host.root)) ≡ o
          → Checked argv cwd (checked host argv cwd timeout)
      by_command false o a i = rw a (denied _ (inl a))
      by_command true none a i = rw (a, i) (denied _ (inr i))
      by_command true (some relative) a i =
          rw (a, i)
            (passed _ relative _ (record {
              allowed = a;
              inside = below-append host.root _ relative i;
              bounded = time_limit-max timeout host.policy.max_command_seconds;
            }))

  -- The rest of a run after the check.
  start-Outcome :
      (argv : List String) (cwd : Option PathParts)
      (start : PathParts → PathParts → ℕ → Exec S CommandResult) (s : S)
      (r : Result (PathParts × PathParts × ℕ))
      → Checked argv cwd r
      → Outcome host argv cwd start s
          ((lift r >>= λ (found : PathParts × PathParts × ℕ). start found.0 found.1 found.2) s)
  unfolding ◌>>=◌
  start-Outcome argv cwd start s r (denied m why) = refused m why
  start-Outcome argv cwd start s r (passed working relative limit c) =
      launched working relative limit c

  -- A local run is refused before anything is started, or is one launch of a command that the policy
  -- lets run, in a directory at or below the root, with a bounded time and the fixed environment.
  pub local_run-Outcome :
      (argv : List String) (cwd : Option PathParts) (timeout : Option ℕ) (s : S)
      → Outcome host argv cwd
          (λ working relative limit.
            launch host argv (slashed working) (local_launch host argv working limit))
          s
          (local_run host argv cwd timeout s)
  unfolding local_run
  local_run-Outcome argv cwd timeout s =
      start-Outcome argv cwd _ s _ (checked-Checked argv cwd timeout)

  -- The same of a run in a container, with 15 seconds for the container itself.
  pub docker_run-Outcome :
      (docker : Docker) (argv : List String) (cwd : Option PathParts) (timeout : Option ℕ) (s : S)
      → Outcome host argv cwd
          (λ working relative limit.
            launch host argv
              (workdir_of host docker relative)
              (docker_launch host docker argv relative limit))
          s
          (docker_run host docker argv cwd timeout s)
  unfolding docker_run
  docker_run-Outcome docker argv cwd timeout s =
      start-Outcome argv cwd _ s _ (checked-Checked argv cwd timeout)
