-- ===== src/Tools/Commands.antt =====
-- What a tool call may start, when the sandbox of the tools is a `LocalSandbox` of the same
-- worktree.
use autonomous_software_engi.Prelude.{
  Bool-cases, ℕ, String, ◌≡◌, refl, sym, subst, inl, inr, Option, none, List, str_eq, eq_iff,
}
use autonomous_software_engi.Prelude.Dict.{Dict}
use autonomous_software_engi.Contracts.Types.{Value, CommandResult}
use autonomous_software_engi.Exec.{Result}
use autonomous_software_engi.Exec.Relates.{
  Relates, Relates-after, Relates-before, pure-Keeps, lift-Keeps,
}
use autonomous_software_engi.Sandbox.{Host, PathParts, slashed, launch, local_launch, local_run}
use autonomous_software_engi.Sandbox.Launches.{
  Outcome, refused, launched, Confined, local_run-Outcome,
}
use autonomous_software_engi.Tools.Files.{Bench, ToolServices}
use autonomous_software_engi.Tools.Confined.{Touched, kept, handle-Touched, recorded-bench}
use autonomous_software_engi.Tools.Dispatch.{AgentTools, handle, run_command, dispatch, tick}

module _ {W : Type 0} (services : ToolServices W) (host : Host (Bench W)) where
  -- The files are as they were, one file was written where the policy allows it, or one confined
  -- command was started on the worktree.
  pub data Acted (old : Bench W) : Dict String → Type 0 where
    touched :
        (new : Dict String)
        → Touched services.policy services.task_is_tests old.files new
        → Acted old new
    started :
        (argv : List String) (working relative : PathParts) (limit : ℕ)
        → Confined host argv working relative limit
        → Acted old
            (launch host argv (slashed working) (local_launch host argv working limit) old).1.files

  -- The tools' sandbox is the local one.
  abbrev pub Local : Type 0
  Local =
      (argv : List String) (timeout : Option ℕ) (b : Bench W)
      → services.sandbox argv timeout b ≡ local_run host argv none timeout b

  sandbox-Acted :
      Local
      → (argv : List String) (timeout : Option ℕ)
      → Relates (λ b c. Acted b c.files) (services.sandbox argv timeout)
  sandbox-Acted local argv timeout = record {
    at = λ b.
        subst (λ (r : Result CommandResult × Bench W). Acted b r.1.files)
          (sym (local argv timeout b)) (acted b _ (local_run-Outcome host argv none timeout b));
  }
    where
      acted :
          (b : Bench W) (r : Result CommandResult × Bench W)
          → Outcome host argv none
              (λ working relative limit.
                launch host argv (slashed working) (local_launch host argv working limit))
              b
              r
          → Acted b r.1.files
      acted b r (refused m why) = touched b.files (kept refl)
      acted b r (launched working relative limit c) = started argv working relative limit c

  run_command-Acted :
      Local
      → (arguments : Dict Value) → Relates (λ b c. Acted b c.files) (run_command services arguments)
  unfolding run_command
  run_command-Acted local arguments =
      Relates-after (λ b. touched b.files (kept refl)) _ _ (lift-Keeps _)
        λ argv.
          Relates-after (λ b. touched b.files (kept refl)) _ _ (lift-Keeps _)
            λ timeout. Relates-before _ _ (sandbox-Acted local argv timeout) λ result. pure-Keeps _

  handle-Acted :
      Local
      → (name : String) (arguments : Dict Value)
      → Relates (λ b c. Acted b c.files) (handle services name arguments)
  unfolding handle
  handle-Acted local name arguments = elim (Bool-cases (str_eq name "run_command")) [
    | inl e ↦
        subst (λ n. Relates (λ b c. Acted b c.files) (handle services n arguments))
          (sym ((eq_iff name "run_command").0 e)) (run_command-Acted local arguments)
    | inr e ↦ record { at = λ b. touched _ ((handle-Touched services name arguments e).at b) }
  ]

  -- With a local sandbox on the same worktree, every tool call leaves the files as they were, writes
  -- one file that the policy lets be written, or starts one command that the policy lets run, at or
  -- below the root and with a bounded time.
  pub dispatch-Acted :
      Local
      → (name : String) (arguments : Dict Value) (tools : AgentTools services)
      → Acted (tick services tools.bench).1 (dispatch services name arguments tools).1.bench.files
  unfolding dispatch
  dispatch-Acted local name arguments tools =
      let started = tick services tools.bench in
      rw (recorded-bench services name arguments started.0 _ _)
        ((handle-Acted local name arguments).at started.1)
