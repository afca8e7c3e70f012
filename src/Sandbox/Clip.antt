-- ===== src/Sandbox/Clip.antt =====
-- What a sandbox hands back of a finished command.
use autonomous_software_engi.Prelude.{
  ℕ, zero, suc, ◌+◌, ◌-◌, ◌≤◌, String, ◌≡◌, refl, true, List, arith,
}
use text.Mathlib.TextLemmas.{cons-append, nil-append}
use autonomous_software_engi.Prelude.Text.{◌+s◌, take_chars}
use autonomous_software_engi.Prelude.Replace.{text_length}
use autonomous_software_engi.Exec.{Ensures, Anything, Ensures-after, Ensures-pure}
use autonomous_software_engi.Contracts.Types.{CommandResult}
use autonomous_software_engi.Sandbox.{
  Host, Launch, Finished, completed, expired, clip, clip_maximum, launch, result_of, captured_text,
}

text_length-append : (s t : String) → text_length (s +s t) ≡ text_length s + text_length t
unfolding text_length
text_length-append String.[] t = rw (nil-append t) (omega arith)
text_length-append (String.◌∷◌ c s) t =
    rw (cons-append c s t) (omega (arith, text_length-append s t))

text_length-take : (n : ℕ) (s : String) → text_length (take_chars n s) ≤ n
unfolding text_length take_chars
text_length-take zero s = omega arith
text_length-take (suc n) String.[] = omega arith
text_length-take (suc n) (String.◌∷◌ c s) = omega (arith, text_length-take n s)

-- A clipped text has at most the maximum and the 15 characters of the mark.
clip-max : (value : String) → text_length (clip value) ≤ clip_maximum + 15
unfolding clip text_length
clip-max value = ground (
  arith,
  text_length-append (take_chars clip_maximum value) "\n...[truncated]",
  text_length-take clip_maximum value,
)

-- Both streams are bounded, and a command that ran out of time has the exit code 124.
pub record Bounded (argv : List String) (r : CommandResult) : Type 0 where
  pub command_is : r.command ≡ argv
  pub stdout_max : text_length r.stdout ≤ clip_maximum + 15
  pub stderr_max : text_length r.stderr ≤ clip_maximum + 15
  pub late : r.timed_out ≡ true → r.exit_code ≡ 124

module _ {S : Type 0} (host : Host S) where
  result_of-Bounded :
      (argv : List String) (cwd : String) (duration : ℕ) (finished : Finished)
      → Bounded argv (result_of host argv cwd duration finished)
  unfolding result_of
  result_of-Bounded argv cwd duration (completed code out error) = record {
    command_is = refl;
    stdout_max = clip-max out;
    stderr_max = clip-max error;
    late = λ e. cc;
  }
  result_of-Bounded argv cwd duration (expired out error) = record {
    command_is = refl;
    stdout_max = clip-max (captured_text host out);
    stderr_max = clip-max (captured_text host error);
    late = λ e. refl;
  }

  -- A launch that returns has a result for its command with both streams clipped, and the exit code
  -- 124 if it was timed out.
  pub launch-Bounded :
      (argv : List String) (cwd : String) (what : Launch)
      → Ensures Anything (launch host argv cwd what) (λ r s. Bounded argv r)
  unfolding launch
  launch-Bounded argv cwd what = Ensures-after _ _ λ started. Ensures-after _ _ λ finished.
      Ensures-after _ _
        λ ended. Ensures-pure _ λ s p. result_of-Bounded argv cwd (ended - started) finished
