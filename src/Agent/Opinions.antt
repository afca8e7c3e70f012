-- ===== src/Agent/Opinions.antt =====
-- The node `reflect`: its tests on a run, by what they say, and the model's opinion.
use autonomous_software_engi.Prelude.{
  if◌then◌else◌, Bool-cases, Option-cases, is_some, String, ◌≡◌, refl, sym, ap, ◌∙◌, subst, ◌⊎◌,
  inl, inr, true, false, ◌&&◌, Option, some, List, [], ◌∷◌, ◌++◌, arith, str_eq, eq_iff, eq_refl,
}
use mathlib.Core.Bool.{false≢true}
use autonomous_software_engi.Prelude.Text.{mem}
use autonomous_software_engi.Prelude.Member.{Member, mem→Member}
use autonomous_software_engi.Contracts.Types.{EvaluationReport}
use autonomous_software_engi.Contracts.Trace.{TestReport}
use autonomous_software_engi.Contracts.Run.{AgentRun}
use autonomous_software_engi.Llm.{Completion, completion_text}
use autonomous_software_engi.Agent.State.{AgentState}
use autonomous_software_engi.Agent.Services.{Texts}
use autonomous_software_engi.Agent.Reflect.{
  Verdict, parse_reflection, repeats, has_passed, demoted, focused,
}
use autonomous_software_engi.Agent.Judging.{Verified, Verified-has_passed, focused-decision}

-- There is a test report, and the last evaluation of the run passed.
abbrev pub Passing : AgentState → AgentRun → Type 0
Passing state run = ((report : TestReport) × (state.report ≡ some report)) × Verified run

-- The list ends in two equal hashes.
abbrev pub Repeated : List String → Type 0
Repeated hashes = (before : List String) × (hash : String) × (hashes ≡ before ++ hash ∷ hash ∷ [])

-- What the model's reply makes of a run that has not passed: only a reply that gives up does.
abbrev pub Opinion : Texts → Completion → Verdict → Type 0
Opinion texts completion v =
    let asked = (parse_reflection texts (completion_text completion)).decision in
    ((asked ≡ "give_up") × (v.decision ≡ "give_up"))
    ⊎ ((¬ (asked ≡ "give_up")) × (v.decision ≡ "retry"))

pub repeats-Repeated : (hashes : List String) → repeats hashes ≡ true → Repeated hashes
unfolding repeats
repeats-Repeated [] h = absurd (false≢true h)
repeats-Repeated (x ∷ []) h = absurd (false≢true h)
repeats-Repeated (x ∷ y ∷ []) h = ([], x, ap (λ z. x ∷ z ∷ []) ((eq_iff y x).0 h))
repeats-Repeated (x ∷ y ∷ z ∷ rest) h =
    let (before, hash, e) = repeats-Repeated (y ∷ z ∷ rest) h in
    (x ∷ before, hash, ap (λ l. x ∷ l) e)

repeats-append :
    (before : List String) (hash : String) → repeats (before ++ hash ∷ hash ∷ []) ≡ true
unfolding repeats
repeats-append [] hash = eq_refl hash
repeats-append (a ∷ []) hash = eq_refl hash
repeats-append (a ∷ b ∷ []) hash = eq_refl hash
repeats-append (a ∷ b ∷ c ∷ rest) hash = repeats-append (b ∷ c ∷ rest) hash

pub not_repeats-Repeated : (hashes : List String) → repeats hashes ≡ false → ¬ Repeated hashes
not_repeats-Repeated hashes h (before, hash, e) =
    false≢true (sym h ∙ ap repeats e ∙ repeats-append before hash)

pub Passing-test :
    (state : AgentState) (run : AgentRun)
    → (is_some state.report && has_passed run.evaluation) ≡ true
    → Passing state run
Passing-test state run h = elim (Option-cases state.report) [
  | inl l ↦ absurd (ground arith)
  | inr l ↦ (l, Verified-has_passed run.evaluation run refl (ground arith))
]

pub not_Passing-test :
    (state : AgentState) (run : AgentRun)
    → (is_some state.report && has_passed run.evaluation) ≡ false
    → ¬ Passing state run
not_Passing-test state run h ((report, l), (evaluation, e, p)) =
    let tested : is_some state.report ≡ true = rw l refl in
    let good : has_passed run.evaluation ≡ true = rw e p in absurd (ground arith)

-- The decisions that a reply can have.
abbrev decisions : List String
decisions = "submit" ∷ "retry" ∷ "give_up" ∷ []

known_or_retry : (d : String) → Member (if mem d decisions then d else "retry") decisions
known_or_retry d = elim (Bool-cases (mem d decisions)) [
  | inl e ↦ rw e (mem→Member d decisions e)
  | inr e ↦ rw e (inr (inl refl))
]

parse_reflection-Member :
    (texts : Texts) (text : String) → Member (parse_reflection texts text).decision decisions
unfolding parse_reflection
parse_reflection-Member texts text = known_or_retry _

different : (a b : String) → str_eq a b ≡ false → ¬ (a ≡ b)
different a b h e = false≢true (sym h ∙ (eq_iff a b).1 e)

-- A wish to submit becomes a retry, and the other decisions stay.
demoted-decision :
    (v : Verdict)
    → Member v.decision decisions
    → ((v.decision ≡ "give_up") × ((demoted v).decision ≡ "give_up"))
      ⊎ ((¬ (v.decision ≡ "give_up")) × ((demoted v).decision ≡ "retry"))
unfolding demoted
demoted-decision v (inl e) = rw (sym e) (inr (different "submit" "give_up" refl, refl))
demoted-decision v (inr (inl e)) = rw (sym e) (inr (different "retry" "give_up" refl, refl))
demoted-decision v (inr (inr (inl e))) = rw (sym e) (inl (refl, refl))
demoted-decision v (inr (inr (inr e))) = absurd e

pub demoted-Opinion :
    (texts : Texts) (completion : Completion) (o : Option EvaluationReport)
    → Opinion texts completion
        (focused o (demoted (parse_reflection texts (completion_text completion))))
demoted-Opinion texts completion o =
    let v = parse_reflection texts (completion_text completion) in
    subst
      (λ d.
        ((v.decision ≡ "give_up") × (d ≡ "give_up"))
        ⊎ ((¬ (v.decision ≡ "give_up")) × (d ≡ "retry")))
      (sym (focused-decision o (demoted v)))
      (demoted-decision v (parse_reflection-Member texts (completion_text completion)))
