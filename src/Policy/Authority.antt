-- ===== src/Policy/Authority.antt =====
-- Authority fails closed: only an explicit grant of the policy file, or a draft pull request.
use autonomous_software_engi.Prelude.{
  ℕ, String, ◌≡◌, refl, sym, ap, ◌∙◌, subst, ◌↔◌, ◌⊎◌, inl, inr, true, false, not, Option, none,
  some, [], arith, eq_iff,
}
use autonomous_software_engi.Prelude.Dict.{Dict, lookup}
use autonomous_software_engi.Exec.{ok}
use autonomous_software_engi.Exec.Fallible.{WhenOk, WhenOk-bind, WhenOk-bind-eq}
use autonomous_software_engi.Contracts.Types.{Value, null, bool, num, str, strs}
use autonomous_software_engi.Policy.{Policy, default_policy, authority}
use autonomous_software_engi.Policy.Mapping.{
  section, from_mapping, Section, mapping, equals_text, updated, authority_updates,
  execution_updates,
}

-- The section of that name has the text `word` under `key`.
pub record Says (document : Dict Section) (key word : String) : Type 0 where
  pub entries : Dict Value
  pub at_section : lookup "authority" document ≡ some (mapping entries)
  pub at_key : lookup key entries ≡ some (str word)

-- What the authority section alone decides: the four switches that `from_mapping` reads from it.
record Switches (p q : Policy) : Type 0 where
  merge : p.allow_merge ≡ q.allow_merge
  deploy : p.allow_deploy ≡ q.allow_deploy
  plan : p.require_plan_approval ≡ q.require_plan_approval
  pr : p.require_pr_approval ≡ q.require_pr_approval

execution_updates-Switches :
    (parse : String → Option ℕ) (entries : Dict Value) (p : Policy)
    → WhenOk (λ q. Switches q p) (execution_updates parse entries p)
unfolding execution_updates
execution_updates-Switches parse entries p = WhenOk-bind _ _ λ s.
    WhenOk-bind _ _
      λ f. WhenOk-bind _ _ λ d. WhenOk-bind _ _ λ c. record { at = λ q h. ground arith }

equals_text→eq : (v : Value) (t : String) → equals_text v t ≡ true → v ≡ str t
equals_text→eq null t h = cc
equals_text→eq (bool b) t h = cc
equals_text→eq (num n) t h = cc
equals_text→eq (str s) t h = ground (arith, eq_iff s t)
equals_text→eq (strs l) t h = cc

updated-true :
    (o : Option Value) (t : String)
    → updated o false (λ v. equals_text v t) ≡ true
    → o ≡ some (str t)
updated-true none t h = cc
updated-true (some v) t h = ap some (equals_text→eq v t h)

updated-false :
    (o : Option Value) (t : String)
    → updated o true (λ v. not (equals_text v t)) ≡ false
    → o ≡ some (str t)
updated-false none t h = cc
updated-false (some v) t h = ap some (equals_text→eq v t (ground arith))

-- Each switch that is not at its closed default was set by the word that opens it.
pub record Opened (document : Dict Section) (p : Policy) : Type 0 where
  pub merge : p.allow_merge ≡ true → Says document "merge_pull_request" "allowed"
  pub deploy : p.allow_deploy ≡ true → Says document "deploy_production" "allowed"
  pub plan : p.require_plan_approval ≡ false → Says document "plan" "automatic"
  pub pr : p.require_pr_approval ≡ false → Says document "open_draft_pull_request" "automatic"

Opened-of_updates :
    (document : Dict Section) (entries : Dict Value) (q : Policy)
    → lookup "authority" document ≡ some (mapping entries)
    → Switches q (authority_updates entries default_policy)
    → Opened document q
unfolding authority_updates
Opened-of_updates document entries q at_section s = record {
  merge =
      λ h. says (updated-true (lookup "merge_pull_request" entries) "allowed" (sym s.merge ∙ h));
  deploy =
      λ h. says (updated-true (lookup "deploy_production" entries) "allowed" (sym s.deploy ∙ h));
  plan = λ h. says (updated-false (lookup "plan" entries) "automatic" (sym s.plan ∙ h));
  pr = λ h.
      says (updated-false (lookup "open_draft_pull_request" entries) "automatic" (sym s.pr ∙ h));
}
  where
    says : {key word : String} → lookup key entries ≡ some (str word) → Says document key word
    says e = record { entries = entries; at_section = at_section; at_key = e }

section_cases :
    (name : String) (document : Dict Section) (entries : Dict Value)
    → section name document ≡ ok entries
    → (lookup name document ≡ some (mapping entries)) ⊎ (entries ≡ [])
unfolding section
section_cases name document entries h = ground arith

Opened-of_section :
    (document : Dict Section) (entries : Dict Value) (q : Policy)
    → (lookup "authority" document ≡ some (mapping entries)) ⊎ (entries ≡ [])
    → Switches q (authority_updates entries default_policy)
    → Opened document q
unfolding authority_updates lookup
Opened-of_section document entries q (inl e) s = Opened-of_updates document entries q e s
Opened-of_section document entries q (inr e) s = record {
  merge = λ h. cc (s.merge, e);
  deploy = λ h. cc (s.deploy, e);
  plan = λ h. cc (s.plan, e);
  pr = λ h. cc (s.pr, e);
}

-- A policy file opens merging, deploying, or either gate only by the very word for it under the
-- very key; whatever else the file says, or omits, the four switches stay closed.
pub from_mapping-Opened :
    (parse : String → Option ℕ) (document : Dict Section) (p : Policy)
    → from_mapping parse document ≡ ok p
    → Opened document p
unfolding from_mapping
from_mapping-Opened parse document p h =
    (WhenOk-bind-eq (section "authority" document) _ λ entries found. WhenOk-bind _ _ λ execution.
        record {
          at = λ q e.
              Opened-of_section document entries q
                (section_cases "authority" document entries found)
                ((execution_updates-Switches parse execution _).at q e);
        }).at
      p h

-- The engine grants an action only if it is opening a draft pull request, or one of the two that
-- the policy grants by its own switch.
pub authority-allowed_iff :
    (p : Policy) (action : String)
    → ((authority p action).allowed ≡ true) ↔ (
        (action ≡ "open_draft_pull_request")
        ⊎ ((action ≡ "merge_pull_request") × (p.allow_merge ≡ true))
        ⊎ ((action ≡ "deploy_production") × (p.allow_deploy ≡ true)))
unfolding authority
authority-allowed_iff p action = (
  λ h. ground (
    arith,
    eq_iff action "merge_pull_request",
    eq_iff action "deploy_production",
    eq_iff action "open_draft_pull_request",
  ),
  elim [
    | inl e ↦ subst (λ a. (authority p a).allowed ≡ true) (sym e) refl
    | inr (inl (e, g)) ↦ subst (λ a. (authority p a).allowed ≡ true) (sym e) g
    | inr (inr (e, g)) ↦ subst (λ a. (authority p a).allowed ≡ true) (sym e) g
  ],
)
