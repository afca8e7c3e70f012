-- ===== src/Agent/Durable.antt =====
-- The sequential runner takes the steps of the graph.
use autonomous_software_engi.Prelude.{
  if◌then◌else◌, ℕ, zero, suc, ◌+◌, ◌*◌, ◌≡◌, refl, sym, ap, subst, Bool, true, false, [], ◌∷◌,
  arith,
}
use mathlib.Core.Bool.{false≢true}
use autonomous_software_engi.Exec.{Exec, pure, Ensures, Ensures-bind, Ensures-pure, Ensures-weaken}
use autonomous_software_engi.Agent.State.{AgentState, Update, merge}
use autonomous_software_engi.Agent.Services.{Services, Platform}
use autonomous_software_engi.Agent.Deliver.{
  Route, to_implement, to_pr_gate, to_workspace, to_delivery, to_end, route_after_reflect,
  route_after_plan_decision, route_after_pr_decision,
}
use autonomous_software_engi.Agent.Deliver.{open_draft_pr}
use autonomous_software_engi.Agent.Runner.{
  Gate, advance, decide, round, rounds, max_loops, finish, build, run,
}
use autonomous_software_engi.Agent.Graph.{
  Node, at_intake, at_retrieve, at_propose_plan, at_plan_approval, at_plan_decision, at_workspace,
  at_implement, at_verify, at_reflect, at_pr_approval, at_pr_decision, at_delivery, at_end, act,
  node_after, await_approval, after_plan, after_reflect, after_pr, automatic, Reached, begun,
  stepped,
}

module _ {W I : Type 0} (services : Services W I) (gate : Gate W) (start : AgentState)
    (from : Platform W) where
  -- The graph has come to this node in so many steps.
  abbrev At : ℕ → Node → AgentState → Platform W → Type 0
  At n node state p = Reached services gate start from n node state p

  -- The graph has ended, or it is at the node for a further round after the given number of nodes.
  pub data Followed (limit : ℕ) (final : AgentState) (p : Platform W) : Type 0 where
    ended : (n : ℕ) → Reached services gate start from n at_end final p → Followed limit final p
    outran :
        (state : AgentState) (q : Platform W)
        → Reached services gate start from limit at_implement state q
        → Followed limit final p

  act-At :
      (n : ℕ) (node : Node) (state : AgentState)
      → Ensures
          (At n node state)
          (act services gate node state)
          (λ after q. At (n + 1) (node_after services gate node after) after q)
  act-At n node state = record { at = λ p q after r e. stepped r e }

  -- How the loop of the runner ends.
  data LoopEnd (limit : ℕ) (out : AgentState × Bool) (p : Platform W) : Type 0 where
    over : (n : ℕ) → At n at_end out.0 p → out.1 ≡ true → LoopEnd limit out p
    at_gate : (n : ℕ) → At n at_pr_approval out.0 p → out.1 ≡ false → LoopEnd limit out p
    spent : At limit at_implement out.0 p → out.1 ≡ false → LoopEnd limit out p

  round-At :
      (n : ℕ) (state : AgentState)
      → Ensures
          (At n at_implement state)
          (round services state)
          (λ after q. At (n + 1 + 1 + 1) (node_after services gate at_reflect after) after q)
  unfolding round act node_after
  round-At n state = Ensures-bind _ _ (act-At n at_implement state) λ implemented.
      Ensures-bind _ _ (act-At (n + 1) at_verify implemented)
        λ verified. act-At (n + 1 + 1) at_reflect verified

  moved :
      {n : ℕ} {x y : Node} {state : AgentState} {p : Platform W}
      → x ≡ y
      → At n x state p
      → At n y state p
  moved {n} {state = state} {p = p} e h = subst (λ z. At n z state p) e h

  -- The gates of the graph, where the policy requires an approval.
  pr_gate-At :
      (n : ℕ) (state : AgentState)
      → services.policy.require_pr_approval ≡ true
      → Ensures
          (At n at_pr_approval state)
          (decide gate "pr" Update.pr_decision state)
          (λ after q. At (n + 1) at_pr_decision after q)
  unfolding act node_after await_approval
  pr_gate-At n state required =
      subst
        (λ b.
          Ensures (At n at_pr_approval state)
            (if b
              then decide gate "pr" Update.pr_decision state
              else pure (merge state (Update.pr_decision automatic ∷ [])))
            (λ after q. At (n + 1) at_pr_decision after q))
        required (act-At n at_pr_approval state)

  plan_gate-At :
      (n : ℕ) (state : AgentState)
      → services.policy.require_plan_approval ≡ true
      → Ensures
          (At n at_plan_approval state)
          (decide gate "plan" Update.plan_decision state)
          (λ after q. At (n + 1) at_plan_decision after q)
  unfolding act node_after await_approval
  plan_gate-At n state required =
      subst
        (λ b.
          Ensures (At n at_plan_approval state)
            (if b
              then decide gate "plan" Update.plan_decision state
              else pure (merge state (Update.plan_decision automatic ∷ [])))
            (λ after q. At (n + 1) at_plan_decision after q))
        required (act-At n at_plan_approval state)

  delivery-At :
      {P : Platform W → Type 0} (n : ℕ) (state : AgentState)
      → ((p : Platform W) → P p → At n at_delivery state p)
      → Ensures P
          (advance (open_draft_pr services) state)
          (λ final q. (m : ℕ) × At m at_end final q)
  unfolding act node_after
  delivery-At n state h = Ensures-weaken _ h (λ final q r. (n + 1, r)) (act-At n at_delivery state)

  rounds-LoopEnd :
      (count n limit : ℕ) (state : AgentState)
      → n + 3 * count ≡ limit
      → Ensures (At n at_implement state) (rounds services count state) (LoopEnd limit)
  unfolding rounds node_after
  rounds-LoopEnd zero n limit state e =
      Ensures-pure (state, false)
        λ p r. spent (subst (λ k. At k at_implement state p) (omega (arith, e)) r) refl
  rounds-LoopEnd (suc count) n limit state e = Ensures-bind _ _ (round-At n state) λ done.
      by_route done (rounds services count done)
        (rounds-LoopEnd count (n + 1 + 1 + 1) limit done (omega (arith, e)))
        (route_after_reflect done) refl
    where
      by_route :
          (done : AgentState) (again : Exec (Platform W) (AgentState × Bool))
          → Ensures (At (n + 1 + 1 + 1) at_implement done) again (LoopEnd limit)
          → (r : Route) → route_after_reflect done ≡ r
          → Ensures
              (At (n + 1 + 1 + 1) (node_after services gate at_reflect done) done)
              (elim r [
                | to_implement ↦ again
                | to_end ↦ pure (done, true)
                | _ ↦ pure (done, false)
              ])
              (LoopEnd limit)
      by_route done again k to_implement e =
          Ensures-weaken _ (λ p h. moved (ap after_reflect e) h) (λ out p q. q) k
      by_route done again k to_end e =
          Ensures-pure _ λ p h. over _ (moved (ap after_reflect e) h) refl
      by_route done again k to_pr_gate e =
          Ensures-pure _ λ p h. at_gate _ (moved (ap after_reflect e) h) refl
      by_route done again k to_workspace e =
          Ensures-pure _ λ p h. at_gate _ (moved (ap after_reflect e) h) refl
      by_route done again k to_delivery e =
          Ensures-pure _ λ p h. at_gate _ (moved (ap after_reflect e) h) refl

  finish-At :
      (n : ℕ) (state : AgentState)
      → services.policy.require_pr_approval ≡ true
      → Ensures
          (At n at_pr_approval state)
          (finish services gate state)
          (λ final q. (m : ℕ) × At m at_end final q)
  unfolding finish act node_after
  finish-At n state required = Ensures-bind _ _ (pr_gate-At n state required) λ decided.
      Ensures-bind _ _ (act-At (n + 1) at_pr_decision decided)
        λ reviewed. by_route reviewed (route_after_pr_decision reviewed) refl
    where
      by_route :
          (reviewed : AgentState) (r : Route)
          → route_after_pr_decision reviewed ≡ r
          → Ensures
              (At (n + 1 + 1) (node_after services gate at_pr_decision reviewed) reviewed)
              (elim r [ to_end ↦ pure reviewed | _ ↦ advance (open_draft_pr services) reviewed ])
              (λ final q. (m : ℕ) × At m at_end final q)
      by_route reviewed to_end e = Ensures-pure _ λ p h. (n + 1 + 1, moved (ap after_pr e) h)
      by_route reviewed to_delivery e =
          delivery-At (n + 1 + 1) reviewed (λ p. moved (ap after_pr e))
      by_route reviewed to_implement e =
          delivery-At (n + 1 + 1) reviewed (λ p. moved (ap after_pr e))
      by_route reviewed to_pr_gate e = delivery-At (n + 1 + 1) reviewed (λ p. moved (ap after_pr e))
      by_route reviewed to_workspace e =
          delivery-At (n + 1 + 1) reviewed (λ p. moved (ap after_pr e))

  -- What is left after the loop.
  rest-Followed :
      (limit : ℕ) (out : AgentState) (b : Bool)
      → services.policy.require_pr_approval ≡ true
      → Ensures
          (LoopEnd limit (out, b))
          (if b then pure out else finish services gate out)
          (Followed limit)
  rest-Followed limit out true required = Ensures-pure out λ p h. elim h [
    | over n r e ↦ ended n r
    | at_gate n r e ↦ absurd (false≢true (sym e))
    | spent r e ↦ absurd (false≢true (sym e))
  ]
  rest-Followed limit out false required = record {
    at = λ p q final h done. elim h [
      | over n r e ↦ absurd (false≢true e)
      | at_gate n r e ↦ let (m, x) = (finish-At n out required).at p q final r done in ended m x
      | spent r e ↦ outran out p r
    ];
  }

  build-Followed :
      (n : ℕ) (state : AgentState)
      → services.policy.require_pr_approval ≡ true
      → Ensures
          (At n at_workspace state)
          (build services gate state)
          (λ final q. Followed (n + 1 + 3 * max_loops) final q)
  unfolding build act node_after
  build-Followed n state required = Ensures-bind _ _ (act-At n at_workspace state) λ prepared.
      Ensures-bind _ _ (rounds-LoopEnd max_loops (n + 1) _ prepared refl)
        λ looped. rest-Followed (n + 1 + 3 * max_loops) looped.0 looped.1 required

  -- A run of the sequential runner that returns, under a policy that requires both approvals, has
  -- taken the steps of the durable graph, with the same decisions at the gates: the graph too comes to
  -- its end with the same state and platform, unless after 50 rounds it is at the node for yet another.
  pub run-Followed :
      services.policy.require_plan_approval ≡ true
      → services.policy.require_pr_approval ≡ true
      → Ensures (λ p. p ≡ from) (run services gate start) (Followed (6 + 3 * max_loops))
  unfolding run act node_after
  run-Followed plan_required pr_required =
      Ensures-weaken {P = At 0 at_intake start} _
        (λ p e. subst (λ q. At 0 at_intake start q) (sym e) begun) (λ final q r. r)
        (Ensures-bind _ _ (act-At 0 at_intake start) λ taken.
          Ensures-bind _ _ (act-At 1 at_retrieve taken) λ retrieved.
            Ensures-bind _ _ (act-At 2 at_propose_plan retrieved) λ planned.
              Ensures-bind _ _ (plan_gate-At 3 planned plan_required) λ decided.
                Ensures-bind _ _ (act-At 4 at_plan_decision decided)
                  λ reviewed. by_route reviewed (route_after_plan_decision reviewed) refl)
    where
      by_route :
          (reviewed : AgentState) (r : Route)
          → route_after_plan_decision reviewed ≡ r
          → Ensures
              (At 5 (node_after services gate at_plan_decision reviewed) reviewed)
              (elim r [ to_end ↦ pure reviewed | _ ↦ build services gate reviewed ])
              (Followed (6 + 3 * max_loops))
      by_route reviewed to_end e = Ensures-pure _ λ p h. ended 5 (moved (ap after_plan e) h)
      by_route reviewed to_workspace e =
          Ensures-weaken _ (λ p. moved (ap after_plan e)) (λ final q r. r)
            (build-Followed 5 reviewed pr_required)
      by_route reviewed to_implement e =
          Ensures-weaken _ (λ p. moved (ap after_plan e)) (λ final q r. r)
            (build-Followed 5 reviewed pr_required)
      by_route reviewed to_pr_gate e =
          Ensures-weaken _ (λ p. moved (ap after_plan e)) (λ final q r. r)
            (build-Followed 5 reviewed pr_required)
      by_route reviewed to_delivery e =
          Ensures-weaken _ (λ p. moved (ap after_plan e)) (λ final q r. r)
            (build-Followed 5 reviewed pr_required)
