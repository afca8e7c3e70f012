-- ===== src/Agent/Services.antt =====
-- agent/nodes.py: `AgentServices`. The store is modelled; every other collaborator is a function of
-- the world `W`, which it may change, and it may raise. `I` is the type of knowledge indexes.
use autonomous_software_engi.Prelude.{ℕ, String, Bool, Option, List}
use autonomous_software_engi.Prelude.Dict.{Dict}
use autonomous_software_engi.Exec.{Exec, Result, ok}
use autonomous_software_engi.Contracts.Types.{Issue, Task, ContextItem, ChangePlan, CommandResult}
use autonomous_software_engi.Contracts.Trace.{ToolCall, TestReport, Step}
use autonomous_software_engi.Contracts.Run.{AgentRun, Exhausted}
use autonomous_software_engi.Llm.{Message, Usage, Completion, ToolUse}
use autonomous_software_engi.Policy.{Policy}
use autonomous_software_engi.Store.{Store}
use autonomous_software_engi.Testrun.{TestStatus}
use autonomous_software_engi.Agent.State.{Reproduction}

abbrev pub Call : Type 0 → Type 0 → Type 0
Call W A = W → Result A × W

-- The keyword arguments of `LLMClient.complete`; the tools go by the name of their list.
pub record CompletionRequest : Type 0 where
  pub model : String
  pub system : String
  pub messages : List Message
  pub tools : String
  pub max_tokens : ℕ

pub record Published : Type 0 where
  pub pr_url : String
  pub pr_number : ℕ

-- The arguments of `Delivery.publish`.
pub record Delivery : Type 0 where
  pub remote : String
  pub base_sha : String
  pub branch : String
  pub workspace : String
  pub files : List String
  pub message : String
  pub title : String
  pub body : String

-- The texts that the code renders and parses in prompts.py, pr.py and delivery.py.
pub record Texts : Type 0 where
  pub planner_system : String
  pub coder_system : String
  pub reflect_system : String
  pub plan_request : Task → List ContextItem → String → String
  pub coder_request :
      Task → ChangePlan → List ContextItem → String → Option TestReport → ℕ → String → String
  pub reflect_request : TestReport → ℕ → Option Exhausted → List String → Bool → String
  pub parse_plan : String → Result (ChangePlan × Option Reproduction)
  pub decoded_reflection : String → Dict String
  pub lower : String → String
  pub exhausted_text : Exhausted → String
  pub pr_body : AgentRun → List Step → List String → String
  pub branch_name : String → ℕ → String
  pub sanitize_title : String → ℕ → String

pub record Services (W I : Type 0) : Type 0 where
  pub policy : Policy
  pub texts : Texts
  pub clock : W → ℕ × W
  pub complete : CompletionRequest → Call W Completion
  pub estimate_cost : String → Usage → ℕ
  pub digest : String → String
  pub index_loader : Option (String → String → Call W (Option I))
  pub knowledge_retrieve : I → Issue → String → Call W (List ContextItem)
  pub repo_map : I → String → Call W String
  pub hybrid_retrieve : Issue → String → Call W (List ContextItem)
  pub head_sha : String → Call W String
  pub create_workspace : String → String → Call W String
  pub diff : String → Call W String
  pub remove_workspace : String → Call W (Unit {0})
  pub syntax_error : String → Bool
  pub read_file : String → String → Call W (Option String)
  pub exists : String → String → Call W Bool
  pub write_file : String → String → String → Call W (Unit {0})
  pub unlink : String → String → Call W (Unit {0})
  pub pytest : String → List String → Call W (CommandResult × Dict TestStatus)
  pub dispatch : String → Option I → Bool → ToolUse → Call W ToolCall
  pub delivery : Option (Delivery → Call W Published)
  pub cleanup_workspaces : Bool

-- What a node reads and writes: the trace store, and the world of the collaborators.
pub record Platform (W : Type 0) : Type 0 where
  pub store : Store
  pub world : W

module _ {W : Type 0} where
  module _ {A : Type 0} where
    -- A call of a collaborator, which cannot reach the store.
    unfoldable pub call : Call W A → Exec (Platform W) A
    call c p = let (r, w) = c p.world in (r, record p { world = w })

    -- One that never raises.
    unfoldable pub ask : (W → A × W) → Exec (Platform W) A
    ask c p = let (a, w) = c p.world in (ok a, record p { world = w })

    unfoldable pub read_store : (Store → A) → Exec (Platform W) A
    read_store f p = (ok (f p.store), p)

  unfoldable pub write_store : (Store → Store) → Exec (Platform W) (Unit {0})
  write_store f p = (ok tt, record p { store = f p.store })
