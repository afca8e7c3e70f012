-- ===== src/Llm.antt =====
-- llm/client.py: messages, completions and tool descriptions. A tool's input and its schema are
-- JSON objects, kept as entries; the model service itself is a parameter of the agent.
use autonomous_software_engi.Prelude.{ℕ, String, Bool, List, [], ◌∷◌, map}
use autonomous_software_engi.Prelude.Text.{join}
use autonomous_software_engi.Prelude.Dict.{Dict}
use autonomous_software_engi.Contracts.Types.{Value}

pub record ToolUse : Type 0 where
  pub id : String
  pub name : String
  pub input : Dict Value

pub record ToolResult : Type 0 where
  pub tool_use_id : String
  pub content : String
  pub is_error : Bool

pub data ContentBlock : Type 0 where
  text_block : String → ContentBlock
  tool_use : ToolUse → ContentBlock
  tool_result : ToolResult → ContentBlock

pub data Role : Type 0 where
  user assistant : Role

pub record Message : Type 0 where
  pub role : Role
  pub content : List ContentBlock

unfoldable pub user_message : String → Message
user_message text = record { role = user; content = text_block text ∷ [] }

unfoldable pub assistant_message : List ContentBlock → Message
assistant_message blocks = record { role = assistant; content = blocks }

unfoldable pub tool_results_message : List ToolResult → Message
tool_results_message results = record { role = user; content = map tool_result results }

pub record Usage : Type 0 where
  pub input_tokens : ℕ
  pub output_tokens : ℕ
  pub cache_read_tokens : ℕ
  pub cache_write_tokens : ℕ

pub record Completion : Type 0 where
  pub model : String
  pub content : List ContentBlock
  pub stop_reason : String
  pub usage : Usage

texts : List ContentBlock → List String
texts [] = []
texts (text_block t ∷ rest) = t ∷ texts rest
texts (_ ∷ rest) = texts rest

-- `Completion.text`
unfoldable pub completion_text : Completion → String
unfolding texts
completion_text c = join "\n" (texts c.content)

uses : List ContentBlock → List ToolUse
uses [] = []
uses (tool_use u ∷ rest) = u ∷ uses rest
uses (_ ∷ rest) = uses rest

-- `Completion.tool_uses`
unfoldable pub tool_uses : Completion → List ToolUse
unfolding uses
tool_uses c = uses c.content
