-- ===== src/Engine/Agent/Answer.antt =====
-- The messages that the loop over a response's tool calls, in engine/agent.go, leaves in the memory.
use tracklogic_agent.Common.{
  ℕ, subst, ◌≡◌, refl, ap, Bool, true, false, Text, List, [], ◌∷◌, Option, none, some,
  if◌then◌else◌,
}
use tracklogic_agent.Types.{tool, ToolCall, Message, GoError, Result, ok, err}
use tracklogic_agent.Model.{InvokeResponse}
use tracklogic_agent.Memory.{Memory}
use tracklogic_agent.Memory
use tracklogic_agent.Task.Protocol.{EventType, EventPayload, tool_started}
use tracklogic_agent.Engine.Runtime.{Runtime, Codec}
use tracklogic_agent.Engine.Tools.{Toolbox}
use tracklogic_agent.Engine.Agent.{
  RunConfig, Agent, RunState, Flow, returned, going, ◌>>=◌, remember, failed_run, save,
  checkpoint_result, progress, assistant_message, tool_message,
}
use tracklogic_agent.Engine.Agent.Calls.{
  result_text, announce, acknowledged, controlled, after_tool, task_tool, run_plain_tool, run_tool,
  run_tools, use_tools,
}

-- A message of the tool that the call names, for that call.
pub record IsAnswer (call : ToolCall) (msg : Message) : Type 0 where
  pub role : msg.role ≡ tool
  pub tool_call_id : msg.tool_call_id ≡ call.id
  pub name : msg.name ≡ call.function.name

-- One answer for each call, in the order of the calls.
abbrev pub Answers : List ToolCall → List Message → Type 0
Answers [] [] = Unit
Answers [] (msg ∷ msgs) = ⊥
Answers (call ∷ calls) [] = ⊥
Answers (call ∷ calls) (msg ∷ msgs) = IsAnswer call msg × Answers calls msgs

abbrev pub remember_all : List Message → Memory → Memory
remember_all [] m = m
remember_all (msg ∷ msgs) m = remember_all msgs (Memory.add msg m)

-- The memory has changed from `m` to `m'` by the answers to the calls.
pub record IsAnswered (calls : List ToolCall) (m m' : Memory) : Type 0 where
  pub answers : List Message
  pub stored : m' ≡ remember_all answers m
  pub matched : Answers calls answers

-- What holds of the state that a piece of the run goes on with.
unfoldable Goes : {W : Type 0} → (RunState W → Type 0) → Flow W → Type 0
Goes P (returned out w m) = Unit
Goes P (going s) = P s

Goes-going :
    {W : Type 0} (P : RunState W → Type 0) (s : RunState W) (f : Flow W)
    → f ≡ going s
    → Goes P f
    → P s
unfolding Goes
Goes-going P s f e h = subst (Goes P) e h

Goes-map :
    {W : Type 0} (P Q : RunState W → Type 0) (f : Flow W)
    → Goes P f
    → ((s : RunState W) → P s → Q s)
    → Goes Q f
unfolding Goes
Goes-map P Q (returned out w m) h g = h
Goes-map P Q (going s) h g = g s h

Goes->>= :
    {W : Type 0} (P Q : RunState W → Type 0) (f : Flow W) (k : RunState W → Flow W)
    → Goes P f
    → ((s : RunState W) → P s → Goes Q (k s))
    → Goes Q (f >>= k)
unfolding Goes
Goes->>= P Q (returned out w m) k h g = h
Goes->>= P Q (going s) k h g = g s h

Goes-if :
    {W : Type 0} (P : RunState W → Type 0) (b : Bool) (f g : Flow W)
    → Goes P f
    → Goes P g
    → Goes P (if b then f else g)
Goes-if P true f g hf hg = hf
Goes-if P false f g hf hg = hg

Goes-here : {W : Type 0} (P : RunState W → Type 0) (s : RunState W) → P s → Goes P (going s)
unfolding Goes
Goes-here P s h = h

failed_run-Goes :
    {W : Type 0} (P : RunState W → Type 0) (e : GoError) (s : RunState W) → Goes P (failed_run e s)
unfolding Goes failed_run
failed_run-Goes P e s = _

-- The state has the memory `m`, and one with the answers to the calls since.
abbrev Has : {W : Type 0} → Memory → RunState W → Type 0
Has m s = s.memory ≡ m

-- One answer more than in `m`, to the call.
pub record HasAnswer {W : Type 0} (call : ToolCall) (m : Memory) (s : RunState W) : Type 0 where
  pub answer : Message
  pub stored : s.memory ≡ Memory.add answer m
  pub matched : IsAnswer call answer

HasAnswer-tool_message :
    {W : Type 0} (call : ToolCall) (text : Text) (now : ℕ) (m : Memory) (s : RunState W)
    → Has (Memory.add (tool_message call text now) m) s
    → HasAnswer call m s
HasAnswer-tool_message call text now m s h = record {
  answer = tool_message call text now;
  stored = h;
  matched = record { role = refl; tool_call_id = refl; name = refl };
}

module _ {W J : Type 0} (a : Agent) (cfg : RunConfig) (rt : Runtime W) (codec : Codec)
    (box : Toolbox W J) where
  checkpoint_result-Has :
      (m : Memory) (message : Text) (s : RunState W) (out : Option GoError × W)
      → Has m s
      → Goes (Has m) (checkpoint_result a cfg rt message s out)
  unfolding checkpoint_result
  checkpoint_result-Has m message s (none, w) h = Goes-here (Has m) (record s { world = w }) h
  checkpoint_result-Has m message s (some e, w) h =
      failed_run-Goes (Has m) _ (record s { world = w })

  save-Has :
      (m : Memory) (message : Text) (pending : Option ToolCall) (s : RunState W)
      → Has m s
      → Goes (Has m) (save a cfg rt message pending s)
  unfolding save
  save-Has m message pending s h = checkpoint_result-Has m message s _ h

  acknowledged-Has :
      (m : Memory) (message : Text) (s : RunState W) (out : Option GoError × W)
      → Has m s
      → Goes (Has m) (acknowledged a cfg rt codec box message s out)
  acknowledged-Has m message s (none, w) h = Goes-here (Has m) (record s { world = w }) h
  acknowledged-Has m message s (some e, w) h = failed_run-Goes (Has m) _ (record s { world = w })

  announce-Has :
      (m : Memory) (message : Text) (kind : EventType) (payload : EventPayload) (s : RunState W)
      → Has m s
      → Goes (Has m) (announce a cfg rt codec box message kind payload s)
  unfolding announce
  announce-Has m message kind payload s h = acknowledged-Has m message s _ h

  after_tool-HasAnswer :
      (call : ToolCall) (m : Memory) (s : RunState W) (out : Result Text × W)
      → Has m s
      → Goes (HasAnswer call m) (after_tool a cfg rt codec box call s out)
  unfolding remember
  after_tool-HasAnswer call m s (result, w) h =
      let text = result_text a cfg rt codec box result in
      let m' = Memory.add (tool_message call text (rt.now w)) m in
      let stored = ap (λ x. Memory.add (tool_message call text (rt.now w)) x) h in
      Goes-map (Has m') (HasAnswer call m) _
        (Goes-if (Has m') _ _ _
          (Goes->>= (Has m') (Has m') _ _ (announce-Has m' _ _ _ _ stored)
            (λ s' h'. save-Has m' _ none s' h'))
          (Goes-here (Has m') _ stored))
        (HasAnswer-tool_message call text (rt.now w) m)

  run_plain_tool-HasAnswer :
      (call : ToolCall) (m : Memory) (s : RunState W)
      → Has m s
      → Goes (HasAnswer call m) (run_plain_tool a cfg rt codec box call s)
  unfolding run_plain_tool
  run_plain_tool-HasAnswer call m s h = after_tool-HasAnswer call m s _ h

  controlled-HasAnswer :
      (call : ToolCall) (m : Memory) (s : RunState W) (out : Result Text × W)
      → Has m s
      → Goes (HasAnswer call m) (controlled a cfg rt codec box call s out)
  unfolding remember
  controlled-HasAnswer call m s (err e, w) h = failed_run-Goes _ e _
  controlled-HasAnswer call m s (ok text, w) h =
      let stored = ap (λ x. Memory.add (tool_message call text (rt.now w)) x) h in
      Goes-map (Has _) (HasAnswer call m) _ (save-Has _ _ none _ stored)
        (HasAnswer-tool_message call text (rt.now w) m)

  task_tool-HasAnswer :
      (call : ToolCall) (m : Memory) (s : RunState W) (out : Option (Result Text × W))
      → Has m s
      → Goes (HasAnswer call m) (task_tool a cfg rt codec box call s out)
  unfolding progress
  task_tool-HasAnswer call m s (some out) h = controlled-HasAnswer call m s out h
  task_tool-HasAnswer call m s none h =
      Goes->>= (Has m) _ _ _ (save-Has m _ (some call) s h) (λ s1 h1.
        Goes->>= (Has m) _ _ _ (announce-Has m _ tool_started _ s1 h1)
          (λ s2 h2. run_plain_tool-HasAnswer call m _ h2))

  run_tool-HasAnswer :
      (call : ToolCall) (m : Memory) (s : RunState W)
      → Has m s
      → Goes (HasAnswer call m) (run_tool a cfg rt codec box call s)
  unfolding run_tool
  run_tool-HasAnswer call m s h =
      Goes-if (HasAnswer call m) _ _ _ (task_tool-HasAnswer call m s _ h)
        (run_plain_tool-HasAnswer call m s h)

  run_tools-IsAnswered :
      (calls : List ToolCall) (m : Memory) (s : RunState W)
      → Has m s
      → Goes (λ s'. IsAnswered calls m s'.memory) (run_tools a cfg rt codec box calls s)
  unfolding run_tools
  run_tools-IsAnswered [] m s h = Goes-here _ s (record { answers = []; stored = h; matched = _ })
  run_tools-IsAnswered (call ∷ calls) m s h =
      Goes->>= (HasAnswer call m) _ _ _ (run_tool-HasAnswer call m s h) (λ s1 first.
        Goes-map (λ s'. IsAnswered calls (Memory.add first.answer m) s'.memory) _ _
          (run_tools-IsAnswered calls _ s1 first.stored)
          (λ s' rest. record {
            answers = first.answer ∷ rest.answers;
            stored = rest.stored;
            matched = (first.matched, rest.matched);
          }))

  -- When the run goes on after a response with tool calls, the memory has grown by the assistant's
  -- message with those calls and then by one tool message for each call, in the calls' order, which
  -- has the call's id and the tool's name. This holds of both kinds of memory and in both modes.
  pub use_tools-IsAnswered :
      (r : InvokeResponse) (s s' : RunState W)
      → use_tools a cfg rt codec box r s ≡ going s'
      → IsAnswered r.tool_calls
          (Memory.add (assistant_message r r.tool_calls (rt.now s.world)) s.memory)
          s'.memory
  unfolding use_tools remember
  use_tools-IsAnswered r s s' e = Goes-going _ s' _ e (run_tools-IsAnswered r.tool_calls _ _ refl)
