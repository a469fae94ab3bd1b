-- ===== src/Tests/Agents.antt =====
-- Runs of an Agent with one tool.
use tracklogic_agent.Engine.Agent.{summary_of}
use tracklogic_agent.Common.{not, ◌||◌, is_empty}
use tracklogic_agent.Common.{
  ◌∷◌, [], false, is_empty, ◌≡◌, refl, codes, Text, lookup, text_eq, to_lower, trim_space,
}
use tracklogic_agent.Memory
use tracklogic_agent.Interaction.{member}
use tracklogic_agent.Engine.Policy.{invoke_model}
use tracklogic_agent.Engine.Tools.{execute_tool_call}
use tracklogic_agent.Engine.Tools.Scope.{IsScoped, execute_tool_call-IsScoped}
use tracklogic_agent.Engine.Agent.{
  build_messages, has_system, RunState, Flow, going, returned, assistant_message, remember,
  validate_run_config, response_needs_continuation,
}
use tracklogic_agent.Engine.Agent.Calls.{use_tools, run_tools, run_tool, run_plain_tool}
use tracklogic_agent.Engine.Agent.Loop.{loop}
use tracklogic_agent.Engine.Agent.Run.{run}
use tracklogic_agent.Engine.Agent.Rounds.{IsFinal, run-IsFinal}
use tracklogic_agent.Engine.Agent.Answer.{IsAnswered, use_tools-IsAnswered}
use tracklogic_agent.Memory.{summary, snapshot}
use tracklogic_agent.Memory.Summary.{SummaryMemory, compact}
use tracklogic_agent.Engine.Agent.Messages.{
  IsHistory, build_messages-IsHistory, summary_displaces_prompt,
}
use tracklogic_agent.Tests.Data.{question, call_of}
use tracklogic_agent.Tests.World.{
  World, fresh, asking, runtime, codec, toolbox, engineer, settings, begun,
}

abbrev unheard : Text → World → World
unheard t w = w

run-IsFinal_example :
    IsFinal 0 4 (run engineer runtime codec toolbox unheard settings (codes "how far") fresh).0
run-IsFinal_example =
    run-IsFinal engineer runtime codec toolbox unheard settings (codes "how far") fresh

execute_tool_call-IsScoped_example :
    IsScoped codec toolbox
      (call_of (codes "c1") (codes "{}"))
      fresh
      (execute_tool_call codec toolbox (call_of (codes "c1") (codes "{}")) fresh)
execute_tool_call-IsScoped_example =
    execute_tool_call-IsScoped codec toolbox (call_of (codes "c1") (codes "{}")) fresh

abbrev state_of : Flow World → RunState World
state_of (returned out w m) = begun
state_of (going s) = s

abbrev used : RunState World
used = state_of (use_tools engineer settings runtime codec toolbox asking begun)

goes_on : use_tools engineer settings runtime codec toolbox asking begun ≡ going used
unfolding use_tools run_tools run_tool run_plain_tool execute_tool_call member lookup text_eq
goes_on = refl

use_tools-IsAnswered_example :
    IsAnswered asking.tool_calls
      (Memory.add (assistant_message asking asking.tool_calls 0) begun.memory)
      used.memory
use_tools-IsAnswered_example =
    use_tools-IsAnswered engineer settings runtime codec toolbox asking begun used goes_on

-- A run that calls the tool twice in its first round and answers in its second.
runs :
    (run engineer runtime codec toolbox unheard settings (codes "how far") fresh).0.content
    ≡ codes "two laps"
unfolding run loop validate_run_config remember invoke_model use_tools execute_tool_call member
    text_eq lookup response_needs_continuation to_lower trim_space
runs = refl

build_messages-IsHistory_example :
    IsHistory (snapshot begun.memory) (build_messages (codes "be brief") 0 begun.memory)
    × (has_system (build_messages (codes "be brief") 0 begun.memory) ≡ (
        not (is_empty (codes "be brief"))
        || (not (is_empty (summary_of begun.memory)) || has_system (snapshot begun.memory))))
build_messages-IsHistory_example = build_messages-IsHistory (codes "be brief") 0 begun.memory

abbrev kept : SummaryMemory
kept = record { messages = question ∷ []; summary = []; keep_recent = 20 }

told : is_empty (trim_space (codes "so far")) ≡ false
unfolding trim_space
told = refl

summary_displaces_prompt_example :
    build_messages (codes "be brief") 0 (summary (compact (codes "so far") kept))
    ≡ build_messages (codes "never mind") 0 (summary (compact (codes "so far") kept))
summary_displaces_prompt_example =
    summary_displaces_prompt (codes "be brief") (codes "never mind") 0 (codes "so far") kept told
