-- ===== src/Engine/Agent/Messages.antt =====
-- The messages that buildMessages in engine/agent.go sends to the model.
use tracklogic_agent.Common.{
  ◌≡◌, refl, sym, ap, ◌∙◌, ℕ, Bool, true, false, ◌&&◌, ◌||◌, not, Text, codes, is_empty, trim_space,
  List, [], ◌∷◌, ◌++◌, All, if◌then◌else◌, arith,
}
use tracklogic_agent.Types.{Message, system}
use tracklogic_agent.Memory.{Memory, summary, snapshot}
use tracklogic_agent.Memory.Summary.{SummaryMemory, compact}
use tracklogic_agent.Engine.Agent.{is_system, has_system, plain_message, build_messages, summary_of}

-- The conversation, with nothing but system messages put before it.
pub record IsHistory (history sent : List Message) : Type 0 where
  pub before : List Message
  pub systems : All (λ m. is_system m.role ≡ true) before
  pub whole : sent ≡ before ++ history

abbrev with_summary : Text → ℕ → List Message → List Message
with_summary text now history =
    if is_empty text
    then history
    else plain_message system (codes "Conversation summary:\n" ++ text) now ∷ history

abbrev with_prompt : Text → ℕ → List Message → List Message
with_prompt prompt now msgs =
    if not (is_empty prompt) && not (has_system msgs)
    then plain_message system prompt now ∷ msgs
    else msgs

with_summary-IsHistory :
    (text : Text) (now : ℕ) (history : List Message)
    → IsHistory history (with_summary text now history)
with_summary-IsHistory [] now history = record { before = []; systems = tt; whole = refl }
with_summary-IsHistory (c ∷ text) now history = record {
  before = plain_message system (codes "Conversation summary:\n" ++ c ∷ text) now ∷ [];
  systems = (refl, tt);
  whole = refl;
}

with_prompt-IsHistory :
    (prompt : Text) (now : ℕ) (history msgs : List Message) (b : Bool)
    → IsHistory history msgs
    → IsHistory history (if b then plain_message system prompt now ∷ msgs else msgs)
with_prompt-IsHistory prompt now history msgs false h = h
with_prompt-IsHistory prompt now history msgs true h = record {
  before = plain_message system prompt now ∷ h.before;
  systems = (refl, h.systems);
  whole = ap (λ ms. plain_message system prompt now ∷ ms) h.whole;
}

has_system-with_prompt :
    (prompt : Text) (now : ℕ) (msgs : List Message)
    → has_system (with_prompt prompt now msgs) ≡ (not (is_empty prompt) || has_system msgs)
unfolding has_system
has_system-with_prompt prompt now msgs = ground arith

has_system-with_summary_eq :
    (text : Text) (now : ℕ) (history : List Message)
    → has_system (with_summary text now history) ≡ (not (is_empty text) || has_system history)
unfolding has_system
has_system-with_summary_eq text now history = ground arith

-- The model is sent the whole conversation in its order, with nothing but system messages before it;
-- and a system message is among what is sent exactly when the Agent has a system prompt, the
-- conversation a summary, or the conversation itself a system message.
pub build_messages-IsHistory :
    (prompt : Text) (now : ℕ) (m : Memory)
    → IsHistory (snapshot m) (build_messages prompt now m)
      × (has_system (build_messages prompt now m)
          ≡ (not (is_empty prompt) || (not (is_empty (summary_of m)) || has_system (snapshot m))))
unfolding build_messages
build_messages-IsHistory prompt now m =
    let sent = with_summary (summary_of m) now (snapshot m) in
    (
      with_prompt-IsHistory prompt now (snapshot m) _ _
          (with_summary-IsHistory (summary_of m) now (snapshot m)),
      has_system-with_prompt prompt now sent
          ∙ ap (λ b. not (is_empty prompt) || b)
              (has_system-with_summary_eq (summary_of m) now (snapshot m)),
    )

has_system-with_summary :
    (text : Text) (now : ℕ) (history : List Message)
    → is_empty (trim_space text) ≡ false
    → has_system (with_summary text now history) ≡ true
unfolding has_system trim_space
has_system-with_summary [] now history h = ground arith
has_system-with_summary (c ∷ text) now history h = refl

with_prompt-same :
    (prompt : Text) (now : ℕ) (msgs : List Message)
    → has_system msgs ≡ true
    → with_prompt prompt now msgs ≡ msgs
with_prompt-same prompt now msgs h = ground arith

-- Once a conversation has been compacted with a summary that is not blank, what the model is sent does
-- not depend on the Agent's system prompt: the summary counts as the system message.
pub summary_displaces_prompt :
    (prompt instead : Text) (now : ℕ) (text : Text) (m : SummaryMemory)
    → is_empty (trim_space text) ≡ false
    → build_messages prompt now (summary (compact text m))
      ≡ build_messages instead now (summary (compact text m))
unfolding build_messages compact
summary_displaces_prompt prompt instead now text m h =
    let history = snapshot (summary (compact text m)) in
    let sent = with_summary text now history in
    let led = has_system-with_summary text now history h in
    with_prompt-same prompt now sent led ∙ sym (with_prompt-same instead now sent led)
