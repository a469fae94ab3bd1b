-- ===== src/Tests/Memories.antt =====
-- The two memories on a few messages.
use tracklogic_agent.Common.{
  ◌≡◌, ◌≤◌, ◌-◌, ◌/◌, max, refl, codes, List, [], ◌∷◌, ◌++◌, length, take, drop, min, arith,
}
use tracklogic_agent.Types.{Message}
use tracklogic_agent.Memory.Buffer
use tracklogic_agent.Memory.Buffer.{BufferMemory, leading_system, cut_of, snapshot}
use tracklogic_agent.Memory.Buffer.Bounds.{IsBounded}
use tracklogic_agent.Memory.Buffer.Order.{
  AreSystem, add_keeps_system, add_drops_system, add_all, add_all-IsBounded,
}
use tracklogic_agent.Memory.Summary
use tracklogic_agent.Memory.Summary.{SummaryMemory, compact, restore}
use tracklogic_agent.Memory.Summary.Laws
use tracklogic_agent.Memory.Summary.Laws.{compact_keeps_newest, add_all-restore, recent-eq}
use tracklogic_agent.Tests.Data.{greeting, question, reply}

abbrev three : List Message
three = greeting ∷ question ∷ reply ∷ []

abbrev full_buffer : BufferMemory
full_buffer = record { messages = greeting ∷ question ∷ reply ∷ question ∷ []; capacity = 4 }

abbrev instructed : BufferMemory
instructed = record { messages = greeting ∷ greeting ∷ question ∷ []; capacity = 3 }

abbrev summarized : SummaryMemory
summarized = record { messages = three; summary = []; keep_recent = 2 }

add_keeps_system_example :
    snapshot (
      Buffer.add reply
        (record { messages = (greeting ∷ []) ++ question ∷ reply ∷ question ∷ []; capacity = 4 }))
    ≡ (greeting ∷ []) ++ (drop (max 1 (4 / 2) - 1) (question ∷ reply ∷ question ∷ []) ++ reply ∷ [])
add_keeps_system_example =
    add_keeps_system reply 4 (greeting ∷ []) question (reply ∷ question ∷ []) (refl, tt) refl
      (omega arith) (omega arith)

instructed-full : instructed.capacity ≤ length instructed.messages
instructed-full = omega arith

instructed-many : cut_of instructed.capacity ≤ leading_system instructed.messages
unfolding leading_system cut_of
instructed-many = omega arith

add_drops_system_example :
    AreSystem (take (cut_of instructed.capacity) instructed.messages)
    × (snapshot (Buffer.add reply instructed)
        ≡ drop (cut_of instructed.capacity) instructed.messages ++ reply ∷ [])
add_drops_system_example = add_drops_system reply instructed instructed-full instructed-many

add_all-IsBounded_example : IsBounded (add_all three full_buffer)
add_all-IsBounded_example =
    add_all-IsBounded three full_buffer (record { positive = omega arith; within = omega arith })

compact_keeps_newest_example :
    ((compact (codes "so far") summarized).summary ≡ codes "so far")
    × (take (3 - 2) three ++ Summary.snapshot (compact (codes "so far") summarized) ≡ three)
    × (length (Summary.snapshot (compact (codes "so far") summarized)) ≡ min 2 3)
compact_keeps_newest_example = compact_keeps_newest (codes "so far") summarized

add_all-restore_example :
    (Summary.snapshot (Laws.add_all three (restore (codes "so far") three summarized))
      ≡ three ++ three)
    × ((Laws.add_all three (restore (codes "so far") three summarized)).summary ≡ codes "so far")
add_all-restore_example = add_all-restore (codes "so far") three three summarized
