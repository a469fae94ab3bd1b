-- ===== src/Memory/Summary/Laws.antt =====
-- What memory/summary.go keeps: adding loses nothing, and compacting keeps the newest messages.
use tracklogic_agent.Common.{
  ℕ, ◌-◌, ◌<◌, ◌≡◌, refl, List, [], ◌∷◌, ◌++◌, append_assoc, length, take, min, take-append-drop,
  length-drop, arith, pos, Text, sym, append-nil,
}
use tracklogic_agent.Types.{Message}
use tracklogic_agent.Memory.Buffer
use tracklogic_agent.Memory.Buffer.{BufferMemory}
use tracklogic_agent.Memory.Summary.{SummaryMemory, add, recent, snapshot, compact, restore}

-- Compacting installs the summary, and keeps exactly the newest `keep_recent` messages, or all of
-- them where there are fewer; what it drops is a prefix.
pub compact_keeps_newest :
    (summary : Text) (m : SummaryMemory)
    → ((compact summary m).summary ≡ summary)
      × (take (length m.messages - m.keep_recent) m.messages ++ snapshot (compact summary m)
          ≡ m.messages)
      × (length (snapshot (compact summary m)) ≡ min m.keep_recent (length m.messages))
unfolding compact snapshot
compact_keeps_newest summary m = (
  refl,
  ground (arith, take-append-drop (length m.messages - m.keep_recent) m.messages),
  ground (
    arith,
    length-drop (length m.messages - m.keep_recent) m.messages,
    length-drop (length m.messages - length m.messages) m.messages,
  ),
)

abbrev pub add_all : List Message → SummaryMemory → SummaryMemory
add_all [] m = m
add_all (msg ∷ msgs) m = add_all msgs (add msg m)

snapshot-add_all :
    (msgs : List Message) (m : SummaryMemory) → snapshot (add_all msgs m) ≡ m.messages ++ msgs
unfolding snapshot add
snapshot-add_all [] m = sym (append-nil m.messages)
snapshot-add_all (msg ∷ msgs) m = simp (snapshot-add_all msgs (add msg m), append_assoc)

summary-add_all : (msgs : List Message) (m : SummaryMemory) → (add_all msgs m).summary ≡ m.summary
unfolding add
summary-add_all [] m = refl
summary-add_all (msg ∷ msgs) m = summary-add_all msgs (add msg m)

-- Restoring a summary with its messages and then adding more gives those messages followed by the
-- added ones, and the summary, with nothing lost.
pub add_all-restore :
    (summary : Text) (old msgs : List Message) (m : SummaryMemory)
    → (snapshot (add_all msgs (restore summary old m)) ≡ old ++ msgs)
      × ((add_all msgs (restore summary old m)).summary ≡ summary)
unfolding restore
add_all-restore summary old msgs m = (
  snapshot-add_all msgs (record { messages = old; summary = summary; keep_recent = m.keep_recent }),
  summary-add_all msgs (record { messages = old; summary = summary; keep_recent = m.keep_recent }),
)

-- Both memories give the same recent messages for the same history: for a positive count, a suffix
-- of that length, or the whole history where it is shorter.
pub recent-eq :
    (n : ℕ) (b : BufferMemory) (m : SummaryMemory)
    → b.messages ≡ m.messages
    → 0 < n
    → (Buffer.recent (pos n) b ≡ recent (pos n) m)
      × (take (length m.messages - n) m.messages ++ recent (pos n) m ≡ m.messages)
      × (length (recent (pos n) m) ≡ min n (length m.messages))
unfolding recent Buffer.recent
recent-eq n b m e p = (
  ground arith,
  ground (arith, take-append-drop (length m.messages - n) m.messages),
  ground (arith, length-drop (length m.messages - n) m.messages),
)
