-- ===== src/Memory.antt =====
-- memory/interface.go: the two implementations of Memory, and the interface as their sum.
pub mod Buffer
pub mod Summary
use tracklogic_agent.Common.{ℕ, Text, List, []}
use tracklogic_agent.Types.{Message}
use Buffer.{BufferMemory}
use Summary.{SummaryMemory}

pub data Memory : Type 0 where
  buffer : BufferMemory → Memory
  summary : SummaryMemory → Memory

unfoldable pub add : Message → Memory → Memory
add msg (buffer m) = buffer (Buffer.add msg m)
add msg (summary m) = summary (Summary.add msg m)

unfoldable pub snapshot : Memory → List Message
snapshot (buffer m) = Buffer.snapshot m
snapshot (summary m) = Summary.snapshot m
