-- ===== src/Memory/Buffer/Bounds.antt =====
-- The size of the buffer of memory/buffer.go.
use tracklogic_agent.Common.{
  ℕ, ◌+◌, ◌≤◌, ◌<◌, List, [], ◌∷◌, length, take, drop, length-append, length-take, length-drop,
  arith, ℤ,
}
use tracklogic_agent.Types.{Message}
use tracklogic_agent.Memory.Buffer.{
  BufferMemory, new_buffer, leading_system, cut_of, evict, add, clear,
}

-- A buffer holds at most its capacity, which is positive.
pub record IsBounded (m : BufferMemory) : Type 0 where
  pub positive : 0 < m.capacity
  pub within : length m.messages ≤ m.capacity

pub cut_of_bounds : (c : ℕ) → 0 < c → (0 < cut_of c) × (cut_of c ≤ c)
unfolding cut_of
cut_of_bounds c h = ground arith

pub leading_system-le : (ms : List Message) → leading_system ms ≤ length ms
unfolding leading_system
leading_system-le [] = omega arith
leading_system-le (m ∷ ms) = ground (arith, leading_system-le ms)

-- An eviction frees at least one place, and removes at most `cut` messages.
pub evict_bounds :
    (c : ℕ) (ms : List Message)
    → 0 < c
    → c ≤ length ms
    → (length (evict c ms) < length ms) × (length ms ≤ length (evict c ms) + cut_of c)
unfolding evict
evict_bounds c ms p h = ground (
  arith,
  cut_of_bounds c p,
  leading_system-le ms,
  length-append (take (leading_system ms) ms) (drop (cut_of c) ms),
  length-take (leading_system ms) ms,
  length-drop (cut_of c) ms,
)

pub new_buffer-IsBounded : (c : ℤ) → IsBounded (new_buffer c)
unfolding new_buffer
new_buffer-IsBounded c = ground arith

pub add-IsBounded : (msg : Message) (m : BufferMemory) → IsBounded m → IsBounded (add msg m)
unfolding add
add-IsBounded msg m v = ground (
  arith,
  evict_bounds m.capacity m.messages v.positive,
  length-append (evict m.capacity m.messages) (msg ∷ []),
  length-append m.messages (msg ∷ []),
)

pub clear-IsBounded : (m : BufferMemory) → IsBounded m → IsBounded (clear m)
unfolding clear
clear-IsBounded m v = ground arith
