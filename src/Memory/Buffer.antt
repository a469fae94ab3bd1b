-- ===== src/Memory/Buffer.antt =====
-- memory/buffer.go: the bounded conversation buffer. A method that changes the buffer returns the
-- new one; the lock, which makes each method atomic, is left out.
pub mod Bounds
pub mod Order
use tracklogic_agent.Common.{
  ℕ, ◌+◌, ◌-◌, ◌/◌, Bool, true, false, List, [], ◌∷◌, ◌++◌, Option, none, some, length, take, drop,
  get_elem?, ltb, leb, if◌then◌else◌, ℤ, pos, negsuc, ltb_ℤ, leb_ℤ, pos_part,
}
use tracklogic_agent.Types.{Role, system, user, assistant, tool, Message}

pub record BufferMemory : Type 0 where
  pub messages : List Message
  pub capacity : ℕ

unfoldable pub new_buffer : ℤ → BufferMemory
new_buffer capacity = record {
  messages = [];
  capacity = if leb_ℤ capacity (pos 0) then 100 else pos_part capacity;
}

abbrev pub is_system : Role → Bool
is_system system = true
is_system _ = false

-- The loop that counts the leading system messages.
unfoldable pub leading_system : List Message → ℕ
leading_system [] = 0
leading_system (m ∷ ms) = let rest = 1 + leading_system ms in if is_system m.role then rest else 0

unfoldable pub cut_of : ℕ → ℕ
cut_of capacity = let cut = capacity / 2 in if ltb cut 1 then 1 else cut

-- The messages that a full buffer keeps.
unfoldable pub evict : ℕ → List Message → List Message
unfolding leading_system cut_of
evict capacity ms =
    let cut = cut_of capacity in
    let start = leading_system ms in
    if ltb start cut then take start ms ++ drop cut ms else drop cut ms

unfoldable pub add : Message → BufferMemory → BufferMemory
add msg m =
    let kept =
      if leb m.capacity (length m.messages) then evict m.capacity m.messages else m.messages in
    record m { messages = kept ++ msg ∷ [] }

unfoldable pub get : ℤ → BufferMemory → Option Message
get (pos index) m = get_elem? m.messages index
get (negsuc index) m = none

unfoldable pub recent : ℤ → BufferMemory → List Message
recent n m =
    if leb_ℤ n (pos 0)
    then []
    else if leb (length m.messages) (pos_part n)
    then m.messages
    else drop (length m.messages - pos_part n) m.messages

unfoldable pub snapshot : BufferMemory → List Message
snapshot m = m.messages

unfoldable pub clear : BufferMemory → BufferMemory
clear m = record m { messages = [] }

unfoldable pub len : BufferMemory → ℕ
len m = length m.messages
