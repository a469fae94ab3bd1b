-- ===== src/Memory/Summary.antt =====
-- memory/summary.go: the memory of Task mode, which keeps every message until a summary replaces
-- the older ones.
pub mod Laws
use tracklogic_agent.Common.{
  ℕ, ◌-◌, List, [], ◌∷◌, ◌++◌, Option, none, length, drop, get_elem?, ltb, if◌then◌else◌, ℤ, pos,
  negsuc, leb_ℤ, pos_part, Text,
}
use tracklogic_agent.Types.{Message}

pub record SummaryMemory : Type 0 where
  pub messages : List Message
  pub summary : Text
  pub keep_recent : ℕ

unfoldable pub new_summary : ℤ → SummaryMemory
new_summary keep_recent = record {
  messages = [];
  summary = [];
  keep_recent = if leb_ℤ keep_recent (pos 0) then 20 else pos_part keep_recent;
}

unfoldable pub add : Message → SummaryMemory → SummaryMemory
add message m = record m { messages = m.messages ++ message ∷ [] }

unfoldable pub get : ℤ → SummaryMemory → Option Message
get (pos index) m = get_elem? m.messages index
get (negsuc index) m = none

unfoldable pub recent : ℤ → SummaryMemory → List Message
recent count m =
    if leb_ℤ count (pos 0)
    then []
    else let n =
        if ltb (length m.messages) (pos_part count) then length m.messages else pos_part count in
      drop (length m.messages - n) m.messages

unfoldable pub snapshot : SummaryMemory → List Message
snapshot m = m.messages

unfoldable pub clear : SummaryMemory → SummaryMemory
clear m = record m { messages = []; summary = [] }

unfoldable pub len : SummaryMemory → ℕ
len m = length m.messages

unfoldable pub compact : Text → SummaryMemory → SummaryMemory
compact summary m =
    let keep = if ltb (length m.messages) m.keep_recent then length m.messages else m.keep_recent in
    record m { messages = drop (length m.messages - keep) m.messages; summary = summary }

unfoldable pub restore : Text → List Message → SummaryMemory → SummaryMemory
restore summary messages m = record m { messages = messages; summary = summary }
