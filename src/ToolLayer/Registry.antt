-- ===== src/ToolLayer/Registry.antt =====
-- tool/registry.go: Registry. A tool is what the registry reads of it, and the tool itself. The mutex
-- makes every operation atomic.
pub mod Names
pub mod Entries
use tracklogic_agent.Common.{
  ℕ, Bool, true, false, ◌||◌, not, ◌==◌, ltb, Text, text_eq, trim_space, is_empty, List, [], ◌∷◌,
  Option, none, some, is_some, if◌then◌else◌, Dict, lookup, insert, erase, keys,
}

pub record RegisteredTool (T : Type 0) : Type 0 where
  pub name : Text
  pub definition_name : Text
  pub is_nil : Bool  -- isNilTool
  pub implementation : T

pub data RegistryError : Type 0 where
  tool_required malformed_name : RegistryError
  name_mismatch already_registered : Text → RegistryError

abbrev pub Registry : Type 0 → Type 0
Registry T = Dict (RegisteredTool T)

-- Go's order on strings; that of the bytes of UTF-8 is that of the code points.
unfoldable pub text_leb : Text → Text → Bool
text_leb [] t = true
text_leb (a ∷ s) [] = false
text_leb (a ∷ s) (b ∷ t) = let rest = text_leb s t in if a == b then rest else ltb a b

unfoldable pub insert_sorted : Text → List Text → List Text
insert_sorted s [] = s ∷ []
insert_sorted s (t ∷ ts) =
    let rest = insert_sorted s ts in if text_leb s t then s ∷ t ∷ ts else t ∷ rest

-- sort.Strings
unfoldable pub sort_texts : List Text → List Text
unfolding insert_sorted
sort_texts [] = []
sort_texts (s ∷ ss) = insert_sorted s (sort_texts ss)

module _ {T : Type 0} where
  unfoldable pub register : RegisteredTool T → Registry T → Option RegistryError × Registry T
  register t r =
      if t.is_nil
      then (some tool_required, r)
      else if is_empty t.name || not (text_eq t.name (trim_space t.name))
      then (some malformed_name, r)
      else if not (text_eq t.definition_name t.name)
      then (some (name_mismatch t.name), r)
      else if is_some (lookup t.name r)
      then (some (already_registered t.name), r)
      else (none, insert t.name t r)

  unfoldable pub unregister : Text → Registry T → Registry T
  unregister name r = erase name r

  unfoldable pub find_tool : Text → Registry T → Option (RegisteredTool T)
  find_tool name r = lookup name r

  -- Names
  unfoldable pub names : Registry T → List Text
  unfolding sort_texts
  names r = sort_texts (keys r)

  abbrev cons_found : Option (RegisteredTool T) → List (RegisteredTool T) → List (RegisteredTool T)
  cons_found none ts = ts
  cons_found (some t) ts = t ∷ ts

  unfoldable pub tools_at : List Text → Registry T → List (RegisteredTool T)
  tools_at [] r = []
  tools_at (n ∷ ns) r = cons_found (lookup n r) (tools_at ns r)

  -- List
  unfoldable pub list_tools : Registry T → List (RegisteredTool T)
  unfolding names tools_at
  list_tools r = tools_at (names r) r
