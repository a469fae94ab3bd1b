-- ===== src/ToolLayer/Registry/Entries.antt =====
-- The entries of the registry of tool/registry.go, and what registering does to them.
use tracklogic_agent.Common.{
  ◌≡◌, ◌≢◌, ◌⊎◌, inl, inr, refl, sym, subst, true, false, Bool-cases, Text, ◌||◌, not, text_eq,
  text_eq_iff, trim_space, is_empty, List, [], ◌∷◌, Option, none, some, is_some, if◌then◌else◌,
  Dict, lookup, insert, erase, keys, lookup-insert, All, arith,
}
use tracklogic_agent.Interaction.Checks.{Distinct}
use tracklogic_agent.ToolLayer.Registry.{
  Registry, RegisteredTool, RegistryError, tool_required, malformed_name, name_mismatch,
  already_registered, register, unregister, find_tool,
}

-- A tool that may stand in a registry.
pub record IsProper {T : Type 0} (t : RegisteredTool T) : Type 0 where
  pub present : t.is_nil ≡ false
  pub filled : is_empty t.name ≡ false
  pub trimmed : t.name ≡ trim_space t.name
  pub described : t.definition_name ≡ t.name

-- Every entry holds a proper tool under the tool's own name, and no name has two entries.
pub record IsRegistry {T : Type 0} (r : Registry T) : Type 0 where
  pub entries : All (λ e. (e.0 ≡ e.1.name) × IsProper e.1) r
  pub distinct : Distinct (keys r)

-- The calls that change a registry.
pub data Change (T : Type 0) : Type 0 where
  registers : RegisteredTool T → Change T
  unregisters : Text → Change T

All-insert :
    {V : Type 0} (P : Text × V → Type 0) (k : Text) (v : V) (m : Dict V)
    → P (k, v)
    → All P m
    → All P (insert k v m)
unfolding insert
All-insert P k v [] p h = (p, tt)
All-insert P k v ((j, w) ∷ m) p h = elim (Bool-cases (text_eq j k)) [
  | inl hit ↦ rw hit (p, h.1)
  | inr miss ↦ rw miss (h.0, All-insert P k v m p h.1)
]

All-erase :
    {V : Type 0} (P : Text × V → Type 0) (k : Text) (m : Dict V) → All P m → All P (erase k m)
unfolding erase
All-erase P k [] h = tt
All-erase P k ((j, w) ∷ m) h = elim (Bool-cases (text_eq j k)) [
  | inl hit ↦ rw hit (All-erase P k m h.1)
  | inr miss ↦ rw miss (h.0, All-erase P k m h.1)
]

keys-insert :
    {V : Type 0} (P : Text → Type 0) (k : Text) (v : V) (m : Dict V)
    → P k
    → All P (keys m)
    → All P (keys (insert k v m))
unfolding insert
keys-insert P k v [] p h = (p, tt)
keys-insert P k v ((j, w) ∷ m) p h = elim (Bool-cases (text_eq j k)) [
  | inl hit ↦ rw hit (p, h.1)
  | inr miss ↦ rw miss (h.0, keys-insert P k v m p h.1)
]

keys-erase :
    {V : Type 0} (P : Text → Type 0) (k : Text) (m : Dict V)
    → All P (keys m)
    → All P (keys (erase k m))
unfolding erase
keys-erase P k [] h = tt
keys-erase P k ((j, w) ∷ m) h = elim (Bool-cases (text_eq j k)) [
  | inl hit ↦ rw hit (keys-erase P k m h.1)
  | inr miss ↦ rw miss (h.0, keys-erase P k m h.1)
]

differ : (j k : Text) → text_eq j k ≡ false → j ≢ k
differ j k miss e = ground (arith, text_eq_iff j k)

Distinct-insert :
    {V : Type 0} (k : Text) (v : V) (m : Dict V)
    → Distinct (keys m)
    → Distinct (keys (insert k v m))
unfolding insert
Distinct-insert k v [] h = (tt, tt)
Distinct-insert k v ((j, w) ∷ m) h = elim (Bool-cases (text_eq j k)) [
  | inl hit ↦ rw hit (subst (λ s. All (λ u. s ≢ u) (keys m)) ((text_eq_iff j k).0 hit) h.0, h.1)
  | inr miss ↦
      rw miss (keys-insert (λ u. j ≢ u) k v m (differ j k miss) h.0, Distinct-insert k v m h.1)
]

Distinct-erase :
    {V : Type 0} (k : Text) (m : Dict V) → Distinct (keys m) → Distinct (keys (erase k m))
unfolding erase
Distinct-erase k [] h = tt
Distinct-erase k ((j, w) ∷ m) h = elim (Bool-cases (text_eq j k)) [
  | inl hit ↦ rw hit (Distinct-erase k m h.1)
  | inr miss ↦ rw miss (keys-erase (λ u. j ≢ u) k m h.0, Distinct-erase k m h.1)
]

module _ {T : Type 0} where
  -- The registry is left as it was.
  pub record IsRejected (r : Registry T) (out : Option RegistryError × Registry T) : Type 0 where
    pub error : RegistryError
    pub result : out ≡ (some error, r)

  -- The tool is new, and found under its name; every other name stands for what it stood for.
  pub record IsRegistered (t : RegisteredTool T) (r : Registry T)
      (out : Option RegistryError × Registry T) : Type 0 where
    pub proper : IsProper t
    pub fresh : find_tool t.name r ≡ none
    pub result : out ≡ (none, insert t.name t r)
    pub finds :
        (name : Text)
        → find_tool name out.1 ≡ (if text_eq t.name name then some t else find_tool name r)

  fresh_lookup : (o : Option (RegisteredTool T)) → is_some o ≡ false → o ≡ none
  fresh_lookup none h = refl
  fresh_lookup (some t) h = cc

  accepted :
      (t : RegisteredTool T) (r : Registry T)
      → IsProper t
      → is_some (lookup t.name r) ≡ false
      → register t r ≡ (none, insert t.name t r)
  unfolding register
  accepted t r p h = ground (
    arith,
    p.present,
    p.filled,
    (text_eq_iff t.name (trim_space t.name)).1 p.trimmed,
    (text_eq_iff t.definition_name t.name).1 p.described,
  )

  registered :
      (t : RegisteredTool T) (r : Registry T)
      → IsProper t
      → is_some (lookup t.name r) ≡ false
      → IsRegistered t r (register t r)
  unfolding find_tool
  registered t r p h = record {
    proper = p;
    fresh = fresh_lookup (lookup t.name r) h;
    result = accepted t r p h;
    finds = λ name. rw (accepted t r p h) (lookup-insert t.name name t r);
  }

  proper :
      (t : RegisteredTool T)
      → t.is_nil ≡ false
      → (is_empty t.name || not (text_eq t.name (trim_space t.name))) ≡ false
      → text_eq t.definition_name t.name ≡ true
      → IsProper t
  proper t present formed same = record {
    present = present;
    filled = ground arith;
    trimmed = ground (arith, text_eq_iff t.name (trim_space t.name));
    described = (text_eq_iff t.definition_name t.name).0 same;
  }

  -- Registering either is refused and leaves the registry as it was, or adds a proper tool whose name
  -- was free, so that this name now finds it and all others find what they found before.
  pub register-IsRegistered :
      (t : RegisteredTool T) (r : Registry T)
      → IsRejected r (register t r) ⊎ IsRegistered t r (register t r)
  unfolding register
  register-IsRegistered t r = elim (Bool-cases t.is_nil) [
    | inl missing ↦ inl (record { error = tool_required; result = ground arith })
    | inr present ↦
        elim (Bool-cases (is_empty t.name || not (text_eq t.name (trim_space t.name)))) [
          | inl malformed ↦ inl (record { error = malformed_name; result = ground arith })
          | inr formed ↦ elim (Bool-cases (text_eq t.definition_name t.name)) [
            | inr different ↦ inl (record { error = name_mismatch t.name; result = ground arith })
            | inl same ↦ elim (Bool-cases (is_some (lookup t.name r))) [
              | inl taken ↦
                  inl (record { error = already_registered t.name; result = ground arith })
              | inr free ↦ inr (registered t r (proper t present formed same) free)
            ]
          ]
        ]
  ]

  abbrev pub change : Change T → Registry T → Registry T
  change (registers t) r = (register t r).1
  change (unregisters name) r = unregister name r

  abbrev pub change_all : List (Change T) → Registry T → Registry T
  change_all [] r = r
  change_all (c ∷ cs) r = change_all cs (change c r)

  outcome-IsRegistry :
      (t : RegisteredTool T) (r : Registry T) (out : Option RegistryError × Registry T)
      → IsRejected r out ⊎ IsRegistered t r out
      → IsRegistry r
      → IsRegistry out.1
  outcome-IsRegistry t r out (inl refused) v = subst (λ o. IsRegistry o.1) (sym refused.result) v
  outcome-IsRegistry t r out (inr done) v =
      subst (λ o. IsRegistry o.1) (sym done.result)
        (record {
          entries = All-insert _ t.name t r (refl, done.proper) v.entries;
          distinct = Distinct-insert t.name t r v.distinct;
        })

  change-IsRegistry : (c : Change T) (r : Registry T) → IsRegistry r → IsRegistry (change c r)
  unfolding unregister
  change-IsRegistry (registers t) r v =
      outcome-IsRegistry t r (register t r) (register-IsRegistered t r) v
  change-IsRegistry (unregisters name) r v = record {
    entries = All-erase _ name r v.entries;
    distinct = Distinct-erase name r v.distinct;
  }

  -- After any registrations and removals, refused ones included, on a registry whose entries are
  -- proper tools under their own names, one for each name, this is so again.
  pub change_all-IsRegistry :
      (cs : List (Change T)) (r : Registry T) → IsRegistry r → IsRegistry (change_all cs r)
  change_all-IsRegistry [] r v = v
  change_all-IsRegistry (c ∷ cs) r v =
      change_all-IsRegistry cs (change c r) (change-IsRegistry c r v)
