-- ===== src/Memory/Buffer/Order.antt =====
-- Which messages the buffer of memory/buffer.go keeps, and in which order.
use tracklogic_agent.Common.{
  ℕ, zero, suc, ◌-◌, ◌/◌, max, ◌≤◌, ◌<◌, ◌≡◌, refl, ◌∙◌, true, false, List, [], ◌∷◌, ◌++◌,
  append_assoc, length, take, drop, All, arith, ap,
}
use tracklogic_agent.Types.{Message}
use tracklogic_agent.Memory.Buffer.{
  BufferMemory, is_system, leading_system, cut_of, evict, add, snapshot,
}
use tracklogic_agent.Memory.Buffer.Bounds.{IsBounded, add-IsBounded}

abbrev pub AreSystem : List Message → Type 0
AreSystem = All λ m. is_system m.role ≡ true

pub take-leading_system :
    (n : ℕ) (ms : List Message) → n ≤ leading_system ms → AreSystem (take n ms)
unfolding leading_system
take-leading_system zero ms h = tt
take-leading_system (suc n) [] h = elim h [ ]
take-leading_system (suc n) (m ∷ ms) h = ground (arith, take-leading_system n ms)

evict-few :
    (c : ℕ) (ms : List Message)
    → leading_system ms < cut_of c
    → evict c ms ≡ take (leading_system ms) ms ++ drop (cut_of c) ms
unfolding evict
evict-few c ms h = ground arith

evict-many :
    (c : ℕ) (ms : List Message) → cut_of c ≤ leading_system ms → evict c ms ≡ drop (cut_of c) ms
unfolding evict
evict-many c ms h = ground arith

add-full :
    (msg : Message) (m : BufferMemory)
    → m.capacity ≤ length m.messages
    → snapshot (add msg m) ≡ evict m.capacity m.messages ++ msg ∷ []
unfolding add snapshot
add-full msg m h = ground arith

-- A run of system messages that another message ends is what the buffer counts.
leading_system-append :
    (systems : List Message) (m : Message) (rest : List Message)
    → AreSystem systems
    → is_system m.role ≡ false
    → leading_system (systems ++ m ∷ rest) ≡ length systems
unfolding leading_system
leading_system-append [] m rest all other = ground arith
leading_system-append (x ∷ systems) m rest all other =
    ground (arith, leading_system-append systems m rest all.1 other)

take-length_append : (xs ys : List Message) → take (length xs) (xs ++ ys) ≡ xs
take-length_append [] ys = refl
take-length_append (x ∷ xs) ys = ap (λ zs. x ∷ zs) (take-length_append xs ys)

drop-length_append :
    (n : ℕ) (xs ys : List Message) → length xs ≤ n → drop n (xs ++ ys) ≡ drop (n - length xs) ys
drop-length_append n [] ys h = ap (λ k. drop k ys) (omega arith)
drop-length_append zero (x ∷ xs) ys h = absurd (omega arith)
drop-length_append (suc n) (x ∷ xs) ys h =
    drop-length_append n xs ys (omega arith) ∙ ap (λ k. drop k ys) (omega arith)

cut_of-max : (capacity : ℕ) → cut_of capacity ≡ max 1 (capacity / 2)
unfolding cut_of
cut_of-max capacity = ground arith

-- A full buffer that starts with a run of system messages shorter than half its capacity, or empty,
-- keeps this run in front when a message is added; of the messages after the run it drops the oldest,
-- as many as fill the run up to half the capacity, and at least one; the rest stays in order, and the
-- new message is last.
pub add_keeps_system :
    (msg : Message) (capacity : ℕ) (systems : List Message) (m : Message) (rest : List Message)
    → AreSystem systems
    → is_system m.role ≡ false
    → capacity ≤ length (systems ++ m ∷ rest)
    → length systems < max 1 (capacity / 2)
    → snapshot (add msg (record { messages = systems ++ m ∷ rest; capacity = capacity }))
      ≡ systems ++ (drop (max 1 (capacity / 2) - length systems) (m ∷ rest) ++ msg ∷ [])
add_keeps_system msg capacity systems m rest all other full few =
    let ms = systems ++ m ∷ rest in
    let count = leading_system-append systems m rest all other in
    let cut = cut_of-max capacity in
    let kept = drop (max 1 (capacity / 2) - length systems) (m ∷ rest) in
    let evicted : evict capacity ms ≡ systems ++ kept =
      evict-few capacity ms (omega (arith, count, cut))
      ∙ ap (λ k. take k ms ++ drop (cut_of capacity) ms) count
      ∙ ap (λ k. take (length systems) ms ++ drop k ms) cut
      ∙ ap (λ xs. xs ++ drop (max 1 (capacity / 2)) ms) (take-length_append systems (m ∷ rest))
      ∙ ap (λ xs. systems ++ xs)
          (drop-length_append (max 1 (capacity / 2)) systems (m ∷ rest) (omega arith)) in
    add-full msg (record { messages = ms; capacity = capacity }) full
    ∙ ap (λ xs. xs ++ msg ∷ []) evicted
    ∙ append_assoc systems kept (msg ∷ [])

-- A full buffer whose leading run of system messages reaches the cut drops the messages before the
-- cut, and each of these is a system message.
pub add_drops_system :
    (msg : Message) (m : BufferMemory)
    → m.capacity ≤ length m.messages
    → cut_of m.capacity ≤ leading_system m.messages
    → (AreSystem (take (cut_of m.capacity) m.messages))
      × (snapshot (add msg m) ≡ drop (cut_of m.capacity) m.messages ++ msg ∷ [])
add_drops_system msg m full many = (
  take-leading_system (cut_of m.capacity) m.messages many,
  add-full msg m full ∙ ap (λ ms. ms ++ msg ∷ []) (evict-many m.capacity m.messages many),
)

abbrev pub add_all : List Message → BufferMemory → BufferMemory
add_all [] m = m
add_all (msg ∷ msgs) m = add_all msgs (add msg m)

-- However many messages are added to a buffer that is within its positive capacity, it stays within it.
pub add_all-IsBounded :
    (msgs : List Message) (m : BufferMemory) → IsBounded m → IsBounded (add_all msgs m)
add_all-IsBounded [] m v = v
add_all-IsBounded (msg ∷ msgs) m v = add_all-IsBounded msgs (add msg m) (add-IsBounded msg m v)
