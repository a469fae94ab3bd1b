-- ===== src/Interaction/Answers.antt =====
-- interaction/types.go: which responses ValidateAgainst accepts, and an option that no answer can
-- choose.
use tracklogic_agent.Common.{
  ℕ, ◌<◌, ◌==◌, ◌≡◌, ◌≢◌, ◌↔◌, refl, ◌⊎◌, Bool, true, false, ◌&&◌, not, Text, text_eq_iff,
  trim_space, trim_space-trim_space, ap, ◌∙◌, sym, subst, inl, inr, List, [], ◌∷◌, ◌++◌, length,
  Option, none, some, All, arith, Dict, keys,
}
use tracklogic_agent.Types.{InteractionError}
use tracklogic_agent.Interaction.{
  Question, Request, Response, member, fail_if, ◌and_then◌, labels_of, question_ids, check_known,
  check_answers, check_answered, answers_to, validate_against,
}
use tracklogic_agent.Interaction.Checks.{is_empty-nil, two_checks}

abbrev pub Among : List Text → Text → Type 0
Among [] t = ⊥
Among (s ∷ ss) t = (s ≡ t) ⊎ Among ss t

pub member-Among : (t : Text) (ss : List Text) → (member t ss ≡ true) ↔ Among ss t
unfolding member
member-Among t [] = (λ h. cc, λ h. absurd h)
member-Among t (s ∷ ss) = (
  λ h. ground (arith, text_eq_iff s t, (member-Among t ss).0),
  λ h. ground (arith, text_eq_iff s t, (member-Among t ss).1),
)

-- An answer to a question: some text, and one of the labels unless free text is allowed.
abbrev pub IsAnswer : Question → Text → Type 0
IsAnswer q answer =
    (trim_space answer ≢ [])
    × ((q.allow_text ≡ true) ⊎ Among (labels_of q.options) (trim_space answer))

abbrev pub IsAnswered : Dict (List Text) → Question → Type 0
IsAnswered m q =
    ((q.required ≡ false) ⊎ (0 < length (answers_to q.id m))) × All (IsAnswer q) (answers_to q.id m)

pub record Accepts (request : Request) (r : Response) : Type 0 where
  pub matched : r.request_id ≡ request.id
  pub known : All (Among (question_ids request.questions)) (keys r.answers)
  pub answered : All (IsAnswered r.answers) request.questions

one_check :
    (a : Bool) (e : InteractionError) (rest : Option InteractionError)
    → ((fail_if a e and_then rest) ≡ none) ↔ ((a ≡ false) × (rest ≡ none))
one_check true e rest = (λ h. cc, λ h. cc h.0)
one_check false e rest = (λ h. (refl, h), λ h. h.1)

check_then :
    (a : Bool) (e : InteractionError) (c rest : Option InteractionError)
    → ((fail_if a e and_then c and_then rest) ≡ none) ↔ ((a ≡ false) × (c ≡ none) × (rest ≡ none))
check_then true e c rest = (λ h. cc, λ h. cc h.0)
check_then false e none rest = (λ h. (refl, refl, h), λ h. h.2)
check_then false e (some x) rest = (λ h. cc, λ h. cc h.1)

check_known-none :
    (ids : List Text) (m : Dict (List Text)) → (check_known ids m ≡ none) ↔ All (Among ids) (keys m)
unfolding check_known
check_known-none ids [] = (λ h. tt, λ h. refl)
check_known-none ids ((id, as') ∷ m) =
    let step = one_check (not (member id ids)) _ (check_known ids m) in
    let ih = check_known-none ids m in
    (
      λ h. let (a, rest) = step.0 h in ((member-Among id ids).0 (ground arith), ih.0 rest),
      λ h. step.1 (ground (arith, (member-Among id ids).1 h.0), ih.1 h.1),
    )

check_answers-none :
    (q : Question) (answers : List Text)
    → (check_answers q answers ≡ none) ↔ All (IsAnswer q) answers
unfolding check_answers
check_answers-none q [] = (λ h. tt, λ h. refl)
check_answers-none q (answer ∷ rest) =
    let t = trim_space answer in
    let step = two_checks _ _ _ _ (check_answers q rest) in
    let ih = check_answers-none q rest in
    let choice = member-Among t (labels_of q.options) in
    (
      λ h.
          let (a, b, more) = step.0 h in
          (((is_empty-nil t).0 a, ground (arith, choice.0)), ih.0 more),
      λ h. step.1 ((is_empty-nil t).1 h.0.0, ground (arith, choice.1, h.0.1), ih.1 h.1),
    )

enough_answers :
    (required : Bool) (n : ℕ) → (required && (n == 0)) ≡ false → (required ≡ false) ⊎ (0 < n)
enough_answers required n h = ground arith

no_answers :
    (required : Bool) (n : ℕ) → (required ≡ false) ⊎ (0 < n) → (required && (n == 0)) ≡ false
no_answers required n h = ground arith

check_answered-none :
    (m : Dict (List Text)) (qs : List Question)
    → (check_answered m qs ≡ none) ↔ All (IsAnswered m) qs
unfolding check_answered
check_answered-none m [] = (λ h. tt, λ h. refl)
check_answered-none m (q ∷ qs) =
    let step = check_then _ _ (check_answers q (answers_to q.id m)) (check_answered m qs) in
    let ih = check_answered-none m qs in
    let each = check_answers-none q (answers_to q.id m) in
    (
      λ h.
          let (a, c, rest) = step.0 h in
          ((enough_answers q.required (length (answers_to q.id m)) a, each.0 c), ih.0 rest),
      λ h.
          step.1 (no_answers q.required (length (answers_to q.id m)) h.0.0, each.1 h.0.1, ih.1 h.1),
    )

-- A response passes ValidateAgainst exactly when it names the request, answers only questions of
-- it, answers every required one, and gives answers that are not blank and, where free text is not
-- allowed, are once trimmed the label of an option.
pub validate_against-Accepts :
    (r : Response) (request : Request) → (validate_against r request ≡ none) ↔ Accepts request r
unfolding validate_against
validate_against-Accepts r request =
    let step =
      check_then _ _ (check_known (question_ids request.questions) r.answers)
        (check_answered r.answers request.questions) in
    let known = check_known-none (question_ids request.questions) r.answers in
    let answered = check_answered-none r.answers request.questions in
    (
      λ h.
          let (a, b, c) = step.0 h in
          record {
            matched = ground (arith, text_eq_iff r.request_id request.id);
            known = known.0 b;
            answered = answered.0 c;
          },
      λ (v : Accepts request r). step.1 (
        ground (arith, text_eq_iff r.request_id request.id, v.matched),
        known.1 v.known,
        answered.1 v.answered,
      ),
    )

All-middle {ℓ κ} :
    {A : Type ℓ} (P : A → Type κ) (before : List A) (x : A) (after : List A)
    → All P (before ++ x ∷ after)
    → P x
All-middle P [] x after h = h.0
All-middle P (y ∷ before) x after h = All-middle P before x after h.1

not-Among-padded :
    (answer : Text) (labels : List Text)
    → All (λ label. trim_space label ≢ label) labels
    → ¬ Among labels (trim_space answer)
not-Among-padded answer [] padded h = h
not-Among-padded answer (label ∷ labels) padded (inl same) =
    padded.0 (ap trim_space same ∙ trim_space-trim_space answer ∙ sym same)
not-Among-padded answer (label ∷ labels) padded (inr later) =
    not-Among-padded answer labels padded.1 later

closed-IsAnswer :
    (q : Question) (answer : Text)
    → q.allow_text ≡ false
    → IsAnswer q answer
    → Among (labels_of q.options) (trim_space answer)
closed-IsAnswer q answer closed (full, inl open') = cc (closed, open')
closed-IsAnswer q answer closed (full, inr own) = own

padded-IsAnswer :
    (q : Question) (answers : List Text)
    → q.allow_text ≡ false
    → All (λ label. trim_space label ≢ label) (labels_of q.options)
    → 0 < length answers
    → ¬ All (IsAnswer q) answers
padded-IsAnswer q [] closed padded some_answer h = absurd (omega arith)
padded-IsAnswer q (answer ∷ answers) closed padded some_answer h =
    not-Among-padded answer (labels_of q.options) padded (closed-IsAnswer q answer closed h.0)

-- Where a required question without free text has only labels with blanks around them, no response to
-- the request is accepted, whatever it answers.
pub padded_labels_refused :
    (request : Request) (before : List Question) (q : Question) (after : List Question)
    (r : Response)
    → request.questions ≡ before ++ q ∷ after
    → q.required ≡ true
    → q.allow_text ≡ false
    → All (λ label. trim_space label ≢ label) (labels_of q.options)
    → validate_against r request ≢ none
padded_labels_refused request before q after r at required closed padded accepted =
    let accepts = (validate_against-Accepts r request).0 accepted in
    let answered : IsAnswered r.answers q =
      All-middle (IsAnswered r.answers) before q after
        (subst (All (IsAnswered r.answers)) at accepts.answered) in
    elim answered.0 [
      | inl optional ↦ cc (required, optional)
      | inr some_answer ↦
          padded-IsAnswer q (answers_to q.id r.answers) closed padded some_answer answered.1
    ]
