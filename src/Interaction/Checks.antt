-- ===== src/Interaction/Checks.antt =====
-- interaction/types.go: what a request that passes Validate satisfies, and that nothing else is
-- asked of it; and which answers ValidateAgainst lets through.
use tracklogic_agent.Common.{
  ℕ, ◌+◌, ◌≤◌, ◌<◌, ◌≡◌, ◌≢◌, ◌↔◌, refl, ◌⊎◌, Bool, true, false, Text, text_eq_iff, trim_space,
  is_empty, List, [], ◌∷◌, length, Option, none, some, All, arith,
}
use tracklogic_agent.Types.{InteractionError}
use tracklogic_agent.Interaction.{
  Choice, Question, Request, member, fail_if, ◌and_then◌, check_options, check_question,
  check_questions, validate, question_ids,
}

abbrev pub IsBlank : Text → Type 0
IsBlank t = trim_space t ≡ []

abbrev pub Avoids : List Text → Text → Type 0
Avoids seen t = All (λ s. s ≢ t) seen

abbrev pub Distinct : List Text → Type 0
Distinct [] = Unit
Distinct (t ∷ ts) = All (λ s. t ≢ s) ts × Distinct ts

abbrev pub trimmed_labels : List Choice → List Text
trimmed_labels [] = []
trimmed_labels (o ∷ os) = trim_space o.label ∷ trimmed_labels os

-- A well-formed question: a prompt, at most three options, at least one way to answer, and labels
-- that are not blank and differ once trimmed.
pub record IsQuestion (q : Question) : Type 0 where
  pub prompted : ¬ IsBlank q.prompt
  pub few : length q.options ≤ 3
  pub answerable : (0 < length q.options) ⊎ (q.allow_text ≡ true)
  pub labelled : All (λ t. t ≢ []) (trimmed_labels q.options)
  pub distinct : Distinct (trimmed_labels q.options)

pub record IsRequest (r : Request) : Type 0 where
  pub named : ¬ IsBlank r.id
  pub some_questions : 0 < length r.questions
  pub few_questions : length r.questions ≤ 3
  pub identified : All (λ (q : Question). ¬ IsBlank q.id) r.questions
  pub distinct : Distinct (question_ids r.questions)
  pub formed : All IsQuestion r.questions

pub member-Avoids : (t : Text) (seen : List Text) → (member t seen ≡ false) ↔ Avoids seen t
unfolding member
member-Avoids t [] = (λ h. tt, λ h. refl)
member-Avoids t (s ∷ ss) = (
  λ h. ground (arith, text_eq_iff s t, (member-Avoids t ss).0),
  λ h. ground (arith, text_eq_iff s t, (member-Avoids t ss).1),
)

pub is_empty-nil : (t : Text) → (is_empty t ≡ false) ↔ (t ≢ [])
is_empty-nil [] = (λ h. cc, λ h. absurd (h refl))
is_empty-nil (c ∷ t) = (λ h e. cc, λ h. refl)

-- Checks in a row pass when each test is false and what follows passes.
pub two_checks :
    (a b : Bool) (e f : InteractionError) (rest : Option InteractionError)
    → ((fail_if a e and_then fail_if b f and_then rest) ≡ none)
      ↔ ((a ≡ false) × (b ≡ false) × (rest ≡ none))
two_checks true b e f rest = (λ h. cc, λ h. cc h.0)
two_checks false true e f rest = (λ h. cc, λ h. cc h.1)
two_checks false false e f rest = (λ h. (refl, refl, h), λ h. h.2)

pub All-× {ℓ} :
    {A : Type ℓ} (P Q : A → Type 0) (xs : List A) → All (λ x. P x × Q x) xs ↔ (All P xs × All Q xs)
All-× P Q [] = (λ h. (tt, tt), λ h. tt)
All-× P Q (x ∷ xs) = (
  λ h. let r = (All-× P Q xs).0 h.1 in ((h.0.0, r.0), (h.0.1, r.1)),
  λ h. ((h.0.0, h.1.0), (All-× P Q xs).1 (h.0.1, h.1.1)),
)

abbrev GoodLabels : List Text → List Choice → Type 0
GoodLabels seen os =
    All (λ t. t ≢ []) (trimmed_labels os)
    × Distinct (trimmed_labels os)
    × All (Avoids seen) (trimmed_labels os)

check_options-none :
    (id : Text) (seen : List Text) (os : List Choice)
    → (check_options id seen os ≡ none) ↔ GoodLabels seen os
unfolding check_options
check_options-none id seen [] = (λ h. (tt, tt, tt), λ h. refl)
check_options-none id seen (o ∷ os) =
    let t = trim_space o.label in
    let step = two_checks (is_empty t) (member t seen) _ _ (check_options id (t ∷ seen) os) in
    let ih = check_options-none id (t ∷ seen) os in
    let both = All-× (λ u. t ≢ u) (Avoids seen) (trimmed_labels os) in
    (
      λ h.
          let (full, new, rest) = step.0 h in
          let (n, d, v) = ih.0 rest in
          let (apart, old) = both.0 v in
          (((is_empty-nil t).0 full, n), (apart, d), ((member-Avoids t seen).0 new, old)),
      λ h. step.1 (
        (is_empty-nil t).1 h.0.0,
        (member-Avoids t seen).1 h.2.0,
        ih.1 (h.0.1, h.1.1, both.1 (h.1.0, h.2.1)),
      ),
    )

three_checks :
    (a b c : Bool) (e f g : InteractionError) (rest : Option InteractionError)
    → ((fail_if a e and_then fail_if b f and_then fail_if c g and_then rest) ≡ none)
      ↔ ((a ≡ false) × (b ≡ false) × (c ≡ false) × (rest ≡ none))
three_checks true b c e f g rest = (λ h. cc, λ h. cc h.0)
three_checks false true c e f g rest = (λ h. cc, λ h. cc h.1)
three_checks false false true e f g rest = (λ h. cc, λ h. cc h.2)
three_checks false false false e f g rest = (λ h. (refl, refl, refl, h), λ h. h.3)

pub all_Avoids-nil : (ts : List Text) → All (Avoids []) ts
all_Avoids-nil [] = tt
all_Avoids-nil (t ∷ ts) = (tt, all_Avoids-nil ts)

check_question-none : (q : Question) → (check_question q ≡ none) ↔ IsQuestion q
unfolding check_question
check_question-none q =
    let prompt = is_empty-nil (trim_space q.prompt) in
    let labels = check_options-none q.id [] q.options in
    let step = three_checks _ _ _ _ _ _ (check_options q.id [] q.options) in
    (
      λ h.
          let (a, b, c, rest) = step.0 h in
          let (n, d, v) = labels.0 rest in
          record {
            prompted = prompt.0 a;
            few = ground arith;
            answerable = ground arith;
            labelled = n;
            distinct = d;
          },
      λ (v : IsQuestion q). step.1 (
        prompt.1 v.prompted,
        ground (arith, v.few),
        ground (arith, v.answerable),
        labels.1 (v.labelled, v.distinct, all_Avoids-nil (trimmed_labels q.options)),
      ),
    )

abbrev GoodQuestions : List Text → List Question → Type 0
GoodQuestions seen qs =
    All (λ (q : Question). ¬ IsBlank q.id) qs
    × Distinct (question_ids qs)
    × All (Avoids seen) (question_ids qs)
    × All IsQuestion qs

checks_then_question :
    (a b : Bool) (e f : InteractionError) (c rest : Option InteractionError)
    → ((fail_if a e and_then fail_if b f and_then c and_then rest) ≡ none)
      ↔ ((a ≡ false) × (b ≡ false) × (c ≡ none) × (rest ≡ none))
checks_then_question true b e f c rest = (λ h. cc, λ h. cc h.0)
checks_then_question false true e f c rest = (λ h. cc, λ h. cc h.1)
checks_then_question false false e f none rest = (λ h. (refl, refl, refl, h), λ h. h.3)
checks_then_question false false e f (some x) rest = (λ h. cc, λ h. cc h.2)

check_questions-none :
    (index : ℕ) (seen : List Text) (qs : List Question)
    → (check_questions index seen qs ≡ none) ↔ GoodQuestions seen qs
unfolding check_questions
check_questions-none index seen [] = (λ h. (tt, tt, tt, tt), λ h. refl)
check_questions-none index seen (q ∷ qs) =
    let step =
      checks_then_question (is_empty (trim_space q.id)) (member q.id seen) _ _ (check_question q)
        (check_questions (index + 1) (q.id ∷ seen) qs) in
    let ih = check_questions-none (index + 1) (q.id ∷ seen) qs in
    let both = All-× (λ u. q.id ≢ u) (Avoids seen) (question_ids qs) in
    (
      λ h.
          let (full, new, formed, rest) = step.0 h in
          let (n, d, v, f) = ih.0 rest in
          let (apart, old) = both.0 v in
          (
            ((is_empty-nil (trim_space q.id)).0 full, n),
            (apart, d),
            ((member-Avoids q.id seen).0 new, old),
            ((check_question-none q).0 formed, f),
          ),
      λ h. step.1 (
        (is_empty-nil (trim_space q.id)).1 h.0.0,
        (member-Avoids q.id seen).1 h.2.0,
        (check_question-none q).1 h.3.0,
        ih.1 (h.0.1, h.1.1, both.1 (h.1.0, h.2.1), h.3.1),
      ),
    )

-- A request passes Validate exactly when it is well formed: a name that is not blank, one to three
-- questions with different identifiers that are not blank, and each question well formed.
pub validate-IsRequest : (r : Request) → (validate r ≡ none) ↔ IsRequest r
unfolding validate
validate-IsRequest r =
    let name = is_empty-nil (trim_space r.id) in
    let questions = check_questions-none 0 [] r.questions in
    let step = two_checks _ _ _ _ (check_questions 0 [] r.questions) in
    (
      λ h.
          let (a, b, rest) = step.0 h in
          let (n, d, v, f) = questions.0 rest in
          record {
            named = name.0 a;
            some_questions = ground arith;
            few_questions = ground arith;
            identified = n;
            distinct = d;
            formed = f;
          },
      λ (v : IsRequest r). step.1 (
        name.1 v.named,
        ground (arith, v.some_questions, v.few_questions),
        questions.1 (v.identified, v.distinct, all_Avoids-nil (question_ids r.questions), v.formed),
      ),
    )
