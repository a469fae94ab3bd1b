-- ===== src/Interaction.antt =====
-- interaction/types.go: structured questions to the user, and the checks of a request and of the
-- response to it. The answers are a map from question identifiers; its order is that of Go's
-- iteration, whichever it is.
pub mod Checks
pub mod Answers
use tracklogic_agent.Common.{
  ℕ, zero, suc, ◌+◌, Bool, true, false, ◌&&◌, ◌||◌, not, Text, text_eq, trim_space, is_empty, List,
  [], ◌∷◌, length, Option, none, some, is_some, if◌then◌else◌, ltb, ◌==◌, Dict, lookup,
}
use tracklogic_agent.Types.{
  InteractionError, request_id_required, question_count, wrong_request, question_id_required,
  duplicate_question, prompt_required, too_many_options, needs_input, empty_option,
  duplicate_option, unknown_question, answer_required, empty_answer, not_an_option,
}

pub record Choice : Type 0 where  -- Option
  pub label : Text
  pub description : Text
  pub recommended : Bool

pub record Question : Type 0 where
  pub id : Text
  pub header : Text
  pub prompt : Text
  pub options : List Choice
  pub allow_text : Bool
  pub required : Bool

pub record Request : Type 0 where
  pub id : Text
  pub title : Text
  pub questions : List Question

pub record Response : Type 0 where
  pub request_id : Text
  pub answers : Dict (List Text)
  pub answered_at : ℕ

-- The test of a set of texts.
unfoldable pub member : Text → List Text → Bool
member t [] = false
member t (s ∷ ss) = text_eq s t || member t ss

infixl 5 ◌and_then◌
abbrev pub ◌and_then◌ : Option InteractionError → Option InteractionError → Option InteractionError
none and_then next = next
some e and_then next = some e

-- `if test { return e }`
abbrev pub fail_if : Bool → InteractionError → Option InteractionError
fail_if true e = some e
fail_if false e = none

-- The loop over the options of one question; `labels` are those seen.
unfoldable pub check_options : Text → List Text → List Choice → Option InteractionError
check_options id labels [] = none
check_options id labels (o ∷ os) =
    let label = trim_space o.label in
    fail_if (is_empty label) (empty_option id)
    and_then fail_if (member label labels) (duplicate_option id label)
    and_then check_options id (label ∷ labels) os

-- The body of the loop over the questions, after the checks of the identifier.
unfoldable pub check_question : Question → Option InteractionError
unfolding check_options
check_question q =
    fail_if (is_empty (trim_space q.prompt)) (prompt_required q.id)
    and_then fail_if (ltb 3 (length q.options)) (too_many_options q.id)
    and_then fail_if (length q.options == 0 && not q.allow_text) (needs_input q.id)
    and_then check_options q.id [] q.options

unfoldable pub check_questions : ℕ → List Text → List Question → Option InteractionError
unfolding check_question
check_questions index seen [] = none
check_questions index seen (q ∷ qs) =
    fail_if (is_empty (trim_space q.id)) (question_id_required index)
    and_then fail_if (member q.id seen) (duplicate_question q.id)
    and_then check_question q
    and_then check_questions (index + 1) (q.id ∷ seen) qs

-- Request.Validate
unfoldable pub validate : Request → Option InteractionError
unfolding check_questions
validate r =
    fail_if (is_empty (trim_space r.id)) request_id_required
    and_then fail_if (length r.questions == 0 || ltb 3 (length r.questions)) question_count
    and_then check_questions 0 [] r.questions

abbrev pub question_ids : List Question → List Text
question_ids [] = []
question_ids (q ∷ qs) = q.id ∷ question_ids qs

abbrev pub labels_of : List Choice → List Text
labels_of [] = []
labels_of (o ∷ os) = o.label ∷ labels_of os

unfoldable pub check_known : List Text → Dict (List Text) → Option InteractionError
check_known ids [] = none
check_known ids ((id, _) ∷ m) =
    fail_if (not (member id ids)) (unknown_question id) and_then check_known ids m

unfoldable pub check_answers : Question → List Text → Option InteractionError
check_answers q [] = none
check_answers q (answer ∷ rest) =
    let trimmed = trim_space answer in
    fail_if (is_empty trimmed) (empty_answer q.id)
    and_then fail_if (not (member trimmed (labels_of q.options)) && not q.allow_text)
        (not_an_option q.id trimmed)
    and_then check_answers q rest

-- r.Answers[id]: a missing key gives no answers.
abbrev pub answers_to : Text → Dict (List Text) → List Text
answers_to id m = elim (lookup id m) [ none ↦ [] | some answers ↦ answers ]

unfoldable pub check_answered : Dict (List Text) → List Question → Option InteractionError
unfolding check_answers
check_answered m [] = none
check_answered m (q ∷ qs) =
    fail_if (q.required && length (answers_to q.id m) == 0) (answer_required q.id)
    and_then check_answers q (answers_to q.id m)
    and_then check_answered m qs

-- Response.ValidateAgainst
unfoldable pub validate_against : Response → Request → Option InteractionError
unfolding check_known check_answered
validate_against r request =
    fail_if (not (text_eq r.request_id request.id)) wrong_request
    and_then check_known (question_ids request.questions) r.answers
    and_then check_answered r.answers request.questions
