-- ===== src/Tests/Interactions.antt =====
-- A request with one question, and answers to it.
use tracklogic_agent.Common.{
  ◌≡◌, ◌≢◌, ◌↔◌, refl, codes, [], ◌∷◌, none, true, false, trim_space, arith,
}
use tracklogic_agent.Interaction.{
  Choice, Question, Request, Response, validate, validate_against, check_options, check_question,
  check_questions, member,
}
use tracklogic_agent.Interaction.Checks.{IsRequest, validate-IsRequest}
use tracklogic_agent.Interaction.Answers.{Accepts, validate_against-Accepts, padded_labels_refused}

abbrev padded : Choice
padded = record { label = codes " soft "; description = []; recommended = false }

abbrev pub tyre : Question
tyre = record {
  id = codes "tyre";
  header = [];
  prompt = codes "Which tyre?";
  options = padded ∷ [];
  allow_text = false;
  required = true;
}

abbrev pub pit_stop : Request
pit_stop = record { id = codes "stop"; title = []; questions = tyre ∷ [] }

abbrev pub chosen : Response
chosen = record {
  request_id = codes "stop";
  answers = (codes "tyre", codes "soft" ∷ []) ∷ [];
  answered_at = 0;
}

valid : validate pit_stop ≡ none
unfolding validate check_questions check_question check_options trim_space member
valid = refl

validate-IsRequest_example : (validate pit_stop ≡ none) ↔ IsRequest pit_stop
validate-IsRequest_example = validate-IsRequest pit_stop

validate_against-Accepts_example :
    (validate_against chosen pit_stop ≡ none) ↔ Accepts pit_stop chosen
validate_against-Accepts_example = validate_against-Accepts chosen pit_stop

padded_label : trim_space (codes " soft ") ≢ codes " soft "
unfolding trim_space
padded_label e = ground arith

padded_labels_refused_example : validate_against chosen pit_stop ≢ none
padded_labels_refused_example =
    padded_labels_refused pit_stop [] tyre [] chosen refl refl refl (padded_label, tt)
