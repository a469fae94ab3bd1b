-- ===== src/Types.antt =====
-- types/message.go and types/errors.go: the protocol values that the layers share, and Go's error
-- values as far as the program inspects them. Times are nanoseconds since an epoch; the raw JSON
-- items of a message are their texts.
use tracklogic_agent.Common.{ℕ, Bool, true, false, Text, List}

pub data Role : Type 0 where
  system user assistant tool : Role

pub Role-discrete : Discrete Role
Role-discrete = hlevel

pub record ToolCallFunction : Type 0 where
  pub name : Text
  pub arguments : Text

pub record ToolCall : Type 0 where
  pub id : Text
  pub kind : Text  -- Type
  pub function : ToolCallFunction

pub record Message : Type 0 where
  pub role : Role
  pub content : Text
  pub reasoning : Text
  pub reasoning_state : List Text
  pub tool_call_id : Text
  pub tool_calls : List ToolCall
  pub name : Text
  pub created_at : ℕ

pub record Usage : Type 0 where
  pub prompt_tokens : ℕ
  pub completion_tokens : ℕ
  pub reasoning_tokens : ℕ
  pub total_tokens : ℕ

pub data ErrorCode : Type 0 where
  model_timeout tool_error invalid_input invalid_config api_error rate_limit run_cancelled :
      ErrorCode
  security_violation max_loops_exceeded circuit_open event_delivery turn_not_found : ErrorCode
  interaction_not_found run_interrupted summary_failed : ErrorCode

-- model.HTTPError: the response of an upstream API that was no success.
pub record HttpError : Type 0 where
  pub status_code : ℕ
  pub retry_after : Text

-- Which check of interaction/types.go fails; an error is named by the check, and its text left out.
pub data InteractionError : Type 0 where
  request_id_required question_count wrong_request : InteractionError
  question_id_required : ℕ → InteractionError
  duplicate_question prompt_required too_many_options needs_input empty_option :
      Text → InteractionError
  duplicate_option : Text → Text → InteractionError
  unknown_question answer_required empty_answer : Text → InteractionError
  not_an_option : Text → Text → InteractionError

-- An error value is a chain of Unwrap. `network` is a net.Error such as *url.Error; `new_error` and
-- `wrap_error` are the two forms of *HarnessError; `wrapped` is fmt.Errorf with %w.
pub data GoError : Type 0 where
  canceled deadline_exceeded eof unexpected_eof : GoError
  plain : Text → GoError
  http : HttpError → GoError
  invalid_interaction : InteractionError → GoError
  network : GoError → GoError
  new_error : ErrorCode → Text → GoError
  wrap_error : ErrorCode → Text → GoError → GoError
  wrapped : Text → GoError → GoError

-- errors.Is(err, context.Canceled)
unfoldable pub is_canceled : GoError → Bool
is_canceled canceled = true
is_canceled (network e) = is_canceled e
is_canceled (wrap_error c m e) = is_canceled e
is_canceled (wrapped m e) = is_canceled e
is_canceled _ = false

-- errors.Is(err, context.DeadlineExceeded)
unfoldable pub is_deadline : GoError → Bool
is_deadline deadline_exceeded = true
is_deadline (network e) = is_deadline e
is_deadline (wrap_error c m e) = is_deadline e
is_deadline (wrapped m e) = is_deadline e
is_deadline _ = false

-- errors.Is(err, io.EOF) || errors.Is(err, io.ErrUnexpectedEOF)
unfoldable pub is_eof : GoError → Bool
is_eof eof = true
is_eof unexpected_eof = true
is_eof (network e) = is_eof e
is_eof (wrap_error c m e) = is_eof e
is_eof (wrapped m e) = is_eof e
is_eof _ = false

-- errors.As(err, *net.Error): context.DeadlineExceeded is a net.Error too.
unfoldable pub is_network : GoError → Bool
is_network deadline_exceeded = true
is_network (network e) = true
is_network (wrap_error c m e) = is_network e
is_network (wrapped m e) = is_network e
is_network _ = false

-- errors.As(err, **HarnessError)
unfoldable pub is_harness : GoError → Bool
is_harness (new_error c m) = true
is_harness (wrap_error c m e) = true
is_harness (network e) = is_harness e
is_harness (wrapped m e) = is_harness e
is_harness _ = false

-- A Go result with an error.
pub data Result {ℓ} (A : Type ℓ) : Type ℓ where
  ok : A → Result A
  err : GoError → Result A
