-- ===== src/Types/EndOrError.antt =====
-- `EndOrError` (dk_pull/types/end_or_error.h and .cc): what ends a stream, or that it goes on.
use dk_pull.Base.{Bool, true, false, ◌||◌, String}

pub record EndOrError : Type 0 where
  pub is_end : Bool
  pub is_error : Bool
  pub error_message : String

-- `EndOrError(bool)`
abbrev pub of_bool : Bool → EndOrError
of_bool end = record { is_end = end; is_error = false; error_message = "" }

-- `EndOrError(const char*)`
abbrev pub of_message : String → EndOrError
of_message message = record { is_end = false; is_error = true; error_message = message }

-- `EndOrError::IsEnd`, `IsError` and `GetErrorMessage`
abbrev pub says_end : EndOrError → Bool
says_end e = e.is_end

abbrev pub says_error : EndOrError → Bool
says_error e = e.is_error

abbrev pub get_error_message : EndOrError → String
get_error_message e = e.error_message

-- `operator bool`
abbrev pub to_bool : EndOrError → Bool
to_bool e = e.is_end || e.is_error

-- `EndOrError::TRUE`
abbrev pub ended : EndOrError
ended = of_bool true

-- `EndOrError::FALSE`
abbrev pub going : EndOrError
going = of_bool false

abbrev pub Done : Type 0
Done = EndOrError

abbrev pub Abort : Type 0
Abort = EndOrError
