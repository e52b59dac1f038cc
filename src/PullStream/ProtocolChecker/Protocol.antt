-- ===== src/PullStream/ProtocolChecker/Protocol.antt =====
-- The pull-stream protocol on its own, with no word of the checker's members: what a client may ask
-- and what a source may answer, over a history of requests and answers in any interleaving.
use dk_pull.Base.{
  ℕ, suc, Bool, true, false, not, ◌&&◌, ◌||◌, List, [], ◌∷◌, ◌++◌, ◌==◌, length, get_or,
  if◌then◌else◌,
}
use dk_pull.Types.EndOrError.{Abort, Done, to_bool}

-- A request, with whether it has a callback, or an answer: a call of the callback that was given
-- with the request of that number, from 0.
pub data Event : Type 0 where
  request : Abort → Bool → Event
  answer : ℕ → Done → Event

pub record History : Type 0 where
  pub aborted : Bool  -- some request was an abort
  pub ended : Bool  -- some answer was an end
  pub callbacks : List Bool  -- for each request, whether it had a callback
  pub answered : ℕ  -- how many answers there were

abbrev pub at_first : History
at_first = record { aborted = false; ended = false; callbacks = []; answered = 0 }

abbrev pub is_over : History → Bool
is_over h = h.aborted || h.ended

-- Is there a callback for the request of this number?
abbrev pub has_callback : History → ℕ → Bool
has_callback h k = get_or h.callbacks k false

-- After the stream is over there are no more requests for values, and no more aborts either if
-- extra requests are forbidden. Answers come in the order of the requests, one for each, and none
-- brings a value after the stream is over. There is no answer to a request that has no callback.
abbrev pub allows : Bool → History → Event → Bool
allows forbid h (request abort callback) = not (is_over h) || to_bool abort && not forbid
allows forbid h (answer k done) =
    if has_callback h k then (to_bool done || not (is_over h)) && k == h.answered else true

abbrev pub after : History → Event → History
after h (request abort callback) = record h {
  aborted = h.aborted || to_bool abort;
  callbacks = h.callbacks ++ callback ∷ [];
}
after h (answer k done) =
    if has_callback h k
    then record h { ended = h.ended || to_bool done; answered = suc h.answered }
    else h

-- Each request has been answered, and, if it is asked for, the stream is over.
abbrev pub is_complete : Bool → History → Bool
is_complete enforce h = h.answered == length h.callbacks && (not enforce || is_over h)

unfoldable pub keeps : Bool → Bool → History → List Event → Bool
keeps forbid enforce h [] = is_complete enforce h
keeps forbid enforce h (e ∷ es) = allows forbid h e && keeps forbid enforce (after h e) es
