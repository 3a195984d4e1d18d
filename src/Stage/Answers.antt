-- ===== src/Stage/Answers.antt =====
-- receiver.cpp, stage_handler.cpp and sender.cpp together: the bytes that come to a stage, through its
-- threads, to the bytes that its workers send.
use seda_framework.Base.{ℕ, Option, some, List, [], ◌∷◌, ◌++◌}
use seda_framework.Base.Memory.{◌>>=◌}
use seda_framework.Base.Dictionary.{Text}
use seda_framework.Stage.{Element, handler_func}
use seda_framework.Stage.Calm.{Calm}
use seda_framework.Stage.Pipeline.{answers}

-- What handlerFunc hands to zmq_send, one element after the other, for the elements that workers read.
unfoldable pub sends : (Text → Option Text) → List (Option Element) → Option (List (List ℕ))
unfolding handler_func
sends f [] = some []
sends f (o ∷ os) = o >>= λ e. handler_func f e >>= λ out. sends f os >>= λ outs. some (out ++ outs)

-- The answers of a handler to texts.
abbrev pub all_answers : (Text → Option Text) → List Text → List Text
all_answers f [] = []
all_answers f (text ∷ texts) = answers (f ∷ []) text ++ all_answers f texts
