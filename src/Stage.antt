-- ===== src/Stage.antt =====
-- One stage: IElement.h, receiver.cpp, stage_handler.cpp and sender.cpp. ZeroMQ is a network library:
-- the messages that `zmq_recv` takes are given, and the ones that `zmq_send` is handed are the result.
-- As documented, `zmq_recv` copies what fits of a message and returns the size of the whole.
use seda_framework.Base.{
  ℕ, zero, suc, ◌+◌, ◌-◌, Bool, true, false, ◌&&◌, not, Option, some, none, List, [], ◌∷◌, ◌++◌,
  length, take, drop, replicate, ltb, leb, ◌==◌, if◌then◌else◌,
}
use seda_framework.Base.Memory.{◌>>=◌, memcpy, c_string}
use seda_framework.Base.Dictionary.{Text}
pub mod Transport
pub mod Threads
pub mod Fetching
pub mod Handling
pub mod Calm
pub mod Init
pub mod Pipeline
pub mod Launch
pub mod Startup
pub mod Answers
pub mod Objects
mod Tests

-- class IElement; `_len` of the default constructor is not set.
pub record Element : Type 0 where
  pub element : List ℕ
  pub len : Option ℕ

-- The bytes before the first zero byte, of the first `n`.
unfoldable pub before_zero : ℕ → List ℕ → Option (List ℕ)
before_zero zero src = some []
before_zero (suc n) [] = none
before_zero (suc n) (c ∷ src) =
    if c == 0 then some [] else before_zero n src >>= λ cs. some (c ∷ cs)

-- strncpy, which fills up with zero bytes to `n`
unfoldable pub strncpy : List ℕ → List ℕ → ℕ → Option (List ℕ)
unfolding before_zero memcpy
strncpy block src n = do cs ← before_zero n src; memcpy block 0 (cs ++ replicate (n - length cs) 0)

-- IElement::IElement, without arguments and with two
abbrev pub empty_element : Element
empty_element = record { element = replicate 256 0; len = none }

unfoldable pub new_element : List ℕ → ℕ → Option Element
unfolding strncpy
new_element ele n = do
  element ← strncpy (replicate 256 0) ele n
  some (record { element = element; len = some n })

-- A round of receiver::run on one message, to the element that it queues.
unfoldable pub receive : List ℕ → Option Element
unfolding memcpy new_element
receive msg = do
  let nrecv = length msg
  filled ← memcpy (replicate 256 0) 0 (take 256 msg)
  let n = if leb 256 nrecv then 255 else nrecv
  buf ← memcpy filled 255 (0 ∷ [])
  new_element buf (n + 1)

-- The part of that round under the lock: the queue, and whether `empty_queue` is signalled.
unfoldable pub enqueue {ℓ} : {E : Type ℓ} → E → List E → List E × Bool
enqueue e [] = (e ∷ [], true)
enqueue e (x ∷ elements) = (x ∷ elements ++ e ∷ [], false)

-- sender::sendMsg: the message that zmq_send is handed, and the result, given what zmq_send returned
-- and whether zmq_errno is EAGAIN then.
unfoldable pub send_msg : Element → Bool → Bool → Option (List ℕ) × Bool
send_msg e ret_zero again =
    (elim e.len [ none ↦ none | some n ↦ some (take n e.element) ], not (not ret_zero && again))

-- stage_handler::handlerFunc on the element that it finds: the handler is given its text, and what it
-- returns, unless that is NULL, is handed to zmq_send.
unfoldable pub handler_func : (Text → Option Text) → Element → Option (List (List ℕ))
unfolding c_string new_element
handler_func f e = do
  text ← c_string e.element
  elim (f text) [
    | none ↦ some []
    | some res_msg ↦ new_element (res_msg ++ 0 ∷ []) (length res_msg) >>= λ ie.
        some (take (length res_msg) ie.element ∷ [])
  ]
