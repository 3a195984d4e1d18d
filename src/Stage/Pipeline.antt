-- ===== src/Stage/Pipeline.antt =====
-- receiver.cpp, stage_handler.cpp and sender.cpp in a row: a message that runs through several stages,
-- each of which subscribes to the one before.
use seda_framework.Base.{
  ℕ, ◌≤◌, ◌≡◌, refl, ap, ◌∙◌, inl, inr, Option, none, some, List, [], ◌∷◌, ◌++◌, length,
  Option-cases,
}
use seda_framework.Base.Memory.{◌>>=◌, c_string, NoZero, shown, shown-text}
use seda_framework.Base.Dictionary.{Text}
use seda_framework.Base.Segments.{take_all}
use seda_framework.Stage.{Element, receive, handler_func}
use seda_framework.Stage.Transport.{receive_lem, handler_func-receive}

-- What the stages with the handlers `fs` make of a message: the messages that the last one sends.
abbrev pub all_messages : (List ℕ → Option (List (List ℕ))) → List (List ℕ) → Option (List (List ℕ))
all_messages f [] = some []
all_messages f (msg ∷ msgs) = f msg >>= λ out. all_messages f msgs >>= λ outs. some (out ++ outs)

unfoldable pub pipeline : List (Text → Option Text) → List ℕ → Option (List (List ℕ))
pipeline [] msg = some (msg ∷ [])
pipeline (f ∷ fs) msg = receive msg >>= λ e. handler_func f e >>= all_messages (λ m. pipeline fs m)

-- The handlers themselves, one after the other, until one returns NULL.
abbrev pub answers : List (Text → Option Text) → Text → List Text
answers [] text = text ∷ []
answers (f ∷ fs) text = elim (f text) [ none ↦ [] | some res_msg ↦ answers fs res_msg ]

-- A text that an element can carry, and a handler that keeps to such texts.
abbrev pub IsShort : Text → Type 0
IsShort text = NoZero text × (length text ≤ 255)

abbrev pub KeepsShort : (Text → Option Text) → Type 0
KeepsShort f = (text res_msg : Text) → IsShort text → f text ≡ some res_msg → IsShort res_msg

pub handler_func-none :
    (f : Text → Option Text) (e : Element) (text : Text)
    → c_string e.element ≡ some text
    → f text ≡ none
    → handler_func f e ≡ some []
unfolding handler_func
handler_func-none f e text at_e nothing = rw (at_e, nothing) refl

-- One stage on one text, by a handler that keeps to such texts.
pub one_answer :
    (f : Text → Option Text) (text : Text)
    → KeepsShort f
    → IsShort text
    → (e : Element) × (receive text ≡ some e) × (handler_func f e ≡ some (answers (f ∷ []) text))
one_answer f text keep short =
    let (e, received, shows, _, _) = receive_lem text in
    let at_e : c_string e.element ≡ some text =
      shows ∙ ap some (ap shown (take_all 255 text short.1) ∙ shown-text text short.0) in
    elim (Option-cases (f text)) [
      | inl nothing ↦ (e, received, handler_func-none f e text at_e nothing ∙ rw nothing refl)
      | inr (res_msg, returned) ↦
          let good = keep text res_msg short returned in
          let (sent, _, _, _) = handler_func-receive f e text res_msg at_e returned good.0 good.1 in
          (e, received, sent ∙ rw returned refl)
    ]
