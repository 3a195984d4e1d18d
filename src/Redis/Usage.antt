-- ===== src/Redis/Usage.antt =====
-- redis_client.cpp: a client from its creation to its deletion.
use seda_framework.Base.{
  ℕ, ◌+◌, ◌≡◌, refl, ap, ◌∙◌, Bool, false, Option, none, some, List, [], ◌∷◌, arith,
}
use seda_framework.Base.Memory.{◌>>=◌}
use seda_framework.Redis.{
  Connected, no_memory, with_error, without_error, held, freed, new_client, reply_lost, connect,
  command, destroy, commands,
}

-- A client that connects once, sends commands and is deleted.
unfoldable pub lifetime : Connected → List Bool → Option ℕ
unfolding connect command destroy
lifetime connected replies = commands replies (connect connected new_client).0 >>= destroy

-- The replies but the one to the last command.
abbrev pub earlier_replies : List Bool → ℕ
earlier_replies [] = 0
earlier_replies (replies ∷ []) = 0
earlier_replies (replies ∷ next ∷ rest) = reply_lost replies + earlier_replies (next ∷ rest)

-- With a context, each reply is lost when the next command is sent.
commands-destroy :
    (replies : List Bool) (first : Bool) (lost : ℕ)
    → (commands replies (record { c = held; reply = first; lost = lost }) >>= destroy)
      ≡ some (lost + earlier_replies (first ∷ replies))
unfolding command destroy
commands-destroy [] first lost = ap some (omega arith)
commands-destroy (r ∷ replies) first lost =
    commands-destroy replies r (lost + reply_lost first) ∙ ap some (omega arith)

without_context : (replies : List Bool) → (commands replies new_client >>= destroy) ≡ some 0
unfolding command destroy
without_context [] = refl
without_context (r ∷ replies) = without_context replies

first_reply : (replies : List Bool) → earlier_replies (false ∷ replies) ≡ earlier_replies replies
first_reply [] = refl
first_reply (r ∷ replies) = omega arith

dangling :
    (replies : List Bool) (lost : ℕ)
    → (commands replies (record { c = freed; reply = false; lost = lost }) >>= destroy) ≡ none
unfolding command destroy
dangling [] lost = refl
dangling (r ∷ replies) lost = refl

-- A client connects, sends any commands and is deleted. Where redisConnect gave a context with an error
-- this is undefined, since the context is used or freed again; where it gave NULL nothing is lost; and
-- where the client is connected every reply but the one to the last command is lost.
pub lifetime_lem :
    (connected : Connected) (replies : List Bool)
    → lifetime connected replies ≡ elim connected [
      | no_memory ↦ some 0
      | with_error ↦ none
      | without_error ↦ some (earlier_replies replies)
    ]
unfolding lifetime connect
lifetime_lem no_memory replies = without_context replies
lifetime_lem with_error replies = dangling replies 0
lifetime_lem without_error replies =
    commands-destroy replies false 0 ∙ ap some (omega (arith, first_reply replies))
