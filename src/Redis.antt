-- ===== src/Redis.antt =====
-- redis_client.h and redis_client.cpp: the client of the hiredis library, and the memory that it holds.
-- Its functions are what they are documented to be: redisConnect gives NULL or a context, which may hold
-- an error, redisCommand gives a reply or NULL, and redisFree and freeReplyObject free what they are
-- given, or nothing for NULL.
use seda_framework.Base.{ℕ, ◌+◌, Bool, true, false, Option, none, some, List, [], ◌∷◌}
use seda_framework.Base.Memory.{◌>>=◌}
pub mod Usage
mod Tests

-- What redisConnect gives.
pub data Connected : Type 0 where
  no_memory with_error without_error : Connected

-- The member `c`, as a pointer: NULL, to a context, or to one that is freed.
pub data Context : Type 0 where
  null held freed : Context

-- A client. `reply` says whether its member `ptr`, which sedaObject declares, points to a reply, and
-- `lost` counts the contexts and replies to which no member points any more.
pub record RedisClient : Type 0 where
  pub c : Context
  pub reply : Bool
  pub lost : ℕ

-- new redisClient(), which sets the members to zero as the class has no constructor of its own
abbrev pub new_client : RedisClient
new_client = record { c = null; reply = false; lost = 0 }

-- What is lost when a member is written.
abbrev pub context_lost : Context → ℕ
context_lost null = 0
context_lost held = 1
context_lost freed = 0

abbrev pub reply_lost : Bool → ℕ
reply_lost true = 1
reply_lost false = 0

-- redisClient::connect, with what it returns
unfoldable pub connect : Connected → RedisClient → RedisClient × Bool
connect no_memory client =
    (record client { c = null; lost = client.lost + context_lost client.c }, false)
connect with_error client =
    (record client { c = freed; lost = client.lost + context_lost client.c }, false)
connect without_error client =
    (record client { c = held; lost = client.lost + context_lost client.c }, true)

-- redisClient::command, with whether it returns a reply, by whether redisCommand gives one; `none` is a
-- use of a context that is freed.
unfoldable pub command : Bool → RedisClient → Option (RedisClient × Bool)
command replies client = elim client.c [
  | null ↦ some (client, false)
  | held ↦
      some
        (record client { reply = replies; lost = client.lost + reply_lost client.reply }, replies)
  | freed ↦ none
]

-- redisClient::~redisClient: what is lost for good; `none` is a context freed twice.
unfoldable pub destroy : RedisClient → Option ℕ
destroy client = elim client.c [ null ↦ some client.lost | held ↦ some client.lost | freed ↦ none ]

-- Commands in a row, by whether each gets a reply.
abbrev pub commands : List Bool → RedisClient → Option RedisClient
commands [] client = some client
commands (replies ∷ rest) client = command replies client >>= λ r. commands rest r.0
