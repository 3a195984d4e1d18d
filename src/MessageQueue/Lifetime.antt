-- ===== src/MessageQueue/Lifetime.antt =====
-- message_queue/message_queue_client.cpp, from the constructor to the destructor, in the program of
-- test_mq_client.cpp: its main thread, the thread of mq_client::run that `loop` creates, and the thread
-- of `publish`, which uses the client too and never ends, since its counter stays 0.
use seda_framework.Base.{◌≡◌, Bool, true, false, not, ◌||◌, if◌then◌else◌}

-- Where main stands; `failed` is exit(-1) in handle_error.
pub data MainPc : Type 0 where
  connecting registering looping creating deleting joining returned failed : MainPc

-- A thread: `pid` is set by its creation.
pub data Thread : Type 0 where
  unset running ended : Thread

-- `role` is the second argument, which is not 0 for a subscriber. `used_deleted` says whether a thread
-- has used the client after its deletion, and `joined_unset` whether one was waited for that was never
-- created.
pub record Client : Type 0 where
  pub role : Bool
  pub main : MainPc
  pub alive : Bool
  pub receiver : Thread
  pub publisher : Thread
  pub used_deleted : Bool
  pub joined_unset : Bool

-- mq_client::mq_client
abbrev pub new_mq_client : Bool → Client
new_mq_client role = record {
  role = role;
  main = connecting;
  alive = true;
  receiver = unset;
  publisher = unset;
  used_deleted = false;
  joined_unset = false;
}

abbrev pub goes_on : MainPc → Bool
goes_on returned = false
goes_on failed = false
goes_on _ = true

-- A thread uses the client.
unfoldable pub use_client : Client → Client
use_client s = record s { used_deleted = s.used_deleted || not s.alive }

-- mq_client::loop
unfoldable pub loop : Client → Client
loop s = record s { main = creating; receiver = running }

-- pthread_create of `publish`, unless the role is a subscriber's
unfoldable pub create_publisher : Client → Client
create_publisher s = record s {
  main = deleting;
  publisher = if s.role then s.publisher else running;
}

-- mq_client::~mq_client, once mq_client::wait has joined the thread
unfoldable pub destroy_client : Client → Client
destroy_client s = record s { main = joining; alive = false }

-- `if (role) pthread_join(pid, &retu); return 0;`, where `pid` is set for the other role
unfoldable pub join_publisher : Client → Client
join_publisher s = record s {
  main = returned;
  joined_unset = elim s.publisher [ unset ↦ s.role | running ↦ false | ended ↦ false ];
}

pub data Step (s : Client) : Client → Type 0 where
  connects : s.main ≡ connecting → Step s (record s { main = registering })
  connect_fails : s.main ≡ connecting → Step s (record s { main = failed })
  registers : s.main ≡ registering → Step s (record s { main = looping })
  register_fails : s.main ≡ registering → Step s (record s { main = failed })
  loops : s.main ≡ looping → Step s (loop s)
  creates : s.main ≡ creating → Step s (create_publisher s)
  receives : goes_on s.main ≡ true → s.receiver ≡ running → Step s (use_client s)
  leaves :
      goes_on s.main ≡ true
      → s.receiver ≡ running
      → Step s (record (use_client s) { receiver = ended })
  sends : goes_on s.main ≡ true → s.publisher ≡ running → Step s (use_client s)
  deletes : s.main ≡ deleting → s.receiver ≡ ended → Step s (destroy_client s)
  joins : s.main ≡ joining → Step s (join_publisher s)

pub data Reach (role : Bool) : Client → Type 0 where
  here : Reach role (new_mq_client role)
  next : {s t : Client} → Reach role s → Step s t → Reach role t
