-- ===== src/MessageQueue/Tests.antt =====
-- Runs of the message queue's server and client, and the theorems on them.
use seda_framework.Base.{
  ℕ, ◌≡◌, ◌↔◌, refl, true, some, none, List, [], ◌∷◌, replicate, length, All, arith, ◌⊎◌, ◌-◌,
  false, suc, map, ◌+◌, ◌++◌,
}
use seda_framework.Base.Dictionary.{assign, Text, find, insert, get, text_eq}
use seda_framework.Buffer.{buf_size}
use seda_framework.MessageQueue.{check_msg_crc, encode_mq_msg, decode_mq_msg}
use seda_framework.MessageQueue.Client.{send, register_mq, unregister_mq}
use seda_framework.MessageQueue.Server.{
  handle_msg, dispatch, publish, deliver, Server, Conn, read_into, deliver_all, unregister,
  recv_msg, subscribe_by, kept_open, closed,
}
use seda_framework.MessageQueue.Registration.{unregister-eq-none}
use seda_framework.MessageQueue.Interleaving.{
  Running, event_in, starts, round, Reach, here, next, with_conn, IsOwn, Reach-Caches,
  deleted_twice,
}
use seda_framework.MessageQueue.Presence.{Spared, unmoved, goes_on, Spared-Present}
use seda_framework.MessageQueue.Peers.{
  SockaddrIn, accept_peers, IsDotted, first_from, or_else, accept_peers_lem,
}
use seda_framework.MessageQueue.Lifetime as Life
use seda_framework.MessageQueue.Lifetime.{Client, joining, returned, running, ended}
use seda_framework.MessageQueue.Deletion.{Reach-deleted}
use seda_framework.MessageQueue.Rounds.{Caches}
use seda_framework.MessageQueue.Delivery.{copies, writes_for}
use seda_framework.MessageQueue.Exchange.{recv_msg-send, recv_msg-subscriber}

abbrev alice : Text
alice = 65 ∷ 66 ∷ []

abbrev bob : Text
bob = 70 ∷ []

abbrev carol : Text
carol = 71 ∷ []

-- Bob and Carol subscribe to Alice; Bob is connected.
abbrev two_subscribers : Server
two_subscribers = record {
  relations = (alice, bob ∷ carol ∷ []) ∷ [];
  publishers = alice ∷ [];
  fd_addrs = (alice, 4) ∷ (bob, 5) ∷ [];
  cached_msg = (carol, (9 ∷ []) ∷ []) ∷ [];
}

abbrev from_alice : Conn
from_alice = record { fd = 4; addr = alice }

abbrev hello : List ℕ
hello = b'h' ∷ b'i' ∷ []

-- The second of two messages that are read in one go is shorter, and comes out with the rest of the
-- first behind it, its own checksum included.
stale_rest :
    (encode_mq_msg (
        read_into
          (0x1 ∷ b'x' ∷ 121 ∷ [])
          (read_into (0x1 ∷ b'h' ∷ b'i' ∷ b'!' ∷ 243 ∷ []) (replicate buf_size 0)))
      ≡ encode_mq_msg (0x1 ∷ b'x' ∷ 121 ∷ b'!' ∷ 243 ∷ 0 ∷ []))
unfolding encode_mq_msg
stale_rest = refl

-- A `sprintf` that copies its format.
abbrev copying : List ℕ → ℕ → List ℕ
copying f n = f

abbrev from_dave : Conn
from_dave = record { fd = 8; addr = 72 ∷ [] }

unregister-eq-none_example : (unregister from_dave two_subscribers ≡ none) ↔ (
    (find (72 ∷ []) two_subscribers.fd_addrs ≡ none)
    ⊎ (find (72 ∷ []) two_subscribers.relations ≡ none))
unregister-eq-none_example = unregister-eq-none from_dave two_subscribers

-- An `atoi` that reads the first digit.
abbrev first_digit : Text → ℕ
first_digit [] = 0
first_digit (c ∷ cs) = c - 48

recv_msg-send_example :
    (sent : List ℕ) × (t : Server) × (send copying hello ≡ some sent)
    × (recv_msg from_alice (sent ∷ []) false two_subscribers
        ≡ some (
          t,
          writes_for from_alice hello
              (length hello + 2)
              two_subscribers
              (get from_alice.addr [] two_subscribers.relations),
          kept_open,
        ))
    × ((a : Text)
        → get a [] t.cached_msg
          ≡ get a [] two_subscribers.cached_msg ++ elim (find a two_subscribers.fd_addrs) [
            | none ↦ copies hello a (get from_alice.addr [] two_subscribers.relations)
            | some fd ↦ []
          ])
recv_msg-send_example =
    recv_msg-send copying (λ f n p. refl) hello from_alice false two_subscribers (omega arith)
      (omega arith) (omega arith) (omega arith)

recv_msg-subscriber_example :
    (sent sent' : List ℕ) × (register_mq 1 alice ≡ some sent)
    × (unregister_mq 1 alice ≡ some sent')
    × ((s : Server)
        → recv_msg from_alice (sent ∷ []) true s
          ≡ some (
            subscribe_by
                (find alice (insert from_alice.addr 4 s.fd_addrs))
                from_alice
                alice
                (record s { fd_addrs = insert from_alice.addr 4 s.fd_addrs }),
            [],
            closed 4 4,
          ))
    × ((s : Server) → recv_msg from_alice (sent' ∷ []) true s ≡ some (s, [], closed 4 4))
recv_msg-subscriber_example = recv_msg-subscriber alice from_alice true (omega arith) (omega arith)

-- Alice publishes "hi": Bob is connected, and Carol is away.
abbrev after_publishing : Server
after_publishing = record two_subscribers {
  cached_msg = (carol, (9 ∷ []) ∷ hello ∷ []) ∷ (bob, []) ∷ [];
}

abbrev hi_bytes : List ℕ
hi_bytes = 1 ∷ b'h' ∷ b'i' ∷ 210 ∷ []

hi_round :
    handle_msg from_alice (read_into hi_bytes (replicate buf_size 0)) 4 two_subscribers
    ≡ some (after_publishing, record { fd = 4; bytes = hello; count = 4 } ∷ [])
unfolding handle_msg dispatch publish deliver_all deliver check_msg_crc encode_mq_msg decode_mq_msg
    get insert assign find text_eq
hi_round = refl

abbrev published : Running
published = record (with_conn from_alice two_subscribers) {
  server = after_publishing;
  readers = (0, read_into hi_bytes (replicate buf_size 0)) ∷ [];
  sent = (from_alice, record { fd = 4; bytes = hello; count = 4 }) ∷ [];
}

publishing : Reach (with_conn from_alice two_subscribers) published
publishing =
    next (next (next here (event_in 0 from_alice (refl, tt))) (starts 0 [] refl))
      (round [] [] 0 (replicate buf_size 0) hi_bytes from_alice _ _ refl (refl, tt) hi_round)

Reach-Caches_example : Caches two_subscribers after_publishing × All IsOwn published.sent
Reach-Caches_example = Reach-Caches publishing tt

deleted_by_both :
    (s : Running) × Reach (with_conn from_alice two_subscribers) s × (s.deleted ≡ 0 ∷ 0 ∷ [])
deleted_by_both = deleted_twice from_alice two_subscribers

-- The same run, in which nobody at Bob's address unregisters.
sparing_bob : Spared bob (with_conn from_alice two_subscribers) published
unfolding text_eq
sparing_bob =
    goes_on
      (goes_on (goes_on unmoved (event_in 0 from_alice (refl, tt)) refl) (starts 0 [] refl) refl)
      (round [] [] 0 (replicate buf_size 0) hi_bytes from_alice _ _ refl (refl, tt) hi_round) refl

bob_known : find bob two_subscribers.fd_addrs ≡ some 5
unfolding find text_eq
bob_known = refl

Spared-Present_example :
    (find bob after_publishing.fd_addrs ≡ some 5)
    × (get bob [] after_publishing.cached_msg ≡ get bob [] two_subscribers.cached_msg)
Spared-Present_example = Spared-Present bob 5 bob_known sparing_bob

-- Two clients on one host and one on another; the texts of the hosts stand for themselves.
abbrev one_host : List (SockaddrIn × ℕ)
one_host =
    (record { sin_addr = 65; sin_port = 1000 }, 4)
    ∷ (record { sin_addr = 65; sin_port = 1001 }, 5)
    ∷ (record { sin_addr = 66; sin_port = 1000 }, 6)
    ∷ []

abbrev letter : ℕ → Text
letter host = suc host ∷ []

letter-IsDotted : IsDotted letter
letter-IsDotted host = (((λ z. ground arith), tt), omega arith)

accept_peers_lem_example :
    (r : Server × List Conn) × (accept_peers letter one_host two_subscribers ≡ some r)
    × (map (λ c. c.fd) r.1 ≡ 4 ∷ 5 ∷ 6 ∷ [])
    × ((a : Text)
        → find a r.0.fd_addrs
          ≡ or_else (find a two_subscribers.fd_addrs) (first_from letter a one_host))
accept_peers_lem_example = accept_peers_lem letter one_host two_subscribers letter-IsDotted

-- A publisher whose server closes the connection sends with a client that is deleted.
abbrev used_after : Client
used_after = record {
  role = false;
  main = joining;
  alive = false;
  receiver = ended;
  publisher = running;
  used_deleted = true;
  joined_unset = false;
}

used_after-Reach : Life.Reach false used_after
unfolding Life.use_client Life.loop Life.create_publisher Life.destroy_client
used_after-Reach =
    Life.next
      (Life.next
        (Life.next
          (Life.next
            (Life.next (Life.next (Life.next Life.here (Life.connects refl)) (Life.registers refl))
              (Life.loops refl))
            (Life.creates refl))
          (Life.leaves refl refl))
        (Life.deletes refl refl))
      (Life.sends refl refl)

Reach-deleted_example :
    (used_after.receiver ≡ running → used_after.alive ≡ true)
    × (used_after.alive ≡ false → used_after.receiver ≡ ended)
    × (used_after.used_deleted ≡ true → false ≡ false)
    × (used_after.main ≡ returned → used_after.joined_unset ≡ false)
Reach-deleted_example = Reach-deleted false used_after-Reach
