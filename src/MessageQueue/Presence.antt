-- ===== src/MessageQueue/Presence.antt =====
-- message_queue/message_queue_server.cpp: an address that the server knows.
use seda_framework.Base.{
  ℕ, ◌≡◌, refl, ap, ◌∙◌, Bool, true, false, not, ◌&&◌, Option, none, some, List, [], ◌∷◌, length,
  get_elem?, ◌==◌, subst,
}
use seda_framework.Base.Memory.{◌>>=◌}
use seda_framework.Base.Results.{Gives, Gives-bind, Gives-any, Gives-if, Gives-when, Gives-each}
use seda_framework.Base.Dictionary.{
  Text, text_eq, find, insert, get, erase, find-insert_kept, find-erase,
}
use seda_framework.MessageQueue.{check_msg_crc, encode_mq_msg, decode_mq_msg}
use seda_framework.MessageQueue.Server.{
  Server, Conn, Write, read_into, publish, register_publisher, publisher_name, subscribe_by,
  subscribe, unregister, dispatch, handle_msg, accept_conn,
}
use seda_framework.MessageQueue.Delivery.{deliver_all-fd_addrs, deliver_all-present}
use seda_framework.MessageQueue.Interleaving.{
  Running, Step, event_accept, event_in, accepts, starts, round, leaves, read_zero, deletes,
}

-- The address keeps its descriptor, and what is cached for it stays as it is.
abbrev pub Present : Text → ℕ → Server → Server → Type 0
Present a fd s t = (find a t.fd_addrs ≡ some fd) × (get a [] t.cached_msg ≡ get a [] s.cached_msg)

publish-Present :
    (a : Text) (fd : ℕ) (mc : Conn) (buf : List ℕ) (nread : ℕ) (s : Server)
    → find a s.fd_addrs ≡ some fd
    → Gives (λ r. Present a fd s r.0) (publish mc buf nread s)
unfolding publish
publish-Present a fd mc buf nread s there =
    Gives-bind (λ _. Unit {0}) (λ r. Present a fd s r.0) (check_msg_crc buf nread) _ (Gives-any _)
      (λ right _.
        Gives-if (λ r. Present a fd s r.0) right _ _
          (Gives-bind (λ _. Unit {0}) (λ r. Present a fd s r.0) (encode_mq_msg buf) _ (Gives-any _)
            (λ b _.
              Gives-bind (λ _. Unit {0}) (λ r. Present a fd s r.0) (decode_mq_msg b) _ (Gives-any _)
                (λ msg _.
                  let subs = get mc.addr [] s.relations in
                  let listed : Server = record s { relations = insert mc.addr [] s.relations } in
                  (
                    ap (find a) (deliver_all-fd_addrs mc msg nread subs listed) ∙ there,
                    deliver_all-present mc msg nread subs a fd listed there,
                  ))))
          (there, refl))

subscribe_by-Present :
    (o : Option ℕ) (a : Text) (fd : ℕ) (mc : Conn) (name : Text) (s : Server)
    → find a s.fd_addrs ≡ some fd
    → Present a fd s (subscribe_by o mc name s)
unfolding subscribe_by
subscribe_by-Present none a fd mc name s there = (there, refl)
subscribe_by-Present (some sub_fd) a fd mc name s there = (there, refl)

subscribe-Present :
    (a : Text) (fd : ℕ) (mc : Conn) (buf : List ℕ) (nread : ℕ) (s : Server)
    → find a s.fd_addrs ≡ some fd
    → Gives (Present a fd s) (subscribe mc buf nread s)
unfolding subscribe
subscribe-Present a fd mc buf nread s there =
    Gives-bind (λ _. Unit {0}) (Present a fd s) (publisher_name buf nread) _ (Gives-any _)
      (λ name _.
        let known : Server = record s { fd_addrs = insert mc.addr mc.fd s.fd_addrs } in
        subscribe_by-Present (find name known.fd_addrs) a fd mc name known
          (find-insert_kept mc.addr a mc.fd fd s.fd_addrs there))

unregister-Present :
    (a : Text) (fd : ℕ) (mc : Conn) (s : Server)
    → find a s.fd_addrs ≡ some fd
    → text_eq mc.addr a ≡ false
    → Gives (Present a fd s) (unregister mc s)
unfolding unregister
unregister-Present a fd mc s there away =
    Gives-bind (λ fds. find a fds ≡ some fd) (Present a fd s) (erase mc.addr s.fd_addrs) _
      (Gives-each (λ fds. find a fds ≡ some fd) (erase mc.addr s.fd_addrs)
        (λ fds e. find-erase mc.addr a s.fd_addrs fds away e ∙ there))
      (λ fds there'.
        Gives-bind (λ _. Unit {0}) (Present a fd s) (erase mc.addr s.relations) _ (Gives-any _)
          (λ rels _. (there', refl)))

without_writes :
    (a : Text) (fd : ℕ) (s : Server) (o : Option Server)
    → Gives (Present a fd s) o
    → Gives (λ (r : Server × List Write). Present a fd s r.0) (o >>= λ s'. some (s', []))
without_writes a fd s o h =
    Gives-bind (Present a fd s) (λ r. Present a fd s r.0) o _ h (λ s' present. present)

-- A message that unregisters an address.
abbrev pub unregisters : Text → Conn → ℕ → Bool
unregisters a mc kind = text_eq mc.addr a && kind == 0x8

not_mine : (b c : Bool) → (b && c) ≡ false → c ≡ true → b ≡ false
not_mine true true e t = e
not_mine true false e t = cc
not_mine false c e t = refl

dispatch-Present :
    (kind : ℕ) (a : Text) (fd : ℕ) (mc : Conn) (buf : List ℕ) (nread : ℕ) (s : Server)
    → find a s.fd_addrs ≡ some fd
    → unregisters a mc kind ≡ false
    → Gives (λ r. Present a fd s r.0) (dispatch kind mc buf nread s)
unfolding dispatch register_publisher
dispatch-Present kind a fd mc buf nread s there stays =
    let P = λ (r : Server × List Write). Present a fd s r.0 in
    Gives-if P (kind == 0x1) _ _ (publish-Present a fd mc buf nread s there) (
      Gives-if P (kind == 0x2) _ _ (find-insert_kept mc.addr a mc.fd fd s.fd_addrs there, refl)
        (Gives-if P (kind == 0x4) _ _
          (without_writes a fd s _ (subscribe-Present a fd mc buf nread s there))
          (Gives-when P (kind == 0x8) _ _
            (λ is_8. without_writes a fd s _ (
              unregister-Present a fd mc s there
                (not_mine (text_eq mc.addr a) (kind == 0x8) stays is_8)))
            (Gives-if P (kind == 0x16) _ _
              (Gives-bind (λ _. Unit {0}) P (publisher_name buf nread) _ (Gives-any _)
                (λ name _. (there, refl)))
              (there, refl)))))

-- Whether a round is one that unregisters the address.
abbrev pub unregisters_by : Text → Conn → Option ℕ → Bool
unregisters_by a mc none = false
unregisters_by a mc (some kind) = unregisters a mc kind

handle_msg_by :
    (o : Option ℕ) (a : Text) (fd : ℕ) (mc : Conn) (buf : List ℕ) (nread : ℕ) (s : Server)
    → find a s.fd_addrs ≡ some fd
    → unregisters_by a mc o ≡ false
    → Gives (λ r. Present a fd s r.0) (o >>= λ kind. dispatch kind mc buf nread s)
handle_msg_by none a fd mc buf nread s there stays = tt
handle_msg_by (some kind) a fd mc buf nread s there stays =
    dispatch-Present kind a fd mc buf nread s there stays

handle_msg-Present :
    (a : Text) (fd : ℕ) (mc : Conn) (buf : List ℕ) (nread : ℕ) (s : Server)
    → find a s.fd_addrs ≡ some fd
    → unregisters_by a mc (get_elem? buf 0) ≡ false
    → Gives (λ r. Present a fd s r.0) (handle_msg mc buf nread s)
unfolding handle_msg
handle_msg-Present a fd mc buf nread s = handle_msg_by (get_elem? buf 0) a fd mc buf nread s

accept_conn-Present :
    (a : Text) (fd : ℕ) (peers : List (Text × ℕ)) (s : Server)
    → find a s.fd_addrs ≡ some fd
    → Present a fd s (accept_conn peers s).0
unfolding accept_conn
accept_conn-Present a fd [] s there = (there, refl)
accept_conn-Present a fd ((addr, peer_sock) ∷ peers) s there =
    accept_conn-Present a fd peers (record s { fd_addrs = insert addr peer_sock s.fd_addrs })
      (find-insert_kept addr a peer_sock fd s.fd_addrs there)

-- A step in which no client at the address sends that it unregisters.
abbrev pub spares : (a : Text) {s t : Running} → Step s t → Bool
spares a (round before after p _buf bytes mc server out e points ran) =
    not (unregisters_by a mc (get_elem? (read_into bytes _buf) 0))
spares a _ = true

pub data Spared (a : Text) (s : Running) : Running → Type 0 where
  unmoved : Spared a s s
  goes_on : {t u : Running} → Spared a s t → (step : Step t u) → spares a step ≡ true → Spared a s u

kept_step : (b : Bool) → not b ≡ true → b ≡ false
kept_step true e = cc
kept_step false e = refl

Step-Present :
    (a : Text) (fd : ℕ) {s t : Running} (step : Step s t)
    → spares a step ≡ true
    → find a s.server.fd_addrs ≡ some fd
    → Present a fd s.server t.server
Step-Present a fd event_accept k there = (there, refl)
Step-Present a fd (event_in p mc points) k there = (there, refl)
Step-Present a fd {s} (accepts tasks peers e) k there =
    accept_conn-Present a fd peers s.server there
Step-Present a fd (starts p tasks e) k there = (there, refl)
Step-Present a fd {s} (round before after p _buf bytes mc server out e points ran) k there =
    subst (Gives (λ r. Present a fd s.server r.0)) ran (
      handle_msg-Present a fd mc (read_into bytes _buf) (length bytes) s.server there
        (kept_step _ k))
Step-Present a fd (leaves before after p _buf mc e points) k there = (there, refl)
Step-Present a fd (read_zero before after p _buf mc e points) k there = (there, refl)
Step-Present a fd (deletes before after p e) k there = (there, refl)

-- Once the server knows an address, and as long as no client at that address sends that it unregisters:
-- in whatever order events and workers come, the address keeps the descriptor that it was first
-- known with, also when that connection is closed and deleted and when another is accepted from there,
-- and no message is ever cached for it, nor is what was cached taken out.
pub Spared-Present :
    (a : Text) (fd : ℕ) {s t : Running}
    → find a s.server.fd_addrs ≡ some fd
    → Spared a s t
    → (find a t.server.fd_addrs ≡ some fd)
      × (get a [] t.server.cached_msg ≡ get a [] s.server.cached_msg)
Spared-Present a fd there unmoved = (there, refl)
Spared-Present a fd {s} {t = u} there (goes_on {t} r step k) =
    let (known, cached) = Spared-Present a fd there r in
    let (known', cached') = Step-Present a fd step k known in (known', cached' ∙ cached)
