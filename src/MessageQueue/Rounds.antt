-- ===== src/MessageQueue/Rounds.antt =====
-- message_queue/message_queue_server.cpp, a round of recv_msg: what it keeps.
use seda_framework.Base.{
  ℕ, ◌≡◌, refl, sym, ap, ◌∙◌, subst, Option, none, some, List, [], ◌++◌, append-nil, append_assoc,
  All, ◌==◌, get_elem?,
}
use seda_framework.Base.Memory.{◌>>=◌}
use seda_framework.Base.Results.{Gives, Gives-bind, Gives-any, Gives-if}
use seda_framework.Base.Dictionary.{Text, find, insert, get, erase}
use seda_framework.MessageQueue.{check_msg_crc, encode_mq_msg, decode_mq_msg}
use seda_framework.MessageQueue.Delivery.{deliver_all-cached_msg, deliver_all-writes}
use seda_framework.MessageQueue.Server.{
  Server, Conn, Write, publish, register_publisher, publisher_name, subscribe_by, subscribe,
  unregister, dispatch, handle_msg,
}

-- `later` has, for any address, at least what `earlier` has cached, in front.
abbrev pub Caches : Server → Server → Type 0
Caches earlier later =
    (a : Text)
    → (more : List (List ℕ)) × (get a [] later.cached_msg ≡ get a [] earlier.cached_msg ++ more)

pub Caches-same : (s t : Server) → t.cached_msg ≡ s.cached_msg → Caches s t
Caches-same s t e a = ([], ap (get a []) e ∙ sym (append-nil (get a [] s.cached_msg)))

pub Caches-compose : (s t u : Server) → Caches s t → Caches t u → Caches s u
Caches-compose s t u st tu a =
    let (xs, e) = st a in
    let (ys, e') = tu a in
    (xs ++ ys, e' ∙ ap (λ zs. zs ++ ys) e ∙ append_assoc (get a [] s.cached_msg) xs ys)

-- What a handler on the descriptor `fd` may do: keep what is cached, and write to `fd`.
abbrev Obeys : ℕ → Server → Server × List Write → Type 0
Obeys fd s r = Caches s r.0 × All (λ w. w.fd ≡ fd) r.1

publish-Obeys :
    (mc : Conn) (buf : List ℕ) (nread : ℕ) (s : Server)
    → Gives (Obeys mc.fd s) (publish mc buf nread s)
unfolding publish
publish-Obeys mc buf nread s =
    Gives-bind (λ _. Unit {0}) (Obeys mc.fd s) (check_msg_crc buf nread) _ (Gives-any _)
      (λ right _.
        Gives-if (Obeys mc.fd s) right _ _
          (Gives-bind (λ _. Unit {0}) (Obeys mc.fd s) (encode_mq_msg buf) _ (Gives-any _)
            (λ b _.
              Gives-bind (λ _. Unit {0}) (Obeys mc.fd s) (decode_mq_msg b) _ (Gives-any _)
                (λ msg _.
                  let subs = get mc.addr [] s.relations in
                  let listed : Server = record s { relations = insert mc.addr [] s.relations } in
                  (
                    λ a. (_, deliver_all-cached_msg mc msg nread subs a listed),
                    deliver_all-writes mc msg nread subs listed,
                  ))))
          (Caches-same s s refl, tt))

unregister-Caches : (mc : Conn) (s : Server) → Gives (λ s'. Caches s s') (unregister mc s)
unfolding unregister
unregister-Caches mc s =
    Gives-bind (λ _. Unit {0}) (Caches s) (erase mc.addr s.fd_addrs) _ (Gives-any _)
      (λ fds _.
        Gives-bind (λ _. Unit {0}) (Caches s) (erase mc.addr s.relations) _ (Gives-any _)
          (λ rels _. Caches-same s (record s { fd_addrs = fds; relations = rels }) refl))

subscribe_by-Caches :
    (o : Option ℕ) (mc : Conn) (name : Text) (s : Server) → Caches s (subscribe_by o mc name s)
unfolding subscribe_by
subscribe_by-Caches none mc name s = Caches-same s s refl
subscribe_by-Caches (some fd) mc name s = Caches-same s (subscribe_by (some fd) mc name s) refl

subscribe-Caches :
    (mc : Conn) (buf : List ℕ) (nread : ℕ) (s : Server)
    → Gives (λ s'. Caches s s') (subscribe mc buf nread s)
unfolding subscribe
subscribe-Caches mc buf nread s =
    Gives-bind (λ _. Unit {0}) (Caches s) (publisher_name buf nread) _ (Gives-any _)
      (λ name _.
        let known : Server = record s { fd_addrs = insert mc.addr mc.fd s.fd_addrs } in
        subscribe_by-Caches (find name known.fd_addrs) mc name known)

silent :
    (fd : ℕ) (s : Server) (o : Option Server)
    → Gives (λ s'. Caches s s') o
    → Gives (Obeys fd s) (o >>= λ s'. some (s', []))
silent fd s o h = Gives-bind (λ s'. Caches s s') (Obeys fd s) o _ h (λ s' c. (c, tt))

dispatch-Obeys :
    (kind : ℕ) (mc : Conn) (buf : List ℕ) (nread : ℕ) (s : Server)
    → Gives (Obeys mc.fd s) (dispatch kind mc buf nread s)
unfolding dispatch register_publisher
dispatch-Obeys kind mc buf nread s =
    Gives-if (Obeys mc.fd s) (kind == 0x1) _ _ (publish-Obeys mc buf nread s) (
      Gives-if (Obeys mc.fd s) (kind == 0x2) _ _ (Caches-same s (register_publisher mc s) refl, tt)
        (Gives-if (Obeys mc.fd s) (kind == 0x4) _ _
          (silent mc.fd s _ (subscribe-Caches mc buf nread s))
          (Gives-if (Obeys mc.fd s) (kind == 0x8) _ _ (silent mc.fd s _ (unregister-Caches mc s)) (
            Gives-if (Obeys mc.fd s) (kind == 0x16) _ _
              (Gives-bind (λ _. Unit {0}) (Obeys mc.fd s) (publisher_name buf nread) _ (Gives-any _)
                (λ name _. (Caches-same s s refl, tt)))
              (Caches-same s s refl, tt)))))

handle_msg-Obeys :
    (mc : Conn) (buf : List ℕ) (nread : ℕ) (s : Server)
    → Gives (Obeys mc.fd s) (handle_msg mc buf nread s)
unfolding handle_msg
handle_msg-Obeys mc buf nread s =
    Gives-bind (λ _. Unit {0}) (Obeys mc.fd s) (get_elem? buf 0) _ (Gives-any _)
      (λ kind _. dispatch-Obeys kind mc buf nread s)

-- A round of recv_msg that C defines keeps what is cached and writes to its connection only.
pub handle_msg-Caches :
    (mc : Conn) (buf : List ℕ) (nread : ℕ) (s : Server) (r : Server × List Write)
    → handle_msg mc buf nread s ≡ some r
    → Caches s r.0 × All (λ w. w.fd ≡ mc.fd) r.1
handle_msg-Caches mc buf nread s r e =
    subst (Gives (Obeys mc.fd s)) e (handle_msg-Obeys mc buf nread s)
