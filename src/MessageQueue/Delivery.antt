-- ===== src/MessageQueue/Delivery.antt =====
-- message_queue/message_queue_server.cpp: what a published message does to the maps, and where it is
-- written.
use seda_framework.Base.{
  ℕ, ◌≡◌, refl, ap, ◌∙◌, Option, some, none, List, [], ◌∷◌, ◌++◌, map, length, if◌then◌else◌,
  append-nil, append_assoc, arith, All, All-append, Option-cases, inl, inr, sym, ap₂,
}
use seda_framework.Base.Dictionary.{Text, text_eq, text_eq_iff, find, get, get-assign, get-insert}
use seda_framework.MessageQueue.Server.{Server, Conn, Write, deliver_by, deliver, deliver_all}

-- The entries of `subs` that are `a`, with the message for each.
abbrev pub copies : List ℕ → Text → List Text → List (List ℕ)
copies msg a [] = []
copies msg a (sub ∷ subs) = if text_eq sub a then msg ∷ copies msg a subs else copies msg a subs

deliver-fd_addrs :
    (mc : Conn) (msg : List ℕ) (nread : ℕ) (sub : Text) (s : Server)
    → (deliver mc msg nread sub s).0.fd_addrs ≡ s.fd_addrs
unfolding deliver
deliver-fd_addrs mc msg nread sub s = ground arith

pub deliver_all-fd_addrs :
    (mc : Conn) (msg : List ℕ) (nread : ℕ) (subs : List Text) (s : Server)
    → (deliver_all mc msg nread subs s).0.fd_addrs ≡ s.fd_addrs
unfolding deliver_all
deliver_all-fd_addrs mc msg nread [] s = refl
deliver_all-fd_addrs mc msg nread (sub ∷ subs) s =
    deliver_all-fd_addrs mc msg nread subs (deliver mc msg nread sub s).0
    ∙ deliver-fd_addrs mc msg nread sub s

deliver-away :
    (mc : Conn) (msg : List ℕ) (nread : ℕ) (sub a : Text) (s : Server)
    → find a s.fd_addrs ≡ none
    → get a [] (deliver mc msg nread sub s).0.cached_msg
      ≡ get a [] s.cached_msg ++ (if text_eq sub a then msg ∷ [] else [])
unfolding deliver
deliver-away mc msg nread sub a s away = ground (
  arith,
  text_eq_iff sub a,
  get-assign sub a [] (get sub [] s.cached_msg ++ msg ∷ []) s.cached_msg,
  get-insert sub a [] s.cached_msg,
  append-nil (get a [] s.cached_msg),
)

-- A message to a list of subscribers is cached for one that is away as often as the list names it,
-- behind what was cached before.
pub deliver_all-away :
    (mc : Conn) (msg : List ℕ) (nread : ℕ) (subs : List Text) (a : Text) (s : Server)
    → find a s.fd_addrs ≡ none
    → get a [] (deliver_all mc msg nread subs s).0.cached_msg
      ≡ get a [] s.cached_msg ++ copies msg a subs
unfolding deliver_all
deliver_all-away mc msg nread [] a s away = simp append-nil
deliver_all-away mc msg nread (sub ∷ subs) a s away =
    deliver_all-away mc msg nread subs a (deliver mc msg nread sub s).0
      (ap (find a) (deliver-fd_addrs mc msg nread sub s) ∙ away)
    ∙ ap (λ xs. xs ++ copies msg a subs) (deliver-away mc msg nread sub a s away)
    ∙ ground (
      arith,
      append_assoc (get a [] s.cached_msg) (msg ∷ []) (copies msg a subs),
      append_assoc (get a [] s.cached_msg) [] (copies msg a subs),
    )

deliver-present :
    (mc : Conn) (msg : List ℕ) (nread : ℕ) (sub a : Text) (fd : ℕ) (s : Server)
    → find a s.fd_addrs ≡ some fd
    → get a [] (deliver mc msg nread sub s).0.cached_msg ≡ get a [] s.cached_msg
unfolding deliver
deliver-present mc msg nread sub a fd s there = ground (
  arith,
  text_eq_iff sub a,
  get-assign sub a [] (get sub [] s.cached_msg ++ msg ∷ []) s.cached_msg,
  get-insert sub a [] s.cached_msg,
)

-- What is cached for a subscriber that is there stays cached, though it is written out.
pub deliver_all-present :
    (mc : Conn) (msg : List ℕ) (nread : ℕ) (subs : List Text) (a : Text) (fd : ℕ) (s : Server)
    → find a s.fd_addrs ≡ some fd
    → get a [] (deliver_all mc msg nread subs s).0.cached_msg ≡ get a [] s.cached_msg
unfolding deliver_all
deliver_all-present mc msg nread [] a fd s there = refl
deliver_all-present mc msg nread (sub ∷ subs) a fd s there =
    deliver_all-present mc msg nread subs a fd (deliver mc msg nread sub s).0
      (ap (find a) (deliver-fd_addrs mc msg nread sub s) ∙ there)
    ∙ deliver-present mc msg nread sub a fd s there

cached_writes-fd :
    (fd : ℕ) (msgs : List (List ℕ))
    → All
        (λ (w : Write). w.fd ≡ fd)
        (map (λ m. record { fd = fd; bytes = m; count = length m }) msgs)
cached_writes-fd fd [] = tt
cached_writes-fd fd (m ∷ msgs) = (refl, cached_writes-fd fd msgs)

deliver_by-writes :
    (o : Option ℕ) (mc : Conn) (msg : List ℕ) (nread : ℕ) (sub : Text) (s : Server)
    → All (λ w. w.fd ≡ mc.fd) (deliver_by o mc msg nread sub s).1
unfolding deliver_by
deliver_by-writes none mc msg nread sub s = tt
deliver_by-writes (some fd) mc msg nread sub s =
    All-append _ _ _ (cached_writes-fd mc.fd (get sub [] s.cached_msg)) (refl, tt)

deliver-writes :
    (mc : Conn) (msg : List ℕ) (nread : ℕ) (sub : Text) (s : Server)
    → All (λ w. w.fd ≡ mc.fd) (deliver mc msg nread sub s).1
unfolding deliver
deliver-writes mc msg nread sub s = deliver_by-writes (find sub s.fd_addrs) mc msg nread sub s

-- Every write goes to the descriptor of the connection on which the message came, which is the
-- publisher's, whoever the subscribers are.
pub deliver_all-writes :
    (mc : Conn) (msg : List ℕ) (nread : ℕ) (subs : List Text) (s : Server)
    → All (λ w. w.fd ≡ mc.fd) (deliver_all mc msg nread subs s).1
unfolding deliver_all
deliver_all-writes mc msg nread [] s = tt
deliver_all-writes mc msg nread (sub ∷ subs) s =
    All-append _ _ _ (deliver-writes mc msg nread sub s)
      (deliver_all-writes mc msg nread subs (deliver mc msg nread sub s).0)

-- After a message to a list of subscribers, what is cached for any address is what was cached before,
-- and behind it, if the address is away, the message as often as the list names it. So what is cached
-- for a subscriber that is there stays cached, though it is written out.
pub deliver_all-cached_msg :
    (mc : Conn) (msg : List ℕ) (nread : ℕ) (subs : List Text) (a : Text) (s : Server)
    → get a [] (deliver_all mc msg nread subs s).0.cached_msg
      ≡ get a [] s.cached_msg
        ++ elim (find a s.fd_addrs) [ none ↦ copies msg a subs | some fd ↦ [] ]
deliver_all-cached_msg mc msg nread subs a s = elim (Option-cases (find a s.fd_addrs)) [
  | inl away ↦ rw away (deliver_all-away mc msg nread subs a s away)
  | inr (fd, there) ↦ rw there (
      deliver_all-present mc msg nread subs a fd s there ∙ sym (append-nil (get a [] s.cached_msg)))
]

-- What a server writes for subscribers to the connection `mc`, by what it knows before the first of
-- them: for each that it knows, what is cached for it, and the message.
abbrev pub writes_for : Conn → List ℕ → ℕ → Server → List Text → List Write
writes_for mc msg nread s [] = []
writes_for mc msg nread s (sub ∷ subs) =
    elim (find sub s.fd_addrs) [
      | none ↦ []
      | some sub_fd ↦
          map (λ m. record { fd = mc.fd; bytes = m; count = length m }) (get sub [] s.cached_msg)
          ++ record { fd = mc.fd; bytes = msg; count = nread } ∷ []
    ]
    ++ writes_for mc msg nread s subs

-- It is the same by what the server knows after one of them.
writes_for-deliver :
    (mc : Conn) (msg : List ℕ) (nread : ℕ) (sub : Text) (s : Server) (subs : List Text)
    → writes_for mc msg nread (deliver mc msg nread sub s).0 subs ≡ writes_for mc msg nread s subs
writes_for-deliver mc msg nread sub s [] = refl
writes_for-deliver mc msg nread sub s (a ∷ subs) =
    let known = ap (find a) (deliver-fd_addrs mc msg nread sub s) in
    let rest = writes_for-deliver mc msg nread sub s subs in
    elim (Option-cases (find a s.fd_addrs)) [
      | inl away ↦ rw (known, away) rest
      | inr (fd, there) ↦
          rw (known, there, deliver-present mc msg nread sub a fd s there, rest) refl
    ]

deliver-writes_for :
    (mc : Conn) (msg : List ℕ) (nread : ℕ) (sub : Text) (s : Server)
    → (deliver mc msg nread sub s).1 ≡ writes_for mc msg nread s (sub ∷ [])
unfolding deliver deliver_by
deliver-writes_for mc msg nread sub s = elim (Option-cases (find sub s.fd_addrs)) [
  | inl away ↦ rw away refl
  | inr (fd, there) ↦ rw there (sym (append-nil _))
]

-- The writes of the loop over the subscribers are those, though its state changes as it goes on.
pub deliver_all-writes_for :
    (mc : Conn) (msg : List ℕ) (nread : ℕ) (subs : List Text) (s : Server)
    → (deliver_all mc msg nread subs s).1 ≡ writes_for mc msg nread s subs
unfolding deliver_all
deliver_all-writes_for mc msg nread [] s = refl
deliver_all-writes_for mc msg nread (sub ∷ subs) s =
    ap₂ (◌++◌) (deliver-writes_for mc msg nread sub s ∙ append-nil _) (
      deliver_all-writes_for mc msg nread subs (deliver mc msg nread sub s).0
      ∙ writes_for-deliver mc msg nread sub s subs)
