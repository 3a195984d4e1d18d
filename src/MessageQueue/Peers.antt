-- ===== src/MessageQueue/Peers.antt =====
-- message_queue/message_queue_server.cpp: what a client is known by. accept gives the address of a peer,
-- of which convert_addr_in_to_str keeps the text of the host; inet_ntoa is the C library's.
use seda_framework.Base.{
  ℕ, ◌+◌, ◌≤◌, ◌≢◌, ◌≡◌, refl, ap, ◌∙◌, Bool-cases, inl, inr, Option, none, some, List, [], ◌∷◌,
  ◌++◌, map, length, replicate, drop, if◌then◌else◌, All, arith, length-append, length-replicate,
  append_assoc, Option-cases, sym,
}
use seda_framework.Base.Memory.{◌>>=◌, memcpy, memcpy_start, c_string, c_string-append, NoZero}
use seda_framework.Base.Dictionary.{Text, text_eq, find, insert, find-insert, text_eq_iff}
use seda_framework.Base.Texts.{split_once, split_once_lem}
use seda_framework.MessageQueue.Server.{Server, Conn, accept_conn}
use seda_framework.MessageQueue.Client.{get_ip_port}

-- struct sockaddr_in, as far as it is set
pub record SockaddrIn : Type 0 where
  pub sin_addr : ℕ
  pub sin_port : ℕ

-- message_queue_server::convert_addr_in_to_str; `none` is a text beyond `char[128]`.
unfoldable pub convert_addr_in_to_str : (ℕ → Text) → SockaddrIn → Option Text
unfolding memcpy c_string
convert_addr_in_to_str inet_ntoa addr = do
  _dst ← memcpy (replicate 128 0) 0 (inet_ntoa addr.sin_addr ++ 0 ∷ [])
  c_string _dst

-- message_queue_server::get_ip_port_from_publisher_name, which cuts the name at its colon; `none` is a
-- name without one.
unfoldable pub get_ip_port_from_publisher_name : List ℕ → Option Text
unfolding split_once c_string
get_ip_port_from_publisher_name publisher_name =
    split_once 58 publisher_name >>= λ r. c_string (r.0 ++ 0 ∷ r.1)

-- message_queue_server::accept_conn with the addresses that accept gives.
unfoldable pub named_peers : (ℕ → Text) → List (SockaddrIn × ℕ) → Option (List (Text × ℕ))
unfolding convert_addr_in_to_str
named_peers inet_ntoa [] = some []
named_peers inet_ntoa ((addr, peer_sock) ∷ peers) = do
  addr_str ← convert_addr_in_to_str inet_ntoa addr
  rest ← named_peers inet_ntoa peers
  some ((addr_str, peer_sock) ∷ rest)

unfoldable pub accept_peers :
    (ℕ → Text) → List (SockaddrIn × ℕ) → Server → Option (Server × List Conn)
unfolding named_peers accept_conn
accept_peers inet_ntoa peers s = named_peers inet_ntoa peers >>= λ named. some (accept_conn named s)

-- inet_ntoa(3): the text of an address has at most 15 characters.
abbrev pub IsDotted : (ℕ → Text) → Type 0
IsDotted inet_ntoa = (host : ℕ) → NoZero (inet_ntoa host) × (length (inet_ntoa host) ≤ 15)

-- The first of the peers that is on a host.
abbrev pub first_from : (ℕ → Text) → Text → List (SockaddrIn × ℕ) → Option ℕ
first_from inet_ntoa a [] = none
first_from inet_ntoa a ((addr, peer_sock) ∷ peers) =
    if text_eq (inet_ntoa addr.sin_addr) a then some peer_sock else first_from inet_ntoa a peers

abbrev pub or_else : Option ℕ → Option ℕ → Option ℕ
or_else (some fd) o = some fd
or_else none o = o

convert_lem :
    (inet_ntoa : ℕ → Text) (addr : SockaddrIn)
    → IsDotted inet_ntoa
    → convert_addr_in_to_str inet_ntoa addr ≡ some (inet_ntoa addr.sin_addr)
unfolding convert_addr_in_to_str
convert_lem inet_ntoa addr dotted =
    let name = inet_ntoa addr.sin_addr in
    let (nz, h) = dotted addr.sin_addr in
    let len : length (name ++ 0 ∷ []) ≡ length name + 1 = length-append name (0 ∷ []) in
    let zeros = length-replicate {A = ℕ} 128 0 in
    let copied = memcpy_start (replicate 128 0) (name ++ 0 ∷ []) (omega (arith, len, zeros, h)) in
    rw copied (
      ap c_string (append_assoc name (0 ∷ []) (drop (length (name ++ 0 ∷ [])) (replicate 128 0)))
      ∙ c_string-append name (drop (length (name ++ 0 ∷ [])) (replicate 128 0)) nz)

abbrev named_peer : (ℕ → Text) → SockaddrIn × ℕ → Text × ℕ
named_peer inet_ntoa (addr, peer_sock) = (inet_ntoa addr.sin_addr, peer_sock)

named_peers_lem :
    (inet_ntoa : ℕ → Text) (peers : List (SockaddrIn × ℕ))
    → IsDotted inet_ntoa
    → named_peers inet_ntoa peers ≡ some (map (named_peer inet_ntoa) peers)
unfolding named_peers
named_peers_lem inet_ntoa [] dotted = refl
named_peers_lem inet_ntoa ((addr, fd) ∷ peers) dotted =
    rw (convert_lem inet_ntoa addr dotted, named_peers_lem inet_ntoa peers dotted) refl

find-named :
    (inet_ntoa : ℕ → Text) (a : Text) (peers : List (SockaddrIn × ℕ))
    → find a (map (named_peer inet_ntoa) peers) ≡ first_from inet_ntoa a peers
unfolding find
find-named inet_ntoa a [] = refl
find-named inet_ntoa a ((addr, fd) ∷ peers) =
    ap (λ o. if text_eq (inet_ntoa addr.sin_addr) a then some fd else o)
      (find-named inet_ntoa a peers)

insert_first :
    (addr a : Text) (fd : ℕ) (m : List (Text × ℕ)) (o : Option ℕ)
    → or_else (find a (insert addr fd m)) o
      ≡ or_else (find a m) (if text_eq addr a then some fd else o)
insert_first addr a fd m o = elim (Bool-cases (text_eq addr a)) [
  | inl same ↦
      let at_a : find addr m ≡ find a m = ap (λ k. find k m) ((text_eq_iff addr a).0 same) in
      elim (Option-cases (find a m)) [
        | inl away ↦ rw (find-insert addr a fd m, at_a, away, same) refl
        | inr (w, there) ↦ rw (find-insert addr a fd m, at_a, there, there) refl
      ]
  | inr differ ↦ elim (Option-cases (find addr m)) [
    | inl away ↦ rw (find-insert addr a fd m, away, differ) refl
    | inr (w, there) ↦ rw (find-insert addr a fd m, there, differ) refl
  ]
]

or_else-none : (o : Option ℕ) → or_else o none ≡ o
or_else-none none = refl
or_else-none (some fd) = refl

find-accept_conn :
    (a : Text) (named : List (Text × ℕ)) (s : Server)
    → find a (accept_conn named s).0.fd_addrs ≡ or_else (find a s.fd_addrs) (find a named)
unfolding accept_conn find
find-accept_conn a [] s = sym (or_else-none (find a s.fd_addrs))
find-accept_conn a ((addr, fd) ∷ named) s =
    find-accept_conn a named (record s { fd_addrs = insert addr fd s.fd_addrs })
    ∙ insert_first addr a fd s.fd_addrs (find a named)

accept_conn-fds :
    (named : List (Text × ℕ)) (s : Server)
    → map (λ c. c.fd) (accept_conn named s).1 ≡ map (λ (p : Text × ℕ). p.1) named
unfolding accept_conn
accept_conn-fds [] s = refl
accept_conn-fds ((addr, fd) ∷ named) s =
    ap (◌∷◌ fd) (accept_conn-fds named (record s { fd_addrs = insert addr fd s.fd_addrs }))

map-named :
    (inet_ntoa : ℕ → Text) (peers : List (SockaddrIn × ℕ))
    → map (λ (p : Text × ℕ). p.1) (map (named_peer inet_ntoa) peers)
      ≡ map (λ (p : SockaddrIn × ℕ). p.1) peers
map-named inet_ntoa [] = refl
map-named inet_ntoa (p ∷ peers) = ap (◌∷◌ p.1) (map-named inet_ntoa peers)

-- Accepting peers makes a connection for each of them, in their order, and keeps for each host the
-- descriptor that it was known with, or else that of the first peer from there, whatever the ports: a
-- further client of a host is known by the descriptor of the first.
pub accept_peers_lem :
    (inet_ntoa : ℕ → Text) (peers : List (SockaddrIn × ℕ)) (s : Server)
    → IsDotted inet_ntoa
    → (r : Server × List Conn) × (accept_peers inet_ntoa peers s ≡ some r)
      × (map (λ c. c.fd) r.1 ≡ map (λ (p : SockaddrIn × ℕ). p.1) peers)
      × ((a : Text)
          → find a r.0.fd_addrs ≡ or_else (find a s.fd_addrs) (first_from inet_ntoa a peers))
unfolding accept_peers
accept_peers_lem inet_ntoa peers s dotted =
    let named = map (named_peer inet_ntoa) peers in
    (
      accept_conn named s,
      rw (named_peers_lem inet_ntoa peers dotted) refl,
      accept_conn-fds named s ∙ map-named inet_ntoa peers,
      λ a.
          find-accept_conn a named s
          ∙ ap (or_else (find a s.fd_addrs)) (find-named inet_ntoa a peers),
    )

-- The server cuts "host:port" where the client does.
pub get_ip_port_from_publisher_name_lem :
    (atoi : Text → ℕ) (host port : Text)
    → NoZero host
    → All (λ c. c ≢ 58) host
    → get_ip_port_from_publisher_name (host ++ 58 ∷ port)
      ≡ some (get_ip_port atoi (host ++ 58 ∷ port)).0
unfolding get_ip_port_from_publisher_name get_ip_port
get_ip_port_from_publisher_name_lem atoi host port nz colon =
    rw (split_once_lem 58 host port colon) (c_string-append host port nz)
