-- ===== src/Sockets/Servers.antt =====
-- socket.cpp, acceptor.cpp and message_queue_server.cpp: the set-up of a server.
use seda_framework.Base.{
  ℕ, ◌≡◌, refl, inl, inr, Bool, true, false, Bool-cases, none, some, ◌==◌, if◌then◌else◌, arith,
}
use seda_framework.Sockets.{Descriptor, htons, any_host, socket_server, Address}
use seda_framework.Sockets.Kernel.{not_open, fresh, listening, mode, bound}

same : (fd : ℕ) → (fd == fd) ≡ true
same fd = ground arith

-- The constructor reports an error exactly when bind has succeeded: the socket listens then on the low 16
-- bits of the port if listen succeeds, and is only bound to it if listen fails, which nobody is told; it
-- reports none when there is no socket, and none when bind fails, and the descriptor stays open then.
pub socket_server-mode :
    (listen_port : ℕ) (opened : Descriptor) (binds_it : Descriptor → Bool) (listens_it : Bool)
    → (let (s, reported, calls) = socket_server listen_port opened binds_it listens_it in
        let addr : Address = record { host = any_host; port = htons listen_port } in
        (s.listenfd ≡ opened)
        × (if reported
            then mode s.listenfd calls ≡ (if listens_it then listening addr else bound addr)
            else (mode s.listenfd calls ≡ elim opened [ none ↦ not_open | some fd ↦ fresh ])))
unfolding socket_server
socket_server-mode listen_port none binds_it listens_it = (refl, refl)
socket_server-mode listen_port (some fd) binds_it true = elim (Bool-cases (binds_it (some fd))) [
  | inl binds_to ↦ rw (binds_to, same fd) (refl, refl)
  | inr fails ↦ rw (fails, same fd) (refl, refl)
]
socket_server-mode listen_port (some fd) binds_it false = elim (Bool-cases (binds_it (some fd))) [
  | inl binds_to ↦ rw (binds_to, same fd) (refl, refl)
  | inr fails ↦ rw (fails, same fd) (refl, refl)
]
