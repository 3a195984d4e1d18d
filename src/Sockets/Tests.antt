-- ===== src/Sockets/Tests.antt =====
-- Sockets on descriptors.
use seda_framework.Base.{◌≡◌, refl, Bool, true, false, none, some, [], ◌∷◌, if◌then◌else◌, ◌^◌, ◌+◌}
use seda_framework.Sockets.{
  Address, Descriptor, opens, connects, htons, any_host, socket_server, connect,
}
use seda_framework.Base.Texts.{split_once}
use seda_framework.MessageQueue.Client.{get_ip_port}
use seda_framework.Sockets.Kernel.{fresh, bound, mode}
use seda_framework.Sockets.Servers.{socket_server-mode}

-- bind refuses -1 and takes the rest, or refuses all.
abbrev free : Descriptor → Bool
free none = false
free (some fd) = true

abbrev taken : Descriptor → Bool
taken d = false

-- listen fails on a socket that is bound, and an error is reported.
socket_server-mode_example :
    (let (s, reported, calls) = socket_server 80 (some 3) free false in
      let addr : Address = record { host = any_host; port = htons 80 } in
      (s.listenfd ≡ some 3)
      × (if reported then mode s.listenfd calls ≡ bound addr else (mode s.listenfd calls ≡ fresh)))
socket_server-mode_example = socket_server-mode 80 (some 3) free false

-- A client connects to a host that cannot be read as one, on a port of 17 bits.
far_port :
    connect (λ text. 2 ^ 16 + 80) (λ text. none) (b'h' ∷ 58 ∷ b'1' ∷ []) (some 5) (λ d addr. true)
    ≡ (true, opens (some 5) ∷ connects (some 5) (record { host = any_host; port = 80 }) true ∷ [])
unfolding connect get_ip_port split_once
far_port = refl
