-- ===== src/Loop/Reading.antt =====
-- loop.cpp, read_conn: what is left of several reads.
use seda_framework.Base.{
  ℕ, ◌≤◌, ◌≡◌, refl, ap, ◌∙◌, Bool, some, List, [], ◌∷◌, ◌++◌, length, take, take-append, arith,
  All, if◌then◌else◌, ◌<◌,
}
use seda_framework.Buffer.{Buffer, new_buffer, push_back}
use seda_framework.Buffer.Growth.{IsBuffer, new_buffer-IsBuffer, push_back-fits}
use seda_framework.Acceptor.{ctl_del, close_fd}
use seda_framework.Loop.{read_loop, read_conn}

-- A buffer that the loop has filled: pushes leave `_len` at 0.
record IsReading (b : Buffer) : Type 0 where
  buffer : IsBuffer b
  at_start : b.len ≡ 0
  large : 1024 ≤ b.size
  bounded : b.size < 4096

push_back-IsReading :
    (bytes : List ℕ) (b : Buffer)
    → length bytes ≤ 1023
    → IsReading b
    → (b' : Buffer) × (push_back bytes b ≡ some b')
      × IsReading b'
      × (rest : List ℕ) × (b'.block ≡ bytes ++ rest)
push_back-IsReading bytes b h i =
    let (b', e, v, len, grows, rest, block) =
      push_back-fits bytes b i.buffer (omega (arith, i.bounded))
        (omega (arith, h, i.at_start, i.large)) in
    (
      b',
      e,
      record {
        buffer = v;
        at_start = len ∙ i.at_start;
        large = ground (arith, grows, i.large);
        bounded = ground (arith, grows, i.bounded, i.at_start, h);
      },
      rest,
      block ∙ ap (λ n. take n b.block ++ bytes ++ rest) i.at_start,
    )

-- The loop, whatever it reads before the last bytes.
read_loop_last :
    (reads : List (List ℕ)) (last : List ℕ) (b : Buffer)
    → All (λ bytes. length bytes ≤ 1023) reads
    → length last ≤ 1023
    → IsReading b
    → (b' : Buffer) × (read_loop (reads ++ last ∷ []) b ≡ some b')
      × (rest : List ℕ) × (b'.block ≡ last ++ rest)
unfolding read_loop
read_loop_last [] last b small h i =
    let (b', e, v, rest, block) = push_back-IsReading last b h i in (b', rw e refl, rest, block)
read_loop_last (bytes ∷ reads) last b small h i =
    let (b1, e1, i1, _, _) = push_back-IsReading bytes b small.0 i in
    let (b', e, rest, block) = read_loop_last reads last b1 small.1 h i1 in
    (b', rw e1 e, rest, block)

-- However many reads of at most 1023 bytes a connection takes, the block of which the element is made
-- starts with the bytes of the last: each is copied over the one before. At the end of the
-- connection it is taken out of epoll and closed.
pub read_conn_lem :
    (peer_fd : ℕ) (reads : List (List ℕ)) (last : List ℕ) (last_zero : Bool)
    → All (λ bytes. length bytes ≤ 1023) reads
    → length last ≤ 1023
    → (block : List ℕ) × (read_conn peer_fd (reads ++ last ∷ []) last_zero
        ≡ some (block, if last_zero then ctl_del peer_fd ∷ close_fd peer_fd ∷ [] else []))
      × (take (length last) block ≡ last)
unfolding read_conn
read_conn_lem peer_fd reads last last_zero small h =
    let fresh : IsReading new_buffer = record {
      buffer = new_buffer-IsBuffer;
      at_start = refl;
      large = omega arith;
      bounded = omega arith;
    } in
    let (b', e, rest, block) = read_loop_last reads last new_buffer small h fresh in
    (b'.block, rw e refl, ap (take (length last)) block ∙ take-append last rest)
