-- ===== src/Buffer/Growth.antt =====
-- buffer.cpp: the block has the size that is recorded, and when a push stays within it.
use seda_framework.Base.{
  ℕ, ◌+◌, ◌*◌, ◌/◌, ◌≤◌, ◌<◌, ◌≡◌, refl, ◌∙◌, inl, inr, some, none, List, ◌++◌, length, take,
  take-append, drop, subst, true, replicate, length-replicate, length-take, ltb, arith, Bool-cases,
  ◌^◌, ltb→lt, if◌then◌else◌, ap,
}
use seda_framework.Base.Memory.{
  ◌>>=◌, memcpy, length-memcpy, memcpy_start, memcpy_fits, memcpy_beyond,
}
use seda_framework.Buffer.{Buffer, new_buffer, expand, push_back, doubled}

-- `_size` is the size of the block, and `_len` lies within it.
pub record IsBuffer (b : Buffer) : Type 0 where
  pub sized : length b.block ≡ b.size
  pub within : b.len ≤ b.size

pub new_buffer-IsBuffer : IsBuffer new_buffer
new_buffer-IsBuffer = record { sized = length-replicate {A = ℕ} 1024 0; within = omega arith }

pub doubled_lem : (size : ℕ) → size < 2 ^ 30 → doubled size ≡ some (2 * size)
unfolding doubled
doubled_lem size h = ground arith

-- Expanding a block of fewer than 2 ^ 30 bytes succeeds: it doubles the size, and keeps the bytes below `_len` in front of zeros.
pub expand_lem :
    (b : Buffer)
    → IsBuffer b
    → b.size < 2 ^ 30
    → (b' : Buffer) × (expand b ≡ some b')
      × IsBuffer b'
      × (b'.size ≡ 2 * b.size)
      × (b'.len ≡ b.len)
      × (take b.len b'.block ≡ take b.len b.block)
unfolding expand
expand_lem b v small =
    let kept = take b.len b.block in
    let zeros : List ℕ = replicate (2 * b.size) 0 in
    let kept_len = length-take b.len b.block in
    let zeros_len = length-replicate {A = ℕ} (2 * b.size) 0 in
    let e = memcpy_start zeros kept (omega (arith, v.sized, v.within)) in
    (
      record b { block = kept ++ drop (length kept) zeros; size = 2 * b.size },
      rw (doubled_lem b.size small, e) refl,
      record {
        sized = length-memcpy zeros 0 kept _ e ∙ zeros_len;
        within = omega (arith, v.within);
      },
      refl,
      refl,
      subst (λ n. take n (kept ++ drop (length kept) zeros) ≡ kept)
          (omega (arith, v.sized, v.within, kept_len))
          (take-append kept (drop (length kept) zeros)),
    )

push_grown :
    (bytes : List ℕ) (b : Buffer)
    → IsBuffer b
    → b.len + length bytes ≤ b.size
    → (b' : Buffer) × ((memcpy b.block b.len bytes >>= λ block. some (record b { block = block }))
        ≡ some b')
      × IsBuffer b'
      × (b'.len ≡ b.len)
      × (b'.size ≡ b.size)
      × (b'.block ≡ take b.len b.block ++ bytes ++ drop (b.len + length bytes) b.block)
push_grown bytes b v h =
    let e = memcpy_fits b.block b.len bytes (omega (arith, v.sized)) in
    (
      _,
      rw e refl,
      record { sized = length-memcpy b.block b.len bytes _ e ∙ v.sized; within = v.within },
      refl,
      refl,
      refl,
    )

push_back_small :
    (bytes : List ℕ) (b : Buffer)
    → b.size < 2 ^ 30
    → push_back bytes b ≡ (
        (if ltb (2 * b.size / 3) (length bytes + b.len) then expand b else some b) >>= λ grown.
        memcpy grown.block grown.len bytes >>= λ block. some (record grown { block = block }))
unfolding push_back
push_back_small bytes b small =
    ap
      (λ d. d >>= λ twice.
        (if ltb (twice / 3) (length bytes + b.len) then expand b else some b) >>= λ grown.
        memcpy grown.block grown.len bytes >>= λ block. some (record grown { block = block }))
      (doubled_lem b.size small)

-- A push that fits into twice the recorded size, which is below 2 ^ 30, succeeds and keeps the invariant,
-- and the block is doubled exactly if the push comes beyond two thirds of it: the bytes follow what stood
-- below `_len`, and `_len` itself is left as it was.
pub push_back-fits :
    (bytes : List ℕ) (b : Buffer)
    → IsBuffer b
    → b.size < 2 ^ 30
    → b.len + length bytes ≤ 2 * b.size
    → (b' : Buffer) × (push_back bytes b ≡ some b')
      × IsBuffer b'
      × (b'.len ≡ b.len)
      × (b'.size ≡ (if ltb (2 * b.size / 3) (length bytes + b.len) then 2 * b.size else b.size))
      × (rest : List ℕ) × (b'.block ≡ take b.len b.block ++ bytes ++ rest)
push_back-fits bytes b v small h = elim (Bool-cases (ltb (2 * b.size / 3) (length bytes + b.len))) [
  | inl grows ↦
      let (g, e, v', size', len', kept) = expand_lem b v small in
      let (b', done, v'', len'', size'', block') = push_grown bytes g v' (omega arith) in
      (
        b',
        rw (push_back_small bytes b small, grows) (rw e done),
        v'',
        len'' ∙ len',
        size'' ∙ size' ∙ rw grows refl,
        drop (b.len + length bytes) g.block,
        block' ∙ rw len' (rw kept refl),
      )
  | inr stays ↦
      let (b', done, v'', len'', size'', block') = push_grown bytes b v (ground arith) in
      (
        b',
        rw (push_back_small bytes b small, stays) done,
        v'',
        len'',
        size'' ∙ rw stays refl,
        drop (b.len + length bytes) b.block,
        block',
      )
]

push_back-beyond :
    (bytes : List ℕ) (b : Buffer)
    → IsBuffer b
    → b.size < 2 ^ 30
    → 2 * b.size < b.len + length bytes
    → push_back bytes b ≡ none
push_back-beyond bytes b v small h =
    let grows : ltb (2 * b.size / 3) (length bytes + b.len) ≡ true = ground arith in
    let (g, e, v', size', len', _) = expand_lem b v small in
    rw (push_back_small bytes b small, grows)
      (rw e (rw (memcpy_beyond g.block g.len bytes (omega (arith, v'.sized))) refl))

-- A push that is longer than twice the recorded size writes beyond the block, since the buffer is
-- doubled only once; from a size of 2 ^ 30 on the size overflows.
pub push_back-overflow :
    (bytes : List ℕ) (b : Buffer)
    → IsBuffer b
    → 2 * b.size < b.len + length bytes
    → push_back bytes b ≡ none
unfolding push_back doubled
push_back-overflow bytes b v h = elim (Bool-cases (ltb b.size (2 ^ 30))) [
  | inl small ↦ push_back-beyond bytes b v (ltb→lt _ _ small) h
  | inr large ↦ let too_large : doubled b.size ≡ none = ground (arith, large) in rw too_large refl
]
