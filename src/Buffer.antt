-- ===== src/Buffer.antt =====
-- buffer.h and buffer.cpp: the growing byte buffer. `calloc` is taken to succeed. `none` is an access
-- out of bounds, or an `int` that overflows.
use seda_framework.Base.{
  ℕ, suc, ◌+◌, ◌-◌, ◌*◌, ◌/◌, Option, some, none, List, ◌++◌, length, take, replicate, ltb,
  if◌then◌else◌, ◌^◌,
}
use seda_framework.Base.Memory.{◌>>=◌, memcpy}
pub mod Growth
mod Tests

-- #define BUFSIZE 1024 (marcos.h)
abbrev pub buf_size : ℕ
buf_size = 1024

-- class buffer: the block at `_ptr`, `_size` and `_len`.
pub record Buffer : Type 0 where
  pub block : List ℕ
  pub size : ℕ
  pub len : ℕ

-- buffer::buffer
abbrev pub new_buffer : Buffer
new_buffer = record { block = replicate buf_size 0; size = buf_size; len = 0 }

-- buffer::length and buffer::ptr
abbrev pub buffer_length : Buffer → ℕ
buffer_length b = b.len

abbrev pub ptr : Buffer → List ℕ
ptr b = b.block

-- `2 * _size`, which is an `int`
unfoldable pub doubled : ℕ → Option ℕ
doubled size = if ltb size (2 ^ 30) then some (2 * size) else none

-- buffer::expand, which returns true
unfoldable pub expand : Buffer → Option Buffer
unfolding memcpy doubled
expand b = do
  new_size ← doubled b.size
  block ← memcpy (replicate new_size 0) 0 (take b.len b.block)
  some (record b { block = block; size = new_size })

-- buffer::push_back of the bytes at `buf`, `len` of them. It does not change `_len`.
unfoldable pub push_back : List ℕ → Buffer → Option Buffer
unfolding expand memcpy doubled
push_back bytes b = do
  twice ← doubled b.size
  grown ← (if ltb (twice / 3) (length bytes + b.len) then expand b else some b)
  block ← memcpy grown.block grown.len bytes
  some (record grown { block = block })
