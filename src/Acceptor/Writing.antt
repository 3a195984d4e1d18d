-- ===== src/Acceptor/Writing.antt =====
-- acceptor.cpp, write_conn and writeBody: what a client receives.
use seda_framework.Base.{
  ℕ, zero, suc, ◌+◌, ◌-◌, ◌*◌, ◌≤◌, ◌<◌, ◌≡◌, refl, ap, sym, ◌∙◌, subst, inl, inr, Option, some,
  none, List, [], ◌∷◌, ◌++◌, length, length-append, length-take, length-drop, length-replicate,
  take, drop, replicate, arith, All-append, append_assoc, ltb, Bool-cases,
}
use seda_framework.Base.Segments.{take-add, take_all, drop_all}
use seda_framework.Base.Memory.{NoZero, c_string, c_string-append, drop-add}
use seda_framework.Base.Dictionary.{Text}
use seda_framework.Http.{Request}
use seda_framework.Acceptor.Requests.{drop-zeros}
use seda_framework.Acceptor.{file_name, body_loop, write_body, write_loop}

-- The pieces one after the other.
abbrev pub joined : List (List ℕ) → List ℕ
joined [] = []
joined (piece ∷ pieces) = piece ++ joined pieces

-- What the calls of `write` take until one fails.
abbrev pub taken : List (Option ℕ) → ℕ
taken [] = 0
taken (none ∷ more) = 0
taken (some nwrite ∷ more) = nwrite + taken more

write_loop-joined :
    (nwrites : List (Option ℕ)) (rsp : List ℕ) (len : ℕ)
    → len ≤ length rsp
    → taken nwrites ≤ len
    → joined (write_loop nwrites rsp len) ≡ take (taken nwrites) (drop (length rsp - len) rsp)
unfolding write_loop
write_loop-joined [] rsp len h t = refl
write_loop-joined (none ∷ more) rsp len h t = refl
write_loop-joined (some nwrite ∷ more) rsp len h t =
    let next : length rsp - (len - nwrite) ≡ length rsp - len + nwrite = omega (arith, h, t) in
    let rest =
      write_loop-joined more rsp (len - nwrite) (omega (arith, h)) (omega (arith, t))
      ∙ ap (take (taken more))
          (ap (λ k. drop k rsp) next ∙ drop-add (length rsp - len) nwrite rsp) in
    elim (Bool-cases (ltb 0 len)) [
      | inl more_left ↦ rw more_left (
          ap (◌++◌ (take nwrite (drop (length rsp - len) rsp))) rest
          ∙ sym (take-add nwrite (taken more) (drop (length rsp - len) rsp)))
      | inr done ↦
          let none_taken : nwrite + taken more ≡ 0 = ground (arith, t) in rw (done, none_taken) refl
    ]

-- If the calls of `write` take no more than there is, the client receives the start of the response,
-- in order and without gaps, of as many bytes as they take in all.
pub write_loop-prefix :
    (nwrites : List (Option ℕ)) (rsp : List ℕ)
    → taken nwrites ≤ length rsp
    → joined (write_loop nwrites rsp (length rsp)) ≡ take (taken nwrites) rsp
write_loop-prefix nwrites rsp h =
    let start : length rsp - length rsp ≡ 0 = omega arith in
    write_loop-joined nwrites rsp (length rsp) (omega arith) h
    ∙ ap (λ k. take (taken nwrites) (drop k rsp)) start

take-NoZero : (n : ℕ) (xs : List ℕ) → NoZero xs → NoZero (take n xs)
take-NoZero zero xs h = tt
take-NoZero (suc n) [] h = tt
take-NoZero (suc n) (x ∷ xs) h = (h.0, take-NoZero n xs h.1)

drop-NoZero : (n : ℕ) (xs : List ℕ) → NoZero xs → NoZero (drop n xs)
drop-NoZero zero xs h = h
drop-NoZero (suc n) [] h = tt
drop-NoZero (suc n) (x ∷ xs) h = drop-NoZero n xs h.1

-- The rest of a block behind a chunk that is no longer than what stands before the last byte.
drop-last :
    (n : ℕ) (old : List ℕ) (z : ℕ) → n ≤ length old → drop n (old ++ z ∷ []) ≡ drop n old ++ z ∷ []
drop-last zero old z h = refl
drop-last (suc n) [] z h = absurd (omega arith)
drop-last (suc n) (x ∷ old) z h = drop-last n old z (omega arith)

-- A round over a buffer that was filled before adds 1023 bytes, however few are left in the file.
body_round :
    (rounds : ℕ) (c : ℕ) (rest old rsp_content : List ℕ)
    → NoZero (c ∷ rest)
    → NoZero (drop (length (take 1023 (c ∷ rest))) old)
    → length old ≡ 1023
    → (text : List ℕ) × NoZero text
      × (length text ≡ 1023)
      × (body_loop (suc rounds) (c ∷ rest) (old ++ 0 ∷ []) rsp_content
          ≡ body_loop rounds (drop 1023 (c ∷ rest)) (text ++ 0 ∷ []) (rsp_content ++ text))
unfolding body_loop
body_round rounds c rest old rsp_content nz oz full =
    let chunk : List ℕ = take 1023 (c ∷ rest) in
    let chunk_len = length-take 1023 (c ∷ rest) in
    let text = chunk ++ drop (length chunk) old in
    let text_nz =
      All-append _ chunk (drop (length chunk) old) (take-NoZero 1023 (c ∷ rest) nz) oz in
    let filled : chunk ++ drop (length chunk) (old ++ 0 ∷ []) ≡ text ++ 0 ∷ [] =
      ap (◌++◌ chunk) (drop-last (length chunk) old 0 (omega (arith, full, chunk_len)))
      ∙ sym (append_assoc chunk (drop (length chunk) old) (0 ∷ [])) in
    (
      text,
      text_nz,
      omega (
        arith,
        full,
        chunk_len,
        length-append chunk (drop (length chunk) old),
        length-drop (length chunk) old,
      ),
      rw (ap c_string filled ∙ c_string-append text [] text_nz, filled) refl,
    )

-- So a file that is left over after a full round is padded to a multiple of 1023.
body_loop-padded :
    (rounds : ℕ) (file old rsp_content : List ℕ)
    → NoZero file
    → NoZero old
    → length old ≡ 1023
    → length file ≤ rounds
    → (k : ℕ) × (content : List ℕ) × (body_loop rounds file (old ++ 0 ∷ []) rsp_content
        ≡ some content)
      × (length content ≡ length rsp_content + 1023 * k)
      × (length file ≤ 1023 * k)
      × (1023 * k < length file + 1023)
unfolding body_loop
body_loop-padded zero [] old rsp_content nz oz full h =
    (0, rsp_content, refl, omega arith, omega arith, omega arith)
body_loop-padded zero (c ∷ rest) old rsp_content nz oz full h = absurd (omega arith)
body_loop-padded (suc rounds) [] old rsp_content nz oz full h =
    (0, rsp_content, refl, omega arith, omega arith, omega arith)
body_loop-padded (suc rounds) (c ∷ rest) old rsp_content nz oz full h =
    let (text, text_nz, text_len, e) =
      body_round rounds c rest old rsp_content nz
        (drop-NoZero (length (take 1023 (c ∷ rest))) old oz) full in
    let left = length-drop 1023 (c ∷ rest) in
    let (k, content, e', len, low, high) =
      body_loop-padded rounds (drop 1023 (c ∷ rest)) text (rsp_content ++ text)
        (drop-NoZero 1023 (c ∷ rest) nz) text_nz text_len (omega (arith, h, left)) in
    (
      suc k,
      content,
      e ∙ e',
      omega (arith, len, text_len, length-append rsp_content text),
      omega (arith, low, left),
      omega (arith, high, left),
    )

-- A file of at least 1023 bytes, none of them zero, is sent padded to a multiple of 1023 bytes: the
-- last chunk has the end of the chunk before behind it.
pub write_body-padded :
    (fopen : Text → Option (List ℕ)) (rsp_content : List ℕ) (req : Request) (filename : Text)
    (file : List ℕ)
    → file_name req ≡ some filename
    → fopen filename ≡ some file
    → NoZero file
    → 1023 ≤ length file
    → (k : ℕ) × (content : List ℕ) × (write_body fopen rsp_content req ≡ some content)
      × (length content ≡ length rsp_content + 1023 * k)
      × (length file ≤ 1023 * k)
      × (1023 * k < length file + 1023)
unfolding write_body
write_body-padded fopen rsp_content req filename [] named opened nz h = absurd (omega arith)
write_body-padded fopen rsp_content req filename (c ∷ rest) named opened nz h =
    let zeros : List ℕ = replicate 1023 0 in
    let full : length (take 1023 (c ∷ rest)) ≡ 1023 =
      omega (arith, length-take 1023 (c ∷ rest), h) in
    let left = length-drop 1023 (c ∷ rest) in
    let (text, text_nz, text_len, e) =
      body_round (length rest) c rest zeros rsp_content nz
        (subst (λ n. NoZero (drop n zeros)) (sym full) tt) (length-replicate {A = ℕ} 1023 0) in
    let (k, content, e', len, low, high) =
      body_loop-padded (length rest) (drop 1023 (c ∷ rest)) text (rsp_content ++ text)
        (drop-NoZero 1023 (c ∷ rest) nz) text_nz text_len (omega (arith, left)) in
    (
      suc k,
      content,
      rw (named, opened) (e ∙ e'),
      omega (arith, len, text_len, length-append rsp_content text),
      omega (arith, low, left),
      omega (arith, high, left),
    )

body_loop_end :
    (rounds : ℕ) (buf rsp_content : List ℕ) → body_loop rounds [] buf rsp_content ≡ some rsp_content
unfolding body_loop
body_loop_end zero buf rsp_content = refl
body_loop_end (suc rounds) buf rsp_content = refl

only_round :
    (rounds c : ℕ) (rest rsp_content : List ℕ)
    → NoZero (c ∷ rest)
    → length rest < 1023
    → body_loop (suc rounds) (c ∷ rest) (replicate 1024 0) rsp_content
      ≡ some (rsp_content ++ c ∷ rest)
unfolding body_loop
only_round rounds c rest rsp_content nz h =
    let file : List ℕ = c ∷ rest in
    let all = take_all 1023 file (omega arith) in
    let text : c_string (take 1023 file ++ drop (length (take 1023 file)) (replicate 1024 0))
        ≡ some file =
      ap (λ (chunk : List ℕ). c_string (chunk ++ drop (length chunk) (replicate 1024 0))) all
      ∙ ap (λ zeros. c_string (file ++ zeros)) (drop-zeros 1024 (length file) (omega arith))
      ∙ c_string-append file (drop (suc (length file)) (replicate 1024 0)) nz in
    rw (text, drop_all 1023 file (omega arith)) (body_loop_end rounds _ (rsp_content ++ file))

-- A file of 1 to 1023 bytes, none of them zero, is sent as it is, behind what was there.
pub write_body-small :
    (fopen : Text → Option (List ℕ)) (rsp_content : List ℕ) (req : Request) (filename : Text)
    (c : ℕ) (rest : List ℕ)
    → file_name req ≡ some filename
    → fopen filename ≡ some (c ∷ rest)
    → NoZero (c ∷ rest)
    → length rest < 1023
    → write_body fopen rsp_content req ≡ some (rsp_content ++ c ∷ rest)
unfolding write_body
write_body-small fopen rsp_content req filename c rest named opened nz h =
    rw (named, opened) (only_round (length rest) c rest rsp_content nz h)
