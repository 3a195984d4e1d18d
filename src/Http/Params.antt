-- ===== src/Http/Params.antt =====
-- http_request.cpp, get_params: what it reads of a form, and where it fails.
use seda_framework.Base.{
  ℕ, ◌≤◌, ◌<◌, ◌≡◌, ◌≢◌, refl, ap, ◌∙◌, inl, inr, true, false, some, none, List, [], ◌∷◌, ◌++◌,
  ◌==◌, append-nil, map, Option-cases, arith, take, length, length-take, length-replicate,
  replicate, All,
}
use seda_framework.Base.Memory.{memcpy, memcpy_start, memcpy_beyond, c_string-append, NoZero}
use seda_framework.Base.Dictionary.{Text, insert}
use seda_framework.Base.Texts.{split_once_lem, split_once-none}
use seda_framework.Http.{split_on, get_param, get_param_list, get_params}

-- A parameter as it is sent, and the ones behind it.
abbrev pub field : Text × Text → Text
field kv = kv.0 ++ b'=' ∷ kv.1

abbrev pub fields : List (Text × Text) → Text
fields [] = []
fields (kv ∷ kvs) = b'&' ∷ (field kv ++ fields kvs)

-- The key holds no `=`, and neither part an `&`.
abbrev pub IsField : Text × Text → Type 0
IsField kv = All (λ b. b ≢ b'=') kv.0 × All (λ b. b ≢ b'&') (field kv)

-- The dictionary with the parameters put in, in their order.
abbrev pub insert_all : List (Text × Text) → List (Text × Text) → List (Text × Text)
insert_all [] params = params
insert_all ((k, v) ∷ kvs) params = insert_all kvs (insert k v params)

-- The parts of a text that begins with a part without `c`.
split_on_last : (c : ℕ) (part : Text) → All (λ b. b ≢ c) part → split_on c part ≡ (part, [])
unfolding split_on
split_on_last c [] h = refl
split_on_last c (b ∷ part) h =
    let other : (b == c) ≡ false = ground (arith, h.0) in rw (split_on_last c part h.1, other) refl

split_on_part :
    (c : ℕ) (part ys : Text)
    → All (λ b. b ≢ c) part
    → split_on c (part ++ c ∷ ys) ≡ (part, (split_on c ys).0 ∷ (split_on c ys).1)
unfolding split_on
split_on_part c [] ys h = let same : (c == c) ≡ true = ground arith in rw same refl
split_on_part c (b ∷ part) ys h =
    let other : (b == c) ≡ false = ground (arith, h.0) in
    rw (split_on_part c part ys h.1, other) refl

split_on-fields :
    (kv : Text × Text) (kvs : List (Text × Text))
    → IsField kv
    → All IsField kvs
    → split_on b'&' (field kv ++ fields kvs) ≡ (field kv, map field kvs)
split_on-fields kv [] h hs =
    ap (split_on b'&') (append-nil (field kv)) ∙ split_on_last b'&' (field kv) h.1
split_on-fields kv (kv' ∷ kvs) h hs =
    split_on_part b'&' (field kv) (field kv' ++ fields kvs) h.1
    ∙ rw (split_on-fields kv' kvs hs.0 hs.1) refl

get_param_list_fields :
    (kvs : List (Text × Text)) (params : List (Text × Text))
    → All IsField kvs
    → get_param_list (map field kvs) params ≡ some (insert_all kvs params)
unfolding get_param_list get_param
get_param_list_fields [] params hs = refl
get_param_list_fields ((k, v) ∷ kvs) params hs =
    rw (split_once_lem b'=' k v hs.0.0) (get_param_list_fields kvs (insert k v params) hs.1)

-- A form that ends in a zero byte, of which at most 128 bytes are announced, is read back: its
-- parameters are put into the dictionary in their order, a repeated key keeping its first value.
pub get_params-fields :
    (kv : Text × Text) (kvs : List (Text × Text)) (rest : List ℕ) (len : ℕ)
    (params : List (Text × Text))
    → IsField kv
    → All IsField kvs
    → NoZero (field kv ++ fields kvs)
    → len ≤ 128
    → get_params (field kv ++ fields kvs ++ 0 ∷ rest) len params
      ≡ some (insert_all (kv ∷ kvs) params)
unfolding get_params
get_params-fields kv kvs rest len params h hs nz within =
    let block = field kv ++ fields kvs ++ 0 ∷ rest in
    let zeros : List ℕ = replicate 128 0 in
    let zeros_len = length-replicate {A = ℕ} 128 0 in
    let fits =
      memcpy_start zeros (take len block)
        (omega (arith, zeros_len, length-take len block, within)) in
    rw (fits, c_string-append (field kv ++ fields kvs) rest nz, split_on-fields kv kvs h hs)
      (get_param_list_fields (kv ∷ kvs) params (h, hs))

-- A form of which more than 128 bytes are announced overflows `t_content`.
pub get_params-overflow :
    (block : List ℕ) (len : ℕ) (params : List (Text × Text))
    → 128 < len
    → len ≤ length block
    → get_params block len params ≡ none
unfolding get_params
get_params-overflow block len params h within =
    let zeros : List ℕ = replicate 128 0 in
    let zeros_len = length-replicate {A = ℕ} 128 0 in
    rw
      (memcpy_beyond zeros 0 (take len block)
        (omega (arith, zeros_len, length-take len block, within)))
      refl

-- On a form of one part without `=`, get_params writes through a null pointer.
pub get_params-null :
    (text rest : List ℕ) (len : ℕ) (params : List (Text × Text))
    → All (λ b. b ≢ b'=') text
    → All (λ b. b ≢ b'&') text
    → NoZero text
    → get_params (text ++ 0 ∷ rest) len params ≡ none
unfolding get_params get_param_list get_param
get_params-null text rest len params no_eq no_and nz =
    elim (Option-cases (memcpy (replicate 128 0) 0 (take len (text ++ 0 ∷ rest)))) [
      | inl bad ↦ rw bad refl
      | inr (t_content, good) ↦
          rw
            (
              good,
              c_string-append text rest nz,
              split_on_last b'&' text no_and,
              split_once-none b'=' text no_eq,
            )
            refl
    ]
