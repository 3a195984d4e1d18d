-- ===== src/Config/Files.antt =====
-- config.cpp: whole files.
use seda_framework.Base.{
  ℕ, suc, ◌≤◌, ◌<◌, ◌≡◌, ◌≢◌, refl, sym, ap, ◌∙◌, false, some, List, [], ◌∷◌, ◌++◌, length,
  length-append, append_assoc, append-nil, All, All-append, arith,
}
use seda_framework.Base.Memory.{NoZero}
use seda_framework.Base.Dictionary.{Text}
use seda_framework.Base.Texts.{split_once_lem}
use seda_framework.Config.{
  StageConfig, Parsing, crashed, goes_on, resource_word, destination_word, is_empty, set_field,
  field_line, config_line, then_read, config_loop, start, read_config,
}
use seda_framework.Config.Lines.{config_loop_enough, config_loop_line}

-- What a file describes: remarks, and stages in the two lines that they take.
pub data Item : Type 0 where
  remark : Text → Item
  stage : (res des : Text) → Item

-- The bytes of the items in front of `rest`.
abbrev pub printed : List Item → List ℕ → List ℕ
printed [] rest = rest
printed (remark text ∷ items) rest = b'#' ∷ (text ++ 10 ∷ printed items rest)
printed (stage res des ∷ items) rest =
    (resource_word ++ b'=' ∷ res)
    ++ 10 ∷ ((destination_word ++ b'=' ∷ des) ++ 10 ∷ printed items rest)

-- The stages as they are read: with the line feed behind each text.
abbrev pub read_stages : List Item → List StageConfig
read_stages [] = []
read_stages (remark text ∷ items) = read_stages items
read_stages (stage res des ∷ items) =
    record { res = res ++ 10 ∷ []; des = des ++ 10 ∷ [] } ∷ read_stages items

-- A text within a line that fits the buffer.
abbrev pub IsPlain : Text → Type 0
IsPlain text = All (λ c. c ≢ 10) text × NoZero text × (length text ≤ 242)

abbrev pub IsItem : Item → Type 0
IsItem (remark text) = IsPlain text
IsItem (stage res des) = IsPlain res × IsPlain des

is_empty_line : (text : Text) → is_empty (text ++ 10 ∷ []) ≡ false
is_empty_line [] = refl
is_empty_line (c ∷ text) = refl

-- Between two items.
abbrev pub between : List StageConfig → Parsing
between cs = record { res = []; des = []; config = cs }

-- The two lines of a stage.
config_line_resource :
    (text : Text) (cs : List StageConfig)
    → config_line
        ((resource_word ++ b'=' ∷ text) ++ 10 ∷ [])
        (record { res = []; des = []; config = cs })
      ≡ goes_on (record { res = text ++ 10 ∷ []; des = []; config = cs })
unfolding config_line set_field
config_line_resource text cs =
    ap (λ o. field_line o (between cs))
      (split_once_lem b'=' resource_word (text ++ 10 ∷ []) (omega arith))
    ∙ rw (is_empty_line text) refl

config_line_destination :
    (res text : Text) (cs : List StageConfig)
    → config_line
        ((destination_word ++ b'=' ∷ text) ++ 10 ∷ [])
        (record { res = res ++ 10 ∷ []; des = []; config = cs })
      ≡ goes_on (record {
        res = [];
        des = [];
        config = cs ++ record { res = res ++ 10 ∷ []; des = text ++ 10 ∷ [] } ∷ [];
      })
unfolding config_line set_field
config_line_destination res text cs =
    ap (λ o. field_line o (record { res = res ++ 10 ∷ []; des = []; config = cs }))
      (split_once_lem b'=' destination_word (text ++ 10 ∷ []) (omega arith))
    ∙ rw (is_empty_line res, is_empty_line text) refl

-- A line with a word and `=` in front of a text.
word_line :
    (word text : Text)
    → All (λ c. c ≢ 10) word
    → NoZero word
    → length word ≤ 11
    → IsPlain text
    → All (λ c. c ≢ 10) (word ++ b'=' ∷ text)
      × NoZero (word ++ b'=' ∷ text)
      × (length (word ++ b'=' ∷ text) < 255)
word_line word text h nz short plain = (
  All-append (λ c. c ≢ 10) word (b'=' ∷ text) h ((λ z. ground arith), plain.0),
  All-append (λ c. c ≢ 0) word (b'=' ∷ text) nz ((λ z. ground arith), plain.1),
  omega (arith, length-append word (b'=' ∷ text), short, plain.2),
)

-- The rounds that the items take, and `n` more.
abbrev rounds : List Item → ℕ → ℕ
rounds [] n = n
rounds (remark text ∷ items) n = suc (rounds items n)
rounds (stage res des ∷ items) n = suc (suc (rounds items n))

rounds_more : (items : List Item) (n : ℕ) → n ≤ rounds items n
rounds_more [] n = omega arith
rounds_more (remark text ∷ items) n = omega (arith, rounds_more items n)
rounds_more (stage res des ∷ items) n = omega (arith, rounds_more items n)

config_loop_items :
    (items : List Item) (n : ℕ) (rest : List ℕ) (cs : List StageConfig)
    → All IsItem items
    → config_loop (rounds items n) (printed items rest) (between cs)
      ≡ config_loop n rest (between (cs ++ read_stages items))
unfolding config_loop
config_loop_items [] n rest cs h = ap (λ xs. config_loop n rest (between xs)) (sym (append-nil cs))
config_loop_items (remark text ∷ items) n rest cs h =
    config_loop_line (rounds items n) (b'#' ∷ text) (printed items rest) (between cs)
      ((λ z. ground arith), h.0.0) ((λ z. ground arith), h.0.1) (omega (arith, h.0.2))
    ∙ config_loop_items items n rest cs h.1
config_loop_items (stage res des ∷ items) n rest cs h =
    let (r1, r2, r3) =
      word_line resource_word res (omega arith) (omega arith) (omega arith) h.0.0 in
    let (d1, d2, d3) =
      word_line destination_word des (omega arith) (omega arith) (omega arith) h.0.1 in
    let tail = (destination_word ++ b'=' ∷ des) ++ 10 ∷ printed items rest in
    config_loop_line (suc (rounds items n)) (resource_word ++ b'=' ∷ res) tail (between cs) r1 r2 r3
    ∙ ap (λ o. then_read o (λ c'. config_loop (suc (rounds items n)) tail c'))
        (config_line_resource res cs)
    ∙ config_loop_line (rounds items n) (destination_word ++ b'=' ∷ des) (printed items rest)
        (record { res = res ++ 10 ∷ []; des = []; config = cs }) d1 d2 d3
    ∙ ap (λ o. then_read o (λ c'. config_loop (rounds items n) (printed items rest) c'))
        (config_line_destination res des cs)
    ∙ config_loop_items items n rest
        (cs ++ record { res = res ++ 10 ∷ []; des = des ++ 10 ∷ [] } ∷ []) h.1
    ∙ ap (λ xs. config_loop n rest (between xs))
        (append_assoc cs (record { res = res ++ 10 ∷ []; des = des ++ 10 ∷ [] } ∷ [])
          (read_stages items))

-- The rounds of read_config are enough for the items and `n` more.
read_config-rounds :
    (items : List Item) (rest : List ℕ) (n : ℕ)
    → length (printed items rest) < rounds items n
    → All IsItem items
    → read_config (printed items rest) ≡ config_loop n rest (between (read_stages items))
unfolding read_config
read_config-rounds items rest n lt h =
    config_loop_enough (suc (length (printed items rest))) (rounds items n) (printed items rest)
      start (omega arith) lt
    ∙ config_loop_items items n rest [] h

-- The parser that stands behind the constructor's return, on a file of remarks that start with `#` and
-- of stages, a `resource=` line and a `destination=` line each, whose texts, behind `#` or `=`, have at
-- most 242 bytes, none of them zero or a line feed: it reads the file to its end, the stages are found
-- in their order, and each of their texts keeps the line feed that fgets leaves in the line; but
-- with an empty line behind them, whatever follows, the loop writes through the null pointer that
-- strchr gives.
pub read_config-printed :
    (items : List Item) (rest : List ℕ)
    → All IsItem items
    → (read_config (printed items []) ≡ some (goes_on (between (read_stages items))))
      × (read_config (printed items (10 ∷ rest)) ≡ some crashed)
unfolding config_loop
read_config-printed items rest h =
    let n = suc (length (printed items [])) in
    let m = suc (length (printed items (10 ∷ rest))) in
    (
      read_config-rounds items [] n (rounds_more items n) h,
      read_config-rounds items (10 ∷ rest) m (rounds_more items m) h,
    )
