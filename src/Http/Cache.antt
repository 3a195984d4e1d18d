-- ===== src/Http/Cache.antt =====
-- http_server.cpp, checkCache: an answer from the page cache, which is a SplayTree of pages. The
-- caller of checkCache gives it the parsed request, of which it uses the URL and the body.
use seda_framework.Base.{
  ℕ, ◌≡◌, ◌≢◌, refl, sym, ◌∙◌, Option, none, some, List, [], ◌∷◌, ◌++◌, arith, ◌==◌, if◌then◌else◌,
}
use seda_framework.Base.Memory.{◌>>=◌, memcpy, c_string}
use seda_framework.Base.Dictionary.{Text}
use seda_framework.SplayTree.{SplayTree, null, node, splaytree_splay}
use seda_framework.SplayTree.Content.{entries, entries-splay}
use seda_framework.SplayTree.Order.{AllKeys, IsSorted}
use seda_framework.SplayTree.Spec.{lookup}
use seda_framework.SplayTree.Search.{at_root, at_root-splay}

-- hashUrl
abbrev pub hash_url : Text → ℕ
hash_url url = 0

-- checkCache by the node that it looks at: the body, into which the page's C string is copied.
unfoldable pub answer_from : SplayTree (List ℕ) → List ℕ → Option (List ℕ)
answer_from null body = some body
answer_from (node a k s page b) body = c_string page >>= λ text. memcpy body 0 text

unfoldable pub check_cache : SplayTree (List ℕ) → Text → List ℕ → Option (List ℕ)
unfolding answer_from splaytree_splay
check_cache root url body = answer_from (splaytree_splay root (hash_url url)) body

-- What the tree below a node says of the page that stands there.
answer_from_lem :
    (t : SplayTree (List ℕ)) (body : List ℕ)
    → entries t ≢ []
    → (k : ℕ) × (page : List ℕ) × (before after : List (ℕ × List ℕ)) × (entries t
        ≡ before ++ (k, page) ∷ after)
      × (answer_from t body ≡ (c_string page >>= λ text. memcpy body 0 text))
      × (at_root 0 t ≡ (if k == 0 then some page else none))
unfolding answer_from
answer_from_lem null body h = absurd (h refl)
answer_from_lem (node a k s page b) body h = (k, page, entries a, entries b, refl, refl, refl)

-- An ordered cache that holds any page answers every URL with one: with the page of key 0 if it has
-- one, and otherwise with the page of some other key.
pub check_cache_lem :
    (root : SplayTree (List ℕ)) (url : Text) (body : List ℕ)
    → AllKeys (entries root)
    → IsSorted (entries root)
    → entries root ≢ []
    → (k : ℕ) × (page : List ℕ) × (before after : List (ℕ × List ℕ)) × (entries root
        ≡ before ++ (k, page) ∷ after)
      × (check_cache root url body ≡ (c_string page >>= λ text. memcpy body 0 text))
      × (lookup 0 (entries root) ≡ (if k == 0 then some page else none))
unfolding check_cache
check_cache_lem root url body keys sorted some_page =
    let same = entries-splay root 0 in
    let (k, page, before, after, at, answer, top) =
      answer_from_lem (splaytree_splay root 0) body (λ e. some_page (sym same ∙ e)) in
    (
      k,
      page,
      before,
      after,
      sym same ∙ at,
      answer,
      sym (at_root-splay root 0 (omega arith) keys sorted) ∙ top,
    )
