-- ===== src/Trie/Tests.antt =====
-- trie/trie.go: runs of the trie on small inputs.
use padi_chain.Base.{
  ℕ, ◌≡◌, refl, inr, true, List, [], ◌∷◌, Option, some, ◌==◌, if◌then◌else◌, arith, Result, ok, err,
}
use padi_chain.Trie.Nodes.{
  Node, nil, value_node, short_node, full_node, hash_node, Error, missing_node, key_to_nibbles,
  trie_get, trie_update,
}
use padi_chain.Trie.Paths.{Walk}
use padi_chain.Trie.Trees.{Tree, leaf, path, find, WellAt, Loads}
use padi_chain.Trie.Roots.{
  with_value, latest, update_all, Holds, trie_get-Holds, trie_update-Holds, trie_get-update_all,
}
use padi_chain.Trie.Compact.{
  hex_prefix_encode, hex_prefix_decode, end_of, nibbles_to_key, nibbles_to_key-key_to_nibbles,
  hex_prefix_decode-hex_prefix_encode,
}

-- A store with one node, under 7.
abbrev stored : ℕ → Result Error Node
stored h =
    if h == 7 then ok (short_node (0 ∷ 1 ∷ 16 ∷ []) (value_node (9 ∷ []))) else err missing_node

abbrev one_value : Tree
one_value = path (0 ∷ 1 ∷ 16 ∷ []) (leaf (9 ∷ []))

abbrev held : List ℕ → Option (List ℕ)
held key = find one_value (key_to_nibbles key)

root-Holds : Holds stored (hash_node 7) held
unfolding Holds WellAt Loads Walk
root-Holds = (
  one_value,
  (true, omega arith, (refl, omega arith, (refl, omega arith, (refl, omega arith, refl))), refl),
  (value_node (9 ∷ []), inr (7, refl, refl), refl),
  λ key bytes. refl,
)

trie_get-Holds_example :
    (after : Node) × (trie_get stored (hash_node 7) (1 ∷ []) ≡ ok (held (1 ∷ []), after))
    × Holds stored after held
trie_get-Holds_example =
    trie_get-Holds stored (hash_node 7) held (1 ∷ []) root-Holds (omega arith, tt)

trie_update-Holds_example :
    (after : Node) × (trie_update stored (hash_node 7) (2 ∷ []) (5 ∷ []) ≡ ok after)
    × Holds stored after (with_value held (2 ∷ []) (5 ∷ []))
trie_update-Holds_example =
    trie_update-Holds stored (hash_node 7) held (2 ∷ []) (5 ∷ []) root-Holds (omega arith, tt)

-- Three keys, of which one is deleted at last.
abbrev three : List (List ℕ × List ℕ)
three = (1 ∷ [], []) ∷ (2 ∷ [], 5 ∷ []) ∷ (1 ∷ 3 ∷ [], 6 ∷ []) ∷ (1 ∷ [], 4 ∷ []) ∷ []

trie_get-update_all_example :
    (root : Node) × (after : Node) × (update_all stored nil three ≡ ok root)
    × (trie_get stored root (2 ∷ []) ≡ ok (latest three (2 ∷ []), after))
trie_get-update_all_example =
    trie_get-update_all stored three (2 ∷ [])
      (
        (omega arith, tt),
        ((omega arith, tt), ((omega arith, (omega arith, tt)), ((omega arith, tt), tt))),
      )
      (omega arith, tt)

latest_test : latest three (2 ∷ []) ≡ some (5 ∷ [])
unfolding latest with_value padi_chain.Trie.Nodes.bytes_equal
latest_test = refl

hex_prefix_decode-hex_prefix_encode_example :
    (bytes : List ℕ) × (hex_prefix_encode (1 ∷ 15 ∷ 3 ∷ end_of true) ≡ ok bytes)
    × (hex_prefix_decode bytes ≡ ok (1 ∷ 15 ∷ 3 ∷ end_of true))
hex_prefix_decode-hex_prefix_encode_example =
    hex_prefix_decode-hex_prefix_encode (1 ∷ 15 ∷ 3 ∷ []) true
      (omega arith, (omega arith, (omega arith, tt)))

nibbles_to_key-key_to_nibbles_example :
    nibbles_to_key (key_to_nibbles (18 ∷ 255 ∷ [])) ≡ 18 ∷ 255 ∷ []
nibbles_to_key-key_to_nibbles_example =
    nibbles_to_key-key_to_nibbles (18 ∷ 255 ∷ []) (omega arith, (omega arith, tt))
