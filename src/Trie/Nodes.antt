-- ===== src/Trie/Nodes.antt =====
-- trie/trie.go: the nodes, and Get, Update and Delete. A nibble is a number up to 16, which is the
-- terminator; a hash is the number of its bytes. What nodeFlag caches is left out, as no operation
-- here reads it, and so is the count of unhashed changes, which only Commit resets.
use padi_chain.Base.{
  ℕ, zero, suc, ◌+◌, ◌*◌, ◌/◌, ◌%◌, Bool, true, false, not, ◌&&◌, List, [], ◌∷◌, ◌++◌, Option, none,
  some, ◌==◌, if◌then◌else◌, length, Result, ok, err, panic, ◌>>=◌,
}

pub data Error : Type 0 where
  missing_node invalid_node : Error

-- node: nil, valueNode, shortNode, fullNode with its child at each nibble, and hashNode.
pub data Node : Type 0 where
  nil : Node
  value_node : List ℕ → Node
  short_node : List ℕ → Node → Node
  full_node : (ℕ → Node) → Node
  hash_node : ℕ → Node

-- bytes.Equal
unfoldable pub bytes_equal : List ℕ → List ℕ → Bool
bytes_equal [] [] = true
bytes_equal [] (y ∷ b) = false
bytes_equal (x ∷ a) [] = false
bytes_equal (x ∷ a) (y ∷ b) = (x == y) && bytes_equal a b

-- What is left of a key behind a path, if it starts with the path.
unfoldable pub strip : List ℕ → List ℕ → Option (List ℕ)
strip [] key = some key
strip (x ∷ path) [] = none
strip (x ∷ path) (y ∷ key) = if x == y then strip path key else none

-- commonPrefixLen, as the slices that are taken at it: what two paths share, and the rest of each.
unfoldable pub common_prefix : List ℕ → List ℕ → List ℕ × List ℕ × List ℕ
common_prefix [] b = ([], [], b)
common_prefix (x ∷ a) [] = ([], x ∷ a, [])
common_prefix (x ∷ a) (y ∷ b) =
    let (shared, rest_a, rest_b) = common_prefix a b in
    if x == y then (x ∷ shared, rest_a, rest_b) else ([], x ∷ a, y ∷ b)

-- keyToNibbles
unfoldable pub key_to_nibbles : List ℕ → List ℕ
key_to_nibbles [] = 16 ∷ []
key_to_nibbles (x ∷ key) = (x / 16) ∷ (x % 16) ∷ key_to_nibbles key

-- `n.children[i] = child`
unfoldable pub set_child : (ℕ → Node) → ℕ → Node → ℕ → Node
set_child children i child j = if j == i then child else children j

unfoldable pub no_children : ℕ → Node
no_children i = nil

unfoldable pub is_nil : Node → Bool
is_nil nil = true
is_nil _ = false

-- The loop over the children, here from the last of k to the first: the only one, if there is one.
unfoldable pub only_child : ℕ → (ℕ → Node) → Option ℕ → Option ℕ
only_child zero children seen = seen
only_child (suc k) children none =
    only_child k children (if is_nil (children k) then none else some k)
only_child (suc k) children (some i) =
    if is_nil (children k) then only_child k children (some i) else none

-- Whether a value at the end of a key changes.
unfoldable pub overwrites : Node → Node → Result Error Bool
overwrites (value_node old) (value_node new) = ok (not (bytes_equal old new))
overwrites (value_node old) _ = panic
overwrites _ value = ok true

-- A short node in front of another becomes one with it.
unfoldable pub join : List ℕ → Node → Node
join path (short_node rest child) = short_node (path ++ rest) child
join path child = short_node path child

-- `if match == 0 { return branch }`
unfoldable pub extension : List ℕ → Node → Node
extension [] branch = branch
extension (x ∷ path) branch = short_node (x ∷ path) branch

-- The node, with what a lookup found on its way put in.
unfoldable pub cached : Bool → Node → Node → Node
cached true with_child n = with_child
cached false with_child n = n

-- The result of a change below a node: if nothing changed, the node as it was.
unfoldable pub changed : Bool × Node → Node → (Node → Node) → Bool × Node
changed (true, child) n rebuild = (true, rebuild child)
changed (false, child) n rebuild = (false, n)

-- The child that is left, with its nibble in front of its path.
unfoldable pub pull_up : ℕ → Node → Node → Node
pull_up i (short_node path below) unresolved = short_node (i ∷ path) below
pull_up i _ unresolved = short_node (i ∷ []) unresolved

-- The store: resolveHash. A recursion has a fuel, and running out of it counts as a panic, as does an
-- index past the end of a key.
module _ (resolve_hash : ℕ → Result Error Node) where
  -- get, by what is left of the key; the value, the node as cached, and whether it was resolved.
  unfoldable pub get : ℕ → Node → List ℕ → Result Error (Option (List ℕ) × Node × Bool)
  get zero n key = panic
  get (suc fuel) nil key = ok (none, nil, false)
  get (suc fuel) (value_node v) key = ok (some v, value_node v, false)
  get (suc fuel) (short_node path child) key = elim (strip path key) [
    | none ↦ ok (none, short_node path child, false)
    | some rest ↦ get fuel child rest >>= λ r.
        ok (r.0, cached r.2 (short_node path r.1) (short_node path child), r.2)
  ]
  get (suc fuel) (full_node children) [] = panic
  get (suc fuel) (full_node children) (x ∷ rest) = get fuel (children x) rest >>= λ r.
      ok (r.0, cached r.2 (full_node (set_child children x r.1)) (full_node children), r.2)
  get (suc fuel) (hash_node h) key =
      resolve_hash h >>= λ child. (get fuel child key >>= λ r. ok (r.0, r.1, true))

  -- insert, without the prefix, which it only passes on.
  unfoldable pub insert : ℕ → Node → List ℕ → Node → Result Error (Bool × Node)
  insert zero n key value = panic
  insert (suc fuel) n [] value = overwrites n value >>= λ dirty. ok (dirty, value)
  insert (suc fuel) nil (x ∷ key) value = ok (true, short_node (x ∷ key) value)
  insert (suc fuel) (value_node v) (x ∷ key) value = err invalid_node
  insert (suc fuel) (short_node path child) (x ∷ key) value =
      let (shared, rest_path, rest_key) = common_prefix path (x ∷ key) in
      elim rest_path [
        | [] ↦ insert fuel child rest_key value >>= λ r.
            ok (changed r (short_node path child) (λ new. short_node path new))
        | i ∷ path_tail ↦ elim rest_key [
          | [] ↦ panic
          | j ∷ key_tail ↦ insert fuel nil path_tail child >>= λ a.
              (insert fuel nil key_tail value >>= λ b.
              ok (
                true,
                extension shared (full_node (set_child (set_child no_children i a.1) j b.1)),
              ))
        ]
      ]
  insert (suc fuel) (full_node children) (x ∷ key) value =
      insert fuel (children x) key value >>= λ r.
      ok (changed r (full_node children) (λ new. full_node (set_child children x new)))
  insert (suc fuel) (hash_node h) (x ∷ key) value = resolve_hash h >>= λ resolved.
      (insert fuel resolved (x ∷ key) value >>= λ r. ok (changed r resolved (λ new. new)))

  -- resolve
  unfoldable pub resolve : Node → Result Error Node
  resolve (hash_node h) = resolve_hash h
  resolve n = ok n

  -- A branch with one child left becomes a short node.
  unfoldable pub shrink : (ℕ → Node) → Option ℕ → Result Error Node
  shrink children none = ok (full_node children)
  shrink children (some i) =
      if i == 16
      then ok (short_node (16 ∷ []) (children 16))
      else (resolve (children i) >>= λ child. ok (pull_up i child (children i)))

  -- delete, without the prefix.
  unfoldable pub delete : ℕ → Node → List ℕ → Result Error (Bool × Node)
  delete zero n key = panic
  delete (suc fuel) nil key = ok (false, nil)
  delete (suc fuel) (value_node v) key = ok (true, nil)
  delete (suc fuel) (short_node path child) key =
      let (shared, rest_path, rest_key) = common_prefix path key in
      elim rest_path [
        | i ∷ path_tail ↦ ok (false, short_node path child)
        | [] ↦ elim rest_key [
          | [] ↦ ok (true, nil)
          | j ∷ key_tail ↦ delete fuel child (j ∷ key_tail) >>= λ r.
              ok (changed r (short_node path child) (join path))
        ]
      ]
  delete (suc fuel) (full_node children) [] = panic
  delete (suc fuel) (full_node children) (x ∷ key) = delete fuel (children x) key >>= λ r.
      (if r.0
        then (shrink (set_child children x r.1) (only_child 17 (set_child children x r.1) none)
            >>= λ n. ok (true, n))
        else ok (false, full_node children))
  delete (suc fuel) (hash_node h) key = resolve_hash h >>= λ resolved.
      (delete fuel resolved key >>= λ r. ok (changed r resolved (λ new. new)))

  -- Enough for a key, as every two calls take a nibble at least.
  abbrev pub enough : List ℕ → ℕ
  enough key = 2 * length key + 2

  -- Get, on the root: the value and the root after it.
  unfoldable pub trie_get : Node → List ℕ → Result Error (Option (List ℕ) × Node)
  trie_get root key = get (enough (key_to_nibbles key)) root (key_to_nibbles key) >>= λ r.
      ok (r.0, cached r.2 r.1 root)

  -- Update and Delete, on the root.
  unfoldable pub trie_delete : Node → List ℕ → Result Error Node
  trie_delete root key =
      delete (enough (key_to_nibbles key)) root (key_to_nibbles key) >>= λ r. ok r.1

  unfoldable pub trie_update : Node → List ℕ → List ℕ → Result Error Node
  trie_update root key [] = trie_delete root key
  trie_update root key (v ∷ value) =
      insert (enough (key_to_nibbles key)) root (key_to_nibbles key) (value_node (v ∷ value))
      >>= λ r. ok r.1
