-- ===== src/GitWriteback/Yaml.antt =====
-- internal/gitwriteback/edit.go: the helpers on nodes of gopkg.in/yaml.v3. The code mutates nodes
-- through pointers within one tree, where no node has two parents; here an operation returns the
-- changed tree. `Alias` pointers are never followed by the code.
pub mod Laws
pub mod Alike
use image_updater_operator.Prelude.{
  ℕ, Bool, true, false, Option, none, some, [], Bytes, ◌==◌, codes, if◌then◌else◌, ◌&&◌,
}

-- The kinds of nodes; `undefined` is the zero kind of an empty node.
pub data Kind : Type 0 where
  undefined document sequence mapping scalar alias : Kind

-- A node: its kind, tag, style, value, its content, and in `extra` what the code never touches
-- (anchor, alias, comments, line and column).
mutual
  pub data Node : Type 0 where
    node : Kind → Bytes → ℕ → Bytes → Bytes → Nodes → Node

  pub data Nodes : Type 0 where
    nil : Nodes
    cons : Node → Nodes → Nodes

abbrev pub kind_of : Node → Kind
kind_of (node k tag style value extra content) = k

abbrev pub value_of : Node → Bytes
value_of (node k tag style value extra content) = value

abbrev pub content_of : Node → Nodes
content_of (node k tag style value extra content) = content

abbrev pub with_content : Nodes → Node → Node
with_content c (node k tag style value extra content) = node k tag style value extra c

unfoldable pub str_tag : Bytes
str_tag = codes "!!str"

unfoldable pub map_tag : Bytes
map_tag = codes "!!map"

unfoldable pub seq_tag : Bytes
seq_tag = codes "!!seq"

-- `&yaml.Node{Kind: yaml.ScalarNode, Tag: "!!str", Value: value}`
abbrev pub new_scalar : Bytes → Node
new_scalar value = node scalar str_tag 0 value [] nil

abbrev pub new_mapping : Node
new_mapping = node mapping map_tag 0 [] [] nil

abbrev pub new_sequence : Node
new_sequence = node sequence seq_tag 0 [] [] nil

abbrev pub is_scalar : Kind → Bool
is_scalar scalar = true
is_scalar _ = false

-- The value behind the first key that matches; a last key without a value is not looked at.
unfoldable pub find_value : Nodes → Bytes → Option Node
find_value nil key = none
find_value (cons k nil) key = none
find_value (cons k (cons v rest)) key = if value_of k == key then some v else find_value rest key

unfoldable pub mapping_value : Node → Bytes → Option Node
unfolding find_value
mapping_value (node mapping tag style value extra content) key = find_value content key
mapping_value _ key = none

-- The loop of `setMappingValue`, and the append behind it.
unfoldable pub set_value : Nodes → Bytes → Node → Nodes
set_value nil key val = cons (new_scalar key) (cons val nil)
set_value (cons k nil) key val = cons k (cons (new_scalar key) (cons val nil))
set_value (cons k (cons v rest)) key val =
    if value_of k == key then cons k (cons val rest) else cons k (cons v (set_value rest key val))

unfoldable pub set_mapping_value : Node → Bytes → Node → Node
unfolding set_value
set_mapping_value n key val = with_content (set_value (content_of n) key val) n

-- What `upsertScalar` writes into the value that it finds: neither its kind nor its content.
unfoldable pub overwrite : Node → Bytes → Node
overwrite (node k tag style old extra content) value = node k str_tag 0 value extra content

unfoldable pub upsert_scalar : Node → Bytes → Bytes → Node × Bool
upsert_scalar n key value = elim (mapping_value n key) [
  | some cur ↦
      if value_of cur == value
      then (n, false)
      else (set_mapping_value n key (overwrite cur value), true)
  | none ↦ (set_mapping_value n key (new_scalar value), true)
]

unfoldable pub set_scalar : Node → Bytes → Node × Bool
set_scalar (node k tag style old extra content) value =
    if is_scalar k && old == value
    then (node k tag style old extra content, false)
    else (node scalar str_tag 0 value extra nil, true)
