-- ===== src/GitWriteback/Yaml/Laws.antt =====
-- Reading a mapping after a write.
use image_updater_operator.Prelude.{
  ◌≡◌, refl, true, false, none, some, Bytes, ◌==◌, arith, if◌then◌else◌, Bool-cases, Option-cases,
  inl, inr, ==_refl, ◌∙◌, ◌⊎◌,
}
use image_updater_operator.GitWriteback.Yaml.{
  mapping, Node, node, Nodes, nil, cons, kind_of, value_of, content_of, new_scalar, find_value,
  mapping_value, set_value, set_mapping_value, overwrite, upsert_scalar,
}

-- Every key has its value.
abbrev pub IsPaired : Nodes → Type 0
IsPaired nil = Unit
IsPaired (cons k nil) = ⊥
IsPaired (cons k (cons v rest)) = IsPaired rest

-- A mapping, as the parser builds it.
abbrev pub IsMapping : Node → Type 0
IsMapping n = (kind_of n ≡ mapping) × IsPaired (content_of n)

find-set_value :
    (xs : Nodes) (key j : Bytes) (val : Node)
    → IsPaired xs
    → find_value (set_value xs key val) j ≡ (if key == j then some val else find_value xs j)
unfolding find_value set_value
find-set_value nil key j val h = refl
find-set_value (cons k nil) key j val h = absurd h
find-set_value (cons k (cons v rest)) key j val h = ground (arith, find-set_value rest key j val h)

pub set_value-IsPaired :
    (xs : Nodes) (key : Bytes) (val : Node) → IsPaired xs → IsPaired (set_value xs key val)
unfolding set_value
set_value-IsPaired nil key val h = tt
set_value-IsPaired (cons k nil) key val h = absurd h
set_value-IsPaired (cons k (cons v rest)) key val h = elim (Bool-cases (value_of k == key)) [
  | inl e ↦ rw e h
  | inr e ↦ rw e (set_value-IsPaired rest key val h)
]

pub mapping_value-find :
    (n : Node) (key : Bytes)
    → kind_of n ≡ mapping
    → mapping_value n key ≡ find_value (content_of n) key
unfolding mapping_value
mapping_value-find (node mapping tag style value extra content) key h = refl
mapping_value-find (node k tag style value extra content) key h = ground arith

pub set_mapping_value-IsMapping :
    (n : Node) (key : Bytes) (val : Node) → IsMapping n → IsMapping (set_mapping_value n key val)
unfolding set_mapping_value
set_mapping_value-IsMapping (node k tag style value extra content) key val (h, p) =
    (h, set_value-IsPaired content key val p)

-- A write of a key changes what that key holds, and no other key.
pub mapping_value-set :
    (n : Node) (key j : Bytes) (val : Node)
    → IsMapping n
    → mapping_value (set_mapping_value n key val) j
      ≡ (if key == j then some val else mapping_value n j)
mapping_value-set n key j val m =
    rw
      (
        mapping_value-find n j m.0,
        mapping_value-find _ j (set_mapping_value-IsMapping n key val m).0,
      )
      (go n m.1)
  where
    go :
        (n : Node)
        → IsPaired (content_of n)
        → find_value (content_of (set_mapping_value n key val)) j
          ≡ (if key == j then some val else find_value (content_of n) j)
    go (node k tag style value extra content) p =
        unfold set_mapping_value in find-set_value content key j val p

pub value_of-overwrite : (n : Node) (value : Bytes) → value_of (overwrite n value) ≡ value
unfolding overwrite
value_of-overwrite (node k tag style old extra content) value = refl

-- The leaf that `upsertScalar` leaves under its key.
unfoldable pub upserted : Node → Bytes → Bytes → Node
upserted n key value = elim (mapping_value n key) [
  | some cur ↦ if value_of cur == value then cur else overwrite cur value
  | none ↦ new_scalar value
]

upserted-none :
    (n : Node) (key value : Bytes)
    → mapping_value n key ≡ none
    → upserted n key value ≡ new_scalar value
unfolding upserted
upserted-none n key value e = rw (e, upserted)

upserted-some :
    (n : Node) (key value : Bytes) (cur : Node)
    → mapping_value n key ≡ some cur
    → upserted n key value ≡ (if value_of cur == value then cur else overwrite cur value)
unfolding upserted
upserted-some n key value cur e = rw (e, upserted)

pub value_of-upserted : (n : Node) (key value : Bytes) → value_of (upserted n key value) ≡ value
value_of-upserted n key value = elim (Option-cases (mapping_value n key)) [
  | inl e ↦ rw (upserted-none n key value e)
  | inr (cur, e) ↦
      rw (upserted-some n key value cur e) (ground (arith, value_of-overwrite cur value))
]

pub upsert_same :
    (n : Node) (key value : Bytes) (cur : Node)
    → mapping_value n key ≡ some cur
    → value_of cur ≡ value
    → upsert_scalar n key value ≡ (n, false)
unfolding upsert_scalar
upsert_same n key value cur e h = ground arith

-- Either the leaf is there already and nothing is written, or it is written.
pub upsert-cases :
    (n : Node) (key value : Bytes)
    → (mapping_value n key ≡ some (upserted n key value)) × (upsert_scalar n key value ≡ (n, false))
      ⊎ (upsert_scalar n key value ≡ (set_mapping_value n key (upserted n key value), true))
unfolding upsert_scalar
upsert-cases n key value = elim (Option-cases (mapping_value n key)) [
  | inl e ↦ inr (rw (upserted-none n key value e) (rw (e, upsert_scalar)))
  | inr (cur, e) ↦ elim (Bool-cases (value_of cur == value)) [
    | inl h ↦ inl (rw (upserted-some n key value cur e, h) e, ground arith)
    | inr h ↦ inr (rw (upserted-some n key value cur e, h) (ground arith))
  ]
]

-- After `upsertScalar` on a mapping with a value for every key, the key holds the node that was
-- updated, with a new scalar if it was missing, and every other key holds what it held.
pub mapping_value-upsert :
    (n : Node) (key value j : Bytes)
    → IsMapping n
    → mapping_value (upsert_scalar n key value).0 j
      ≡ (if key == j then some (upserted n key value) else mapping_value n j)
mapping_value-upsert n key value j m = elim (upsert-cases n key value) [
  | inl (h, e) ↦ rw e (ground arith)
  | inr e ↦ rw e (mapping_value-set n key j (upserted n key value) m)
]

pub upsert-IsMapping :
    (n : Node) (key value : Bytes) → IsMapping n → IsMapping (upsert_scalar n key value).0
upsert-IsMapping n key value m = elim (upsert-cases n key value) [
  | inl (h, e) ↦ rw e m
  | inr e ↦ rw e (set_mapping_value-IsMapping n key (upserted n key value) m)
]

-- After `upsertScalar` on a mapping with a value for every key, a second one of the same value
-- reports no change and leaves the mapping.
pub upsert_twice :
    (n : Node) (key value : Bytes)
    → IsMapping n
    → let n' = (upsert_scalar n key value).0 in upsert_scalar n' key value ≡ (n', false)
upsert_twice n key value m =
    upsert_same _ key value (upserted n key value)
      (mapping_value-upsert n key value key m ∙ rw (==_refl key)) (value_of-upserted n key value)
