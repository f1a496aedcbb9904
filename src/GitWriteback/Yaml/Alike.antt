-- ===== src/GitWriteback/Yaml/Alike.antt =====
-- Nodes of gopkg.in/yaml.v3 that agree in what internal/gitwriteback/edit.go reads of them.
use image_updater_operator.Prelude.{
  ℕ, zero, suc, ◌≡◌, refl, some, Bytes, ◌==◌, arith, Bool-cases, inl, inr,
}
use image_updater_operator.GitWriteback.Yaml.{
  Node, node, Nodes, nil, cons, kind_of, value_of, content_of, find_value,
}
use image_updater_operator.GitWriteback.Path.{nth}

-- The same kinds, values and structure: tags, styles, comments and places in the text may differ.
unfoldable mutual
  pub Alike : Node → Node → Type 0
  Alike (node k tag style value extra content) (node k' tag' style' value' extra' content') =
      (k ≡ k') × (value ≡ value') × AreAlike content content'

  pub AreAlike : Nodes → Nodes → Type 0
  AreAlike nil nil = Unit
  AreAlike nil (cons m ms) = ⊥
  AreAlike (cons n ns) nil = ⊥
  AreAlike (cons n ns) (cons m ms) = Alike n m × AreAlike ns ms

pub Alike-parts :
    (n m : Node)
    → Alike n m
    → (kind_of n ≡ kind_of m) × (value_of n ≡ value_of m) × AreAlike (content_of n) (content_of m)
unfolding Alike
Alike-parts (node _ _ _ _ _ _) (node _ _ _ _ _ _) h = h

pub find_value-Alike :
    (xs ys : Nodes) (key : Bytes) (x : Node)
    → AreAlike xs ys
    → find_value xs key ≡ some x
    → (y : Node) × (find_value ys key ≡ some y) × Alike x y
unfolding AreAlike find_value
find_value-Alike nil ys key x h e = absurd (ground (arith, e))
find_value-Alike (cons k nil) ys key x h e = absurd (ground (arith, e))
find_value-Alike (cons k (cons v xs)) nil key x h e = absurd h
find_value-Alike (cons k (cons v xs)) (cons k' nil) key x h e = absurd h.1
find_value-Alike (cons k (cons v xs)) (cons k' (cons v' ys)) key x (hk, (hv, hs)) e =
    let same = (Alike-parts k k' hk).1 in
    elim (Bool-cases (value_of k == key)) [
      | inl b ↦
          let first : v ≡ x = ground (arith, e, b) in (v', ground (arith, b, same), rw (← first) hv)
      | inr b ↦
          let (y, found, alike) = find_value-Alike xs ys key x hs (ground (arith, e, b)) in
          (y, ground (arith, b, same, found), alike)
    ]

pub nth-Alike :
    (xs ys : Nodes) (i : ℕ) (x : Node)
    → AreAlike xs ys
    → nth xs i ≡ some x
    → (y : Node) × (nth ys i ≡ some y) × Alike x y
unfolding AreAlike
nth-Alike nil ys i x h e = absurd (ground (arith, e))
nth-Alike (cons n xs) nil i x h e = absurd h
nth-Alike (cons n xs) (cons m ys) zero x h e =
    let first : n ≡ x = ground (arith, e) in (m, refl, rw (← first) h.0)
nth-Alike (cons n xs) (cons m ys) (suc i) x h e = nth-Alike xs ys i x h.1 e
