-- ===== src/Controller/Live/Containers.antt =====
-- The containers of a pod spec that `patchLive` has changed, and their index by name.
use image_updater_operator.Prelude.{◌<◌, length}
use image_updater_operator.Controller.Live.Images.{IsPlace}
use image_updater_operator.Prelude.{
  ℕ, zero, suc, ◌+◌, ◌≡◌, refl, sym, ap, ◌∙◌, Option, none, some, List, [], ◌∷◌, ◌++◌, Bytes, arith,
  In, ◌⊎◌, inl, inr,
}
use image_updater_operator.Prelude.Dict.{Dict, lookup, insert, lookup-insert}
use image_updater_operator.Workload.{
  Container, PodSpec, Workload, Place, init_container, container, places, all_containers,
}
use image_updater_operator.Controller.Event.{Event}
use image_updater_operator.Controller.Pending.{Pending, index_loop, index_containers}
use image_updater_operator.Controller.Live.{
  image_of, with_image, image_at, set_image_at, set_last_updated, patch_one, patch_loop,
}

-- The container at an index, and at a place.
unfoldable pub nth_container : List Container → ℕ → Option Container
nth_container [] i = none
nth_container (c ∷ cs) zero = some c
nth_container (c ∷ cs) (suc i) = nth_container cs i

unfoldable pub container_at : PodSpec → Place → Option Container
container_at spec (init_container i) = nth_container spec.init_containers i
container_at spec (container i) = nth_container spec.containers i

In-places :
    (at : ℕ → Place) (i : ℕ) (cs : List Container) (p : Place) (c : Container)
    → In (p, c) (places at i cs)
    → (k : ℕ) × (p ≡ at (i + k)) × (nth_container cs k ≡ some c)
unfolding nth_container
In-places at i [] p c h = absurd h
In-places at i (d ∷ cs) p c (inl e) = (
  0,
  ap (λ (x : Place × Container). x.0) e ∙ ap at (omega arith),
  ap some (sym (ap (λ (x : Place × Container). x.1) e)),
)
In-places at i (d ∷ cs) p c (inr h) =
    let (k, e, n) = In-places at (suc i) cs p c h in (suc k, e ∙ ap at (omega arith), n)

In-split : {A : Type 0} (x : A) (xs ys : List A) → In x (xs ++ ys) → In x xs ⊎ In x ys
In-split x [] ys h = inr h
In-split x (y ∷ xs) ys (inl e) = inl (inl e)
In-split x (y ∷ xs) ys (inr h) = elim (In-split x xs ys h) [ inl i ↦ inl (inr i) | inr j ↦ inr j ]

-- What `AllContainers` lists at a place stands there.
pub all_containers-container_at :
    (spec : PodSpec) (p : Place) (c : Container)
    → In (p, c) (all_containers spec)
    → container_at spec p ≡ some c
unfolding all_containers container_at
all_containers-container_at spec p c h =
    elim (In-split (p, c) (places init_container 0 spec.init_containers) _ h) [
      | inl i ↦
          let (k, e, n) = In-places init_container 0 spec.init_containers p c i in
          let here : p ≡ init_container k = e ∙ ap (λ n. init_container n) (omega arith) in
          rw here n
      | inr i ↦
          let (k, e, n) = In-places container 0 spec.containers p c i in
          let here : p ≡ container k = e ∙ ap (λ n. container n) (omega arith) in rw here n
    ]

image_of-nth_container :
    (cs : List Container) (i : ℕ) (c : Container)
    → nth_container cs i ≡ some c
    → image_of i cs ≡ c.image
unfolding nth_container
image_of-nth_container [] i c h = absurd (ground arith)
image_of-nth_container (d ∷ cs) zero c h = ground arith
image_of-nth_container (d ∷ cs) (suc i) c h = image_of-nth_container cs i c h

pub image_at-container_at :
    (spec : PodSpec) (p : Place) (c : Container)
    → container_at spec p ≡ some c
    → image_at p spec ≡ c.image
unfolding container_at image_at
image_at-container_at spec (init_container i) c h =
    image_of-nth_container spec.init_containers i c h
image_at-container_at spec (container i) c h = image_of-nth_container spec.containers i c h

-- Two lists of containers agree on places and names.
abbrev Alike : List (Place × Container) → List (Place × Container) → Type 0
Alike [] [] = Unit
Alike [] (_ ∷ _) = ⊥
Alike (_ ∷ _) [] = ⊥
Alike ((p, c) ∷ cs) ((q, d) ∷ ds) = (p ≡ q) × (c.name ≡ d.name) × Alike cs ds

Alike-refl : (cs : List (Place × Container)) → Alike cs cs
Alike-refl [] = tt
Alike-refl ((p, c) ∷ cs) = (refl, refl, Alike-refl cs)

Alike-append :
    (cs ds cs' ds' : List (Place × Container))
    → Alike cs ds
    → Alike cs' ds'
    → Alike (cs ++ cs') (ds ++ ds')
Alike-append [] [] cs' ds' h k = k
Alike-append [] (_ ∷ _) cs' ds' h k = absurd h
Alike-append (_ ∷ _) [] cs' ds' h k = absurd h
Alike-append ((p, c) ∷ cs) ((q, d) ∷ ds) cs' ds' (e, f, h) k =
    (e, f, Alike-append cs ds cs' ds' h k)

with_image-Alike :
    (at : ℕ → Place) (i k : ℕ) (image : Bytes) (cs : List Container)
    → Alike (places at i (with_image k image cs)) (places at i cs)
with_image-Alike at i k image [] = tt
with_image-Alike at i zero image (c ∷ cs) = (refl, refl, Alike-refl (places at (suc i) cs))
with_image-Alike at i (suc k) image (c ∷ cs) = (refl, refl, with_image-Alike at (suc i) k image cs)

set_image_at-Alike :
    (p : Place) (image : Bytes) (spec : PodSpec)
    → Alike (all_containers (set_image_at p image spec)) (all_containers spec)
unfolding all_containers set_image_at
set_image_at-Alike (init_container i) image spec =
    Alike-append _ _ _ _ (with_image-Alike init_container 0 i image spec.init_containers)
      (Alike-refl (places container 0 spec.containers))
set_image_at-Alike (container i) image spec =
    Alike-append _ _ _ _ (Alike-refl (places init_container 0 spec.init_containers))
      (with_image-Alike container 0 i image spec.containers)

-- The place of what is found.
abbrev pub place_of : Option (Place × Container) → Option Place
place_of none = none
place_of (some (p, _)) = some p

index_loop-Alike :
    (cs ds : List (Place × Container)) (out out' : Dict (Place × Container))
    → Alike cs ds
    → ((n : Bytes) → place_of (lookup n out) ≡ place_of (lookup n out'))
    → (n : Bytes)
    → place_of (lookup n (index_loop cs out)) ≡ place_of (lookup n (index_loop ds out'))
unfolding index_loop
index_loop-Alike [] [] out out' h same n = same n
index_loop-Alike [] (_ ∷ _) out out' h same n = absurd h
index_loop-Alike (_ ∷ _) [] out out' h same n = absurd h
index_loop-Alike ((p, c) ∷ cs) ((q, d) ∷ ds) out out' (e, f, h) same n =
    index_loop-Alike cs ds (insert c.name (p, c) out) (insert d.name (q, d) out') h
      (λ m.
        ground
          (arith, same m, lookup-insert m c.name (p, c) out, lookup-insert m d.name (q, d) out'))
      n

-- `patchLive` leaves every name at its place in the index.
pub patch_loop-index :
    (ps : List Pending) (obj : Workload) (events : List Event) (n : Bytes)
    → place_of (lookup n (index_containers (patch_loop ps (obj, events)).0.pod_spec))
      ≡ place_of (lookup n (index_containers obj.pod_spec))
unfolding patch_loop patch_one set_last_updated index_containers
patch_loop-index [] obj events n = refl
patch_loop-index (p ∷ ps) obj events n =
    patch_loop-index ps _ _ n
    ∙ index_loop-Alike _ _ [] [] (set_image_at-Alike p.place p.desired obj.pod_spec) (λ m. refl) n

nth_container_bound :
    (cs : List Container) (i : ℕ) (c : Container) → nth_container cs i ≡ some c → i < length cs
unfolding nth_container
nth_container_bound [] i c h = absurd (ground arith)
nth_container_bound (d ∷ cs) zero c h = omega arith
nth_container_bound (d ∷ cs) (suc i) c h = omega (arith, nth_container_bound cs i c h)

pub container_at-IsPlace :
    (spec : PodSpec) (p : Place) (c : Container) → container_at spec p ≡ some c → IsPlace spec p
unfolding container_at
container_at-IsPlace spec (init_container i) c h = nth_container_bound spec.init_containers i c h
container_at-IsPlace spec (container i) c h = nth_container_bound spec.containers i c h
