-- ===== src/Controller/Live/Images.antt =====
-- What `patchLive` does to the images of the pod spec.
use image_updater_operator.Prelude.{In, ◌⊎◌, inl, inr, ℕ_discrete}
use image_updater_operator.Prelude.{
  ℕ, zero, suc, ◌≡◌, ◌≢◌, refl, sym, ap, ◌∙◌, List, [], ◌∷◌, Bytes, arith, ◌<◌, length, All,
  All-map,
}
use image_updater_operator.Workload.{Container, PodSpec, Workload, Place, init_container, container}
use image_updater_operator.Prelude.{Option}
use image_updater_operator.Controller.Event.{Event}
use image_updater_operator.Controller.Pending.{Pending}
use image_updater_operator.Controller.Live.{
  image_of, with_image, image_at, set_image_at, set_last_updated, patch_one, patch_loop, patch_live,
}

-- The place is one of the pod spec's.
abbrev pub IsPlace : PodSpec → Place → Type 0
IsPlace spec (init_container i) = i < length spec.init_containers
IsPlace spec (container i) = i < length spec.containers

-- No two pendings are for one place.
abbrev pub Distinct : List Pending → Type 0
Distinct [] = Unit
Distinct (p ∷ ps) = All (λ q. p.place ≢ q.place) ps × Distinct ps

length-with_image :
    (i : ℕ) (image : Bytes) (cs : List Container) → length (with_image i image cs) ≡ length cs
length-with_image i image [] = refl
length-with_image zero image (c ∷ cs) = refl
length-with_image (suc i) image (c ∷ cs) = ap (λ n. suc n) (length-with_image i image cs)

image_of-with_image :
    (i : ℕ) (image : Bytes) (cs : List Container)
    → i < length cs
    → image_of i (with_image i image cs) ≡ image
image_of-with_image i image [] h = absurd (omega (arith, h))
image_of-with_image zero image (c ∷ cs) h = refl
image_of-with_image (suc i) image (c ∷ cs) h = image_of-with_image i image cs (omega (arith, h))

image_of-with_image_other :
    (i j : ℕ) (image : Bytes) (cs : List Container)
    → j ≢ i
    → image_of i (with_image j image cs) ≡ image_of i cs
image_of-with_image_other i j image [] h = refl
image_of-with_image_other zero zero image (c ∷ cs) h = absurd (h refl)
image_of-with_image_other zero (suc j) image (c ∷ cs) h = refl
image_of-with_image_other (suc i) zero image (c ∷ cs) h = refl
image_of-with_image_other (suc i) (suc j) image (c ∷ cs) h =
    image_of-with_image_other i j image cs (λ e. h (ap (λ n. suc n) e))

image_at-set_image_at :
    (p : Place) (image : Bytes) (spec : PodSpec)
    → IsPlace spec p
    → image_at p (set_image_at p image spec) ≡ image
unfolding image_at set_image_at
image_at-set_image_at (init_container i) image spec h =
    image_of-with_image i image spec.init_containers h
image_at-set_image_at (container i) image spec h = image_of-with_image i image spec.containers h

image_at-set_image_at_other :
    (p q : Place) (image : Bytes) (spec : PodSpec)
    → p ≢ q
    → image_at q (set_image_at p image spec) ≡ image_at q spec
unfolding image_at set_image_at
image_at-set_image_at_other (init_container j) (init_container i) image spec h =
    image_of-with_image_other i j image spec.init_containers (λ e. h (ap (λ n. init_container n) e))
image_at-set_image_at_other (container j) (container i) image spec h =
    image_of-with_image_other i j image spec.containers (λ e. h (ap (λ n. container n) e))
image_at-set_image_at_other (init_container j) (container i) image spec h = refl
image_at-set_image_at_other (container j) (init_container i) image spec h = refl

IsPlace-set_image_at :
    (p q : Place) (image : Bytes) (spec : PodSpec)
    → IsPlace spec q
    → IsPlace (set_image_at p image spec) q
unfolding set_image_at
IsPlace-set_image_at (init_container j) (init_container i) image spec h =
    omega (arith, h, length-with_image j image spec.init_containers)
IsPlace-set_image_at (container j) (container i) image spec h =
    omega (arith, h, length-with_image j image spec.containers)
IsPlace-set_image_at (init_container j) (container i) image spec h = h
IsPlace-set_image_at (container j) (init_container i) image spec h = h

patch_loop-untouched :
    (ps : List Pending) (obj : Workload) (events : List Event) (q : Place)
    → All (λ p. q ≢ p.place) ps
    → image_at q ((patch_loop ps (obj, events)).0.pod_spec) ≡ image_at q obj.pod_spec
unfolding patch_loop patch_one set_last_updated
patch_loop-untouched [] obj events q h = refl
patch_loop-untouched (p ∷ ps) obj events q (n, h) =
    patch_loop-untouched ps _ _ q h
    ∙ image_at-set_image_at_other p.place q p.desired obj.pod_spec (λ e. n (sym e))

patch_loop-images :
    (ps : List Pending) (obj : Workload) (events : List Event)
    → Distinct ps
    → All (λ p. IsPlace obj.pod_spec p.place) ps
    → All (λ p. image_at p.place ((patch_loop ps (obj, events)).0.pod_spec) ≡ p.desired) ps
unfolding patch_loop patch_one set_last_updated
patch_loop-images [] obj events d h = tt
patch_loop-images (p ∷ ps) obj events (n, d) (at, h) = (
  patch_loop-untouched ps _ _ p.place n ∙ image_at-set_image_at p.place p.desired obj.pod_spec at,
  patch_loop-images ps _ _ d
      (All-map ps (λ q there. IsPlace-set_image_at p.place q.place p.desired obj.pod_spec there) h),
)

-- The object that `patchLive` sends carries the selected image at the place of every pending
-- update, if the places are of the pod spec and no two pendings share one.
pub patch_live-images :
    (patch : Workload → Option Bytes) (obj : Workload) (ps : List Pending) (requeue_after : ℕ)
    → Distinct ps
    → All (λ p. IsPlace obj.pod_spec p.place) ps
    → All
        (λ p. image_at p.place ((patch_live patch obj ps requeue_after).0.pod_spec) ≡ p.desired)
        ps
unfolding patch_live
patch_live-images patch obj ps requeue_after d h = patch_loop-images ps obj [] d h

-- The object that `patchLive` sends carries the old image at every place of no pending update.
pub patch_live-untouched :
    (patch : Workload → Option Bytes) (obj : Workload) (ps : List Pending) (requeue_after : ℕ)
    (q : Place)
    → All (λ p. q ≢ p.place) ps
    → image_at q ((patch_live patch obj ps requeue_after).0.pod_spec) ≡ image_at q obj.pod_spec
unfolding patch_live
patch_live-untouched patch obj ps requeue_after q h = patch_loop-untouched ps obj [] q h

Place-discrete : Discrete Place
Place-discrete = hlevel ℕ_discrete

-- A pending update is for the place.
abbrev pub Has : Place → List Pending → Type 0
Has q ps = (p : Pending) × In p ps × (p.place ≡ q)

-- All pendings for a place agree on the image, which stands there or is pending: then it stands
-- there behind the loop.
pub patch_loop-agree :
    (ps : List Pending) (obj : Workload) (events : List Event) (q : Place) (image : Bytes)
    → IsPlace obj.pod_spec q
    → ((p : Pending) → In p ps → p.place ≡ q → p.desired ≡ image)
    → (image_at q obj.pod_spec ≡ image) ⊎ Has q ps
    → image_at q ((patch_loop ps (obj, events)).0.pod_spec) ≡ image
unfolding patch_loop patch_one set_last_updated
patch_loop-agree [] obj events q image at agree (inl e) = e
patch_loop-agree [] obj events q image at agree (inr (p, i, _)) = absurd i
patch_loop-agree (p ∷ ps) obj events q image at agree h =
    let still = IsPlace-set_image_at p.place q p.desired obj.pod_spec at in
    let later = λ (r : Pending) (i : In r ps). agree r (inr i) in
    patch_loop-agree ps _ _ q image still later (elim (Place-discrete p.place q) [
      | yes e ↦ inl (
          ap (λ r. image_at r (set_image_at p.place p.desired obj.pod_spec)) (sym e)
          ∙ image_at-set_image_at p.place p.desired obj.pod_spec (rw e at)
          ∙ agree p (inl refl) e)
      | no n ↦ elim h [
        | inl e ↦ inl (image_at-set_image_at_other p.place q p.desired obj.pod_spec n ∙ e)
        | inr (r, i, e) ↦ elim i [
          | inl same ↦ absurd (n (ap (λ (x : Pending). x.place) (sym same) ∙ e))
          | inr j ↦ inr (r, j, e)
        ]
      ]
    ])
