-- ===== src/Policy/Select/Semver.antt =====
-- Which tag the semver policy picks.
use image_updater_operator.Prelude.{
  ◌≡◌, refl, List, [], ◌∷◌, ◌++◌, Bool, true, false, Option, none, some, Bytes, codes, arith,
  All-append, All-map, ap, append_assoc, ◌∙◌, inl, inr, append-nil, Bool-cases, ◌⊎◌,
}
use image_updater_operator.Prelude.Result.{ok, err, Result-cases}
use image_updater_operator.Prelude.Order.{IsWeakOrder, IsFirstBest, on-IsWeakOrder}
use image_updater_operator.Policy.Select.{SemverLib, trim_prefix, semver_loop, select_semver}
use image_updater_operator.Policy.Stable.{above, unbeaten_of_FirstBest}

module _ (S : SemverLib) where
  -- A tag that is a version, with that version.
  pub record Tagged : Type 0 where
    pub tag : Bytes
    pub version : S.Version

  -- The tags that are versions within the constraint.
  unfoldable pub admissible : S.Constraint → List Bytes → List Tagged
  admissible c [] = []
  admissible c (t ∷ tags) =
      let rest = admissible c tags in
      elim (S.new_version (trim_prefix t (codes "v"))) [
        | err _ ↦ rest
        | ok v ↦ elim (S.check c v) [ false ↦ rest | true ↦ record { tag = t; version = v } ∷ rest ]
      ]

  abbrev greater : Tagged → Tagged → Bool
  greater a b = S.greater_than a.version b.version

  -- The loop over admissible tags alone.
  keep_best : List Tagged → Option S.Version → Bytes → Bytes
  keep_best [] best best_tag = best_tag
  keep_best (a ∷ l) best best_tag =
      let skip = keep_best l best best_tag in
      let take = keep_best l (some a.version) a.tag in
      elim best [
        | none ↦ take
        | some b ↦ elim (S.greater_than a.version b) [ true ↦ take | false ↦ skip ]
      ]

  semver_loop-keep_best :
      (c : S.Constraint) (tags : List Bytes) (best : Option S.Version) (best_tag : Bytes)
      → semver_loop S c tags best best_tag ≡ keep_best (admissible c tags) best best_tag
  unfolding semver_loop keep_best admissible
  semver_loop-keep_best c [] best best_tag = refl
  semver_loop-keep_best c (t ∷ tags) best best_tag =
      elim (Result-cases (S.new_version (trim_prefix t (codes "v")))) [
        | inl (v, e) ↦ ground (
          arith,
          semver_loop-keep_best c tags best best_tag,
          semver_loop-keep_best c tags (some v) t,
        )
        | inr (_, e) ↦ ground (arith, semver_loop-keep_best c tags best best_tag)
      ]

  keep_best_newer :
      (a m : Tagged) (l : List Tagged)
      → greater a m ≡ true
      → keep_best (a ∷ l) (some m.version) m.tag ≡ keep_best l (some a.version) a.tag
  unfolding keep_best
  keep_best_newer a m l h = ground arith

  keep_best_older :
      (a m : Tagged) (l : List Tagged)
      → greater a m ≡ false
      → keep_best (a ∷ l) (some m.version) m.tag ≡ keep_best l (some m.version) m.tag
  unfolding keep_best
  keep_best_older a m l h = ground arith

  module _ (w : IsWeakOrder S.greater_than) where
    greater-IsWeakOrder : IsWeakOrder greater
    greater-IsWeakOrder = on-IsWeakOrder (λ (a : Tagged). a.version) w

    -- A newer version takes the place of the best one of the tags read so far.
    newer-IsFirstBest :
        (seen : List Tagged) (m a : Tagged)
        → IsFirstBest greater seen m
        → greater a m ≡ true
        → IsFirstBest greater (seen ++ a ∷ []) a
    newer-IsFirstBest seen m a b h = record {
      before = seen;
      after = [];
      splits = refl;
      beats_before =
          All-map seen (λ t k. above greater greater-IsWeakOrder m t a k h)
            (unbeaten_of_FirstBest greater greater-IsWeakOrder seen m b);
      unbeaten_after = tt;
    }

    older-IsFirstBest :
        (seen : List Tagged) (m a : Tagged)
        → IsFirstBest greater seen m
        → greater a m ≡ false
        → IsFirstBest greater (seen ++ a ∷ []) m
    older-IsFirstBest seen m a b h = record {
      before = b.before;
      after = b.after ++ a ∷ [];
      splits = ap (λ l. l ++ a ∷ []) b.splits ∙ append_assoc b.before (m ∷ b.after) (a ∷ []);
      beats_before = b.beats_before;
      unbeaten_after = All-append _ b.after (a ∷ []) b.unbeaten_after (h, tt);
    }

    keep_best-IsFirstBest :
        (seen l : List Tagged) (m : Tagged)
        → IsFirstBest greater seen m
        → (r : Tagged) × (keep_best l (some m.version) m.tag ≡ r.tag)
          × IsFirstBest greater (seen ++ l) r
    unfolding keep_best
    keep_best-IsFirstBest seen [] m b = (m, refl, rw append-nil b)
    keep_best-IsFirstBest seen (a ∷ l) m b = elim (Bool-cases (greater a m)) [
      | inl h ↦
          let (r, e, best) =
            keep_best-IsFirstBest (seen ++ a ∷ []) l a (newer-IsFirstBest seen m a b h) in
          (r, keep_best_newer a m l h ∙ e, rw append_assoc at best)
      | inr h ↦
          let (r, e, best) =
            keep_best-IsFirstBest (seen ++ a ∷ []) l m (older-IsFirstBest seen m a b h) in
          (r, keep_best_older a m l h ∙ e, rw append_assoc at best)
    ]

    first_only-IsFirstBest : (a : Tagged) → IsFirstBest greater (a ∷ []) a
    first_only-IsFirstBest a = record {
      before = [];
      after = [];
      splits = refl;
      beats_before = tt;
      unbeaten_after = tt;
    }

    keep_best-start :
        (l : List Tagged)
        → (l ≡ []) × (keep_best l none [] ≡ [])
          ⊎ ((m : Tagged) × (keep_best l none [] ≡ m.tag) × IsFirstBest greater l m)
    unfolding keep_best
    keep_best-start [] = inl (refl, refl)
    keep_best-start (a ∷ l) = inr (keep_best-IsFirstBest (a ∷ []) l a (first_only-IsFirstBest a))

    -- If the constraint parses and `GreaterThan` is a strict weak order, `selectSemver` returns ""
    -- when no tag is a version within the constraint, and otherwise the first tag of those whose
    -- version no admissible version exceeds.
    pub select_semver-IsFirstBest :
        (tags : List Bytes) (constraint : Bytes) (c : S.Constraint)
        → S.new_constraint constraint ≡ ok c
        → (admissible c tags ≡ []) × (select_semver S tags constraint ≡ ok [])
          ⊎ ((m : Tagged) × (select_semver S tags constraint ≡ ok m.tag)
              × IsFirstBest greater (admissible c tags) m)
    unfolding select_semver
    select_semver-IsFirstBest tags constraint c h =
        rw (h, semver_loop-keep_best c tags none [])
          (elim (keep_best-start (admissible c tags)) [
            | inl (e, k) ↦ inl (e, rw k)
            | inr (m, k, b) ↦ inr (m, rw k, b)
          ])
