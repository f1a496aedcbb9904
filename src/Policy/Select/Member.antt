-- ===== src/Policy/Select/Member.antt =====
-- `Select` as a whole: where its tag comes from.
pub mod Errors
use image_updater_operator.Prelude.{
  ◌≡◌, refl, ◌⊎◌, inl, inr, List, [], ◌∷◌, Bool, true, false, ◌||◌, Option, none, some, Bytes,
  codes, arith, In, In-append, Bool-cases, Option-cases, ◌==◌, ap, if◌then◌else◌, sym, ◌∙◌,
}
use image_updater_operator.Prelude.Result.{Result, ok, err, ◌>>=◌, Result-cases}
use image_updater_operator.Api.{
  SortOrder, TagFilter, ImagePolicySpec, Policy, RegexPolicy, ascending, SemverPolicy,
  OrderedPolicy,
}
use image_updater_operator.Prelude.Order.{IsFirstBest, IsLastBest}
use image_updater_operator.Policy.Select.{
  RegexpLib, SemverLib, SelectError, filter, Pair, pairs, select_ordered, select_regex, semver_loop,
  select_semver, candidates, select_rule, select, trim_prefix, order, less_of,
}
use image_updater_operator.Policy.Select.Ends.{
  IsPicked, select_ordered-IsPicked, select_regex-IsPicked,
}

-- What `Select` may return: "" or one of the tags.
abbrev pub IsFrom : List Bytes → Bytes → Type 0
IsFrom tags t = (t ≡ []) ⊎ In t tags

abbrev Chooses : List Bytes → Result SelectError Bytes → Type 0
Chooses tags r = (t : Bytes) × (r ≡ ok t) × IsFrom tags t

abbrev pub is_err : {E A : Type 0} → Result E A → Bool
is_err (ok _) = false
is_err (err _) = true

IsPicked-In :
    {A : Type 0} (less : A → A → Bool) (o : SortOrder) (l : List A) (m : A)
    → IsPicked less o l m
    → In m l
IsPicked-In less o l m h = elim (Bool-cases (o == ascending)) [
  | inl e ↦ let b : IsFirstBest less l m = rw e at h in rw b.splits (In-append m b.before b.after)
  | inr e ↦
      let b : IsLastBest (λ a b. less b a) l m = rw e at h in
      rw b.splits (In-append m b.before b.after)
]

ordered-Chooses :
    (tags : List Bytes) (numeric : Bool) (o : SortOrder)
    → Chooses tags (select_ordered tags numeric o)
ordered-Chooses [] numeric o = unfold select_ordered in ([], refl, inl refl)
ordered-Chooses (x ∷ xs) numeric o =
    let (m, e, h) = select_ordered-IsPicked x xs numeric o in
    (m, e, inr (IsPicked-In (less_of numeric) o (x ∷ xs) m h))

module _ (R : RegexpLib) where
  pairs_unmatched :
      (t : Bytes) (tags : List Bytes) (re : R.Regexp) (extract : Bytes)
      → R.find_submatch re t ≡ none
      → pairs R (t ∷ tags) re extract ≡ pairs R tags re extract
  unfolding pairs
  pairs_unmatched t tags re extract e = rw (e, pairs)

  pairs_matched :
      (t : Bytes) (tags : List Bytes) (re : R.Regexp) (extract : Bytes) (k : R.Match)
      → R.find_submatch re t ≡ some k
      → pairs R (t ∷ tags) re extract
        ≡ record { original = t; key = if extract == [] then t else R.expand re extract t k }
          ∷ pairs R tags re extract
  unfolding pairs
  pairs_matched t tags re extract k e = rw (e, pairs)

  original-In :
      (tags : List Bytes) (re : R.Regexp) (extract : Bytes) (m : Pair R)
      → In m (pairs R tags re extract)
      → In m.original tags
  unfolding pairs
  original-In [] re extract m h = absurd h
  original-In (t ∷ tags) re extract m h = elim (Option-cases (R.find_submatch re t)) [
    | inl e ↦ inr (original-In tags re extract m (rw (pairs_unmatched t tags re extract e) at h))
    | inr (k, e) ↦
        elim (rw (pairs_matched t tags re extract k e) at h) as (λ _. In m.original (t ∷ tags)) [
          | inl same ↦ inl (ap (λ (p : Pair R). p.original) same)
          | inr later ↦ inr (original-In tags re extract m later)
        ]
  ]

  regex-Chooses :
      (tags : List Bytes) (p : RegexPolicy) (re : R.Regexp)
      → R.compile p.pattern_text ≡ ok re
      → Chooses tags (select_regex R tags p)
  regex-Chooses tags p re h = elim (select_regex-IsPicked R tags p re h) [
    | inl (_, e) ↦ ([], e, inl refl)
    | inr (m, e, k) ↦ (m.original, e, inr (original-In tags re p.extract m (IsPicked-In _ _ _ m k)))
  ]

  -- The tags that the filter lets through.
  abbrev pub passes : Option TagFilter → Bytes → Bool
  passes none t = true
  passes (some f) t = elim (R.compile f.pattern_text) [
    | ok re ↦ R.match_string re t
    | err _ ↦ false
  ]

  -- A filter whose pattern does not compile.
  abbrev pub is_malformed_filter : Option TagFilter → Bool
  is_malformed_filter none = false
  is_malformed_filter (some f) = is_err (R.compile f.pattern_text)

  In-filter :
      (tags : List Bytes) (re : R.Regexp) (t : Bytes)
      → In t (filter R tags re)
      → In t tags × (R.match_string re t ≡ true)
  unfolding filter
  In-filter [] re t h = absurd h
  In-filter (x ∷ tags) re t h = elim (Bool-cases (R.match_string re x)) [
    | inl e ↦ elim (rw e at h) as (λ _. In t (x ∷ tags) × (R.match_string re t ≡ true)) [
      | inl same ↦ (inl same, rw same e)
      | inr later ↦ let (k, p) = In-filter tags re t later in (inr k, p)
    ]
    | inr e ↦ let (k, p) = In-filter tags re t (rw e at h) in (inr k, p)
  ]

module _ (S : SemverLib) where
  semver_loop-IsFrom :
      (c : S.Constraint) (tags : List Bytes) (best : Option S.Version) (best_tag : Bytes)
      → (semver_loop S c tags best best_tag ≡ best_tag)
        ⊎ In (semver_loop S c tags best best_tag) tags
  unfolding semver_loop
  semver_loop-IsFrom c [] best best_tag = inl refl
  semver_loop-IsFrom c (t ∷ tags) best best_tag =
      elim (Result-cases (S.new_version (trim_prefix t (codes "v")))) [
        | inl (v, e) ↦
            ground
              (arith, semver_loop-IsFrom c tags best best_tag, semver_loop-IsFrom c tags (some v) t)
        | inr (_, e) ↦ ground (arith, semver_loop-IsFrom c tags best best_tag)
      ]

  semver-Chooses :
      (tags : List Bytes) (constraint : Bytes) (c : S.Constraint)
      → S.new_constraint constraint ≡ ok c
      → Chooses tags (select_semver S tags constraint)
  unfolding select_semver
  semver-Chooses tags constraint c h =
      rw h (semver_loop S c tags none [], refl, semver_loop-IsFrom c tags none [])

module _ (R : RegexpLib) (S : SemverLib) where
  -- The rule in force is the first one set; it is malformed if its range or its pattern is.
  abbrev pub is_malformed_rule : Policy → Bool
  is_malformed_rule p = elim p.semver [
    | some s ↦ is_err (S.new_constraint s.range)
    | none ↦ elim p.regex [
      | some r ↦ is_err (R.compile r.pattern_text)
      | none ↦ elim p.numerical [
        | some _ ↦ false
        | none ↦ elim p.alphabetical [ some _ ↦ false | none ↦ true ]
      ]
    ]
  ]

  abbrev policy_of :
      Option SemverPolicy
      → Option RegexPolicy
      → Option OrderedPolicy
      → Option OrderedPolicy
      → Policy
  policy_of s r n a = record { semver = s; regex = r; numerical = n; alphabetical = a }

  fields-Chooses :
      (tags : List Bytes) (s : Option SemverPolicy) (r : Option RegexPolicy)
      (n a : Option OrderedPolicy)
      → is_malformed_rule (policy_of s r n a) ≡ false
      → Chooses tags (select_rule R S tags (policy_of s r n a))
  unfolding select_rule
  fields-Chooses tags (some s) r n a h = elim (Result-cases (S.new_constraint s.range)) [
    | inl (c, e) ↦ semver-Chooses S tags s.range c e
    | inr (_, e) ↦ absurd (ground arith)
  ]
  fields-Chooses tags none (some r) n a h = elim (Result-cases (R.compile r.pattern_text)) [
    | inl (re, e) ↦ regex-Chooses R tags r re e
    | inr (_, e) ↦ absurd (ground arith)
  ]
  fields-Chooses tags none none (some n) a h = ordered-Chooses tags true (order n.order)
  fields-Chooses tags none none none (some a) h = ordered-Chooses tags false (order a.order)
  fields-Chooses tags none none none none h = absurd (ground arith)

  rule-Chooses :
      (tags : List Bytes) (p : Policy)
      → is_malformed_rule p ≡ false
      → Chooses tags (select_rule R S tags p)
  rule-Chooses tags p h = fields-Chooses tags p.semver p.regex p.numerical p.alphabetical h

  candidates-IsFrom :
      (tags : List Bytes) (f : Option TagFilter) (p : Policy)
      → is_malformed_filter R f ≡ false
      → is_malformed_rule p ≡ false
      → (t : Bytes) × ((candidates R S tags f >>= λ found. select_rule R S found p) ≡ ok t)
        × ((t ≡ []) ⊎ (In t tags × (passes R f t ≡ true)))
  unfolding candidates
  candidates-IsFrom tags none p h k =
      let (t, e, from) = rule-Chooses tags p k in
      (t, e, elim from [ inl z ↦ inl z | inr m ↦ inr (m, refl) ])
  candidates-IsFrom tags (some f) p h k = elim (Result-cases (R.compile f.pattern_text)) [
    | inl (re, e) ↦
        let (t, g, from) = rule-Chooses (filter R tags re) p k in
        (
          t,
          rw e g,
          elim from [
            | inl z ↦ inl z
            | inr m ↦
                let (listed, passed) = In-filter R tags re t m in
                inr (listed, rw (e, passes) passed)
          ],
        )
    | inr (_, e) ↦ absurd (ground arith)
  ]

  -- If neither the filter nor the rule in force is malformed, `Select` returns "" or a tag of the
  -- registry that passes the filter.
  pub select-IsFrom :
      (tags : List Bytes) (spec : ImagePolicySpec)
      → is_malformed_filter R spec.filter_tags ≡ false
      → is_malformed_rule spec.policy ≡ false
      → (t : Bytes) × (select R S tags spec ≡ ok t)
        × ((t ≡ []) ⊎ (In t tags × (passes R spec.filter_tags t ≡ true)))
  unfolding select
  select-IsFrom tags spec = candidates-IsFrom tags spec.filter_tags spec.policy
