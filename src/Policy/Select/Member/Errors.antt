-- ===== src/Policy/Select/Member/Errors.antt =====
-- When `Select` fails.
use image_updater_operator.Prelude.{
  ◌≡◌, refl, inl, inr, List, true, ◌||◌, Option, none, some, Bytes, arith, Bool-cases, ap, sym, ◌∙◌,
}
use image_updater_operator.Prelude.Result.{Result, ok, err, ◌>>=◌}
use image_updater_operator.Api.{TagFilter, ImagePolicySpec, Policy}
use image_updater_operator.Policy.Select.{
  RegexpLib, SemverLib, SelectError, select_regex, select_semver, candidates, select_rule, select,
}
use image_updater_operator.Policy.Select.Member.{
  is_err, is_malformed_filter, is_malformed_rule, rule-Chooses,
}

module _ (R : RegexpLib) (S : SemverLib) where
  rule_fails :
      (tags : List Bytes) (p : Policy)
      → is_malformed_rule R S p ≡ true
      → is_err (select_rule R S tags p) ≡ true
  unfolding select_rule select_semver select_regex
  rule_fails tags p h = ground arith

  is_err-candidates :
      (tags : List Bytes) (f : Option TagFilter)
      → is_err (candidates R S tags f) ≡ is_malformed_filter R f
  unfolding candidates
  is_err-candidates tags none = refl
  is_err-candidates tags (some f) = ground arith

  is_err-rule :
      (tags : List Bytes) (p : Policy) → is_err (select_rule R S tags p) ≡ is_malformed_rule R S p
  is_err-rule tags p = elim (Bool-cases (is_malformed_rule R S p)) [
    | inl h ↦ rule_fails tags p h ∙ sym h
    | inr h ↦ let (_, e, _) = rule-Chooses R S tags p h in ap is_err e ∙ sym h
  ]

  -- `Select` fails exactly if the filter's pattern does not compile, or the first rule that is set
  -- has a malformed range or pattern, or no rule is set; the tags have no part in it.
  pub is_err-select :
      (tags : List Bytes) (spec : ImagePolicySpec)
      → is_err (select R S tags spec)
        ≡ (is_malformed_filter R spec.filter_tags || is_malformed_rule R S spec.policy)
  unfolding select
  is_err-select tags spec =
      go (candidates R S tags spec.filter_tags) (is_err-candidates tags spec.filter_tags)
    where
      go :
          (r : Result SelectError (List Bytes))
          → is_err r ≡ is_malformed_filter R spec.filter_tags
          → is_err (r >>= λ found. select_rule R S found spec.policy)
            ≡ (is_malformed_filter R spec.filter_tags || is_malformed_rule R S spec.policy)
      go (ok found) h = rw (← h) (is_err-rule found spec.policy)
      go (err e) h = rw (← h)
