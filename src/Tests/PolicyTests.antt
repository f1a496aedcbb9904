-- ===== src/Tests/PolicyTests.antt =====
-- internal/policy/policy.go on concrete tags, with a regular expression that is a literal prefix and
-- versions that are numbers.
use image_updater_operator.Prelude.{
  trim_prefix, ℕ, ◌≡◌, refl, ◌⊎◌, Bool, true, false, ◌||◌, none, some, List, [], ◌∷◌, Bytes, codes,
  In, cut_prefix, ltb, leb, arith, Bytes-discrete,
}
use image_updater_operator.Prelude.Int.{pos}
use image_updater_operator.Prelude.Decimal.{digits_value}
use image_updater_operator.Prelude.Order.{IsWeakOrder, IsFirstBest}
use image_updater_operator.Prelude.Result.{Result, ok, err}
use image_updater_operator.Api.{RegexPolicy, ImagePolicySpec, descending, automatic}
use image_updater_operator.Policy.Natural.{
  numeric_less, natural_compare, compare_chunks, chunks, compare_chunk, is_digits, trim_zeros,
}
use image_updater_operator.Policy.Select.{
  RegexpLib, SemverLib, Pair, pairs, order, less_of, select_ordered, select_regex, select_semver,
  select, candidates, filter, select_rule, semver_loop,
}
use image_updater_operator.Policy.Select.Ends.{
  IsPicked, by_key, select_ordered-IsPicked, select_regex-IsPicked,
}
use image_updater_operator.Policy.Select.Semver.{Tagged, admissible, select_semver-IsFirstBest}
use image_updater_operator.Policy.Select.Member.Errors.{is_err-select}
use image_updater_operator.Policy.Select.Member.{
  is_err, passes, is_malformed_filter, is_malformed_rule, select-IsFrom,
}

abbrev compile_literal : Bytes → Result Bytes Bytes
compile_literal [] = err (codes "empty")
compile_literal (c ∷ s) = ok (c ∷ s)

abbrev has_prefix : Bytes → Bytes → Bool
has_prefix re s = elim (cut_prefix s re) [ none ↦ false | some _ ↦ true ]

abbrev pub literals : RegexpLib
literals = record {
  Regexp = Bytes;
  Match = Bytes;
  compile = compile_literal;
  match_string = has_prefix;
  find_submatch = λ re s. cut_prefix s re;
  expand = λ re template t m. m;
}

abbrev number : Bytes → Result Bytes ℕ
number s = elim (digits_value 0 s) [ none ↦ err (codes "not a number") | some n ↦ ok n ]

abbrev pub numbers : SemverLib
numbers = record {
  Constraint = ℕ;
  Version = ℕ;
  new_constraint = number;
  new_version = number;
  check = λ least v. leb least v;
  greater_than = λ v w. ltb w v;
}

abbrev pub tags : List Bytes
tags = codes "v2" ∷ codes "latest" ∷ codes "v10" ∷ codes "v9" ∷ []

abbrev pub spec : ImagePolicySpec
spec = record {
  image_repository = codes "ghcr.io/org/app";
  policy = record {
    semver = some (record { range = codes "3" });
    regex = none;
    numerical = none;
    alphabetical = none;
  };
  filter_tags = some (record { pattern_text = codes "v" });
  registry_ref = none;
  interval = pos 0;
  update_mode = automatic;
  suspend = false;
}

abbrev prefix_policy : RegexPolicy
prefix_policy = record {
  pattern_text = codes "v";
  extract = codes "$1";
  numeric = true;
  order = descending;
}

spec_filter : is_malformed_filter literals spec.filter_tags ≡ false
spec_filter = refl

spec_rule : is_malformed_rule literals numbers spec.policy ≡ false
unfolding digits_value
spec_rule = refl

pub newest : select literals numbers tags spec ≡ ok (codes "v10")
unfolding select candidates filter select_rule select_semver semver_loop cut_prefix trim_prefix
    digits_value Bytes-discrete
newest = refl

-- Digits are compared as numbers.
v9_below_v10 : numeric_less (codes "v9") (codes "v10") ≡ true
unfolding numeric_less natural_compare compare_chunks chunks compare_chunk is_digits Bytes-discrete
    trim_zeros
v9_below_v10 = refl

numbers_order : IsWeakOrder numbers.greater_than
numbers_order = record { asym = λ a b h. ground arith; neg_trans = λ a b c h k. ground arith }

select-IsFrom_example :
    (t : Bytes) × (select literals numbers tags spec ≡ ok t)
    × ((t ≡ []) ⊎ (In t tags × (passes literals spec.filter_tags t ≡ true)))
select-IsFrom_example = select-IsFrom literals numbers tags spec spec_filter spec_rule

is_err-select_example : is_err (select literals numbers tags spec) ≡ (
    is_malformed_filter literals spec.filter_tags || is_malformed_rule literals numbers spec.policy)
is_err-select_example = is_err-select literals numbers tags spec

select_ordered-IsPicked_example :
    (m : Bytes) × (select_ordered tags true descending ≡ ok m)
    × IsPicked (less_of true) descending tags m
select_ordered-IsPicked_example =
    select_ordered-IsPicked (codes "v2") (codes "latest" ∷ codes "v10" ∷ codes "v9" ∷ []) true
      descending

select_regex-IsPicked_example :
    (pairs literals tags (codes "v") (codes "$1") ≡ [])
      × (select_regex literals tags prefix_policy ≡ ok [])
    ⊎ ((m : Pair literals) × (select_regex literals tags prefix_policy ≡ ok m.original)
        × IsPicked
            (by_key literals true)
            (order descending)
            (pairs literals tags (codes "v") (codes "$1"))
            m)
select_regex-IsPicked_example = select_regex-IsPicked literals tags prefix_policy (codes "v") refl

select_semver-IsFirstBest_example :
    (admissible numbers 3 tags ≡ []) × (select_semver numbers tags (codes "3") ≡ ok [])
    ⊎ ((m : Tagged numbers) × (select_semver numbers tags (codes "3") ≡ ok m.tag)
        × IsFirstBest
            (λ (a b : Tagged numbers). ltb b.version a.version)
            (admissible numbers 3 tags)
            m)
unfolding digits_value
select_semver-IsFirstBest_example =
    select_semver-IsFirstBest numbers numbers_order tags (codes "3") 3 refl
