-- ===== src/Policy/Select.antt =====
-- internal/policy/policy.go: `Select` and the selectors. The `regexp` engine and the library
-- github.com/Masterminds/semver/v3 are parameters: what the code calls of them.
pub mod Ends
pub mod Semver
pub mod Member
use image_updater_operator.Prelude.{
  trim_prefix, ◌-◌, List, [], ◌∷◌, Bool, true, false, Option, none, some, Bytes, ◌==◌, codes,
  cut_prefix, if◌then◌else◌, nat_eq, length,
}
use image_updater_operator.Prelude.Result.{Result, ok, err, ◌>>=◌, wrap_err, index}
use image_updater_operator.Api.{
  SortOrder, ascending, descending, RegexPolicy, ImagePolicySpec, Policy, TagFilter,
}
use image_updater_operator.Policy.Natural.{lex_less, numeric_less}
use image_updater_operator.Policy.Stable.{sort_stable}

-- The calls of package `regexp`. A failure is the text of its error.
pub record RegexpLib : Type 1 where
  pub Regexp : Type 0
  pub Match : Type 0
  pub compile : Bytes → Result Bytes Regexp
  pub match_string : Regexp → Bytes → Bool
  pub find_submatch : Regexp → Bytes → Option Match
  pub expand : Regexp → Bytes → Bytes → Match → Bytes

-- The calls of the semver library.
pub record SemverLib : Type 1 where
  pub Constraint : Type 0
  pub Version : Type 0
  pub new_constraint : Bytes → Result Bytes Constraint
  pub new_version : Bytes → Result Bytes Version
  pub check : Constraint → Version → Bool
  pub greater_than : Version → Version → Bool

-- The errors of the package, with the operands of their messages.
pub data SelectError : Type 0 where
  invalid_filter : Bytes → Bytes → SelectError
  invalid_range : Bytes → Bytes → SelectError
  invalid_pattern : Bytes → Bytes → SelectError
  no_rule : SelectError
  out_of_range : SelectError

unfoldable pub order : SortOrder → SortOrder
order o = if o == ascending then ascending else descending

abbrev pub less_of : Bool → Bytes → Bytes → Bool
less_of numeric = if numeric then numeric_less else lex_less

-- The end of the sorted list that the order picks.
abbrev pub pick_end : {A : Type 0} → SortOrder → List A → Result SelectError A
pick_end o sorted =
    if o == ascending
    then index out_of_range sorted 0
    else index out_of_range sorted (length sorted - 1)

unfoldable pub select_ordered : List Bytes → Bool → SortOrder → Result SelectError Bytes
select_ordered tags numeric o =
    if nat_eq (length tags) 0 then ok [] else pick_end o (sort_stable (less_of numeric) tags)

module _ (R : RegexpLib) where
  unfoldable pub filter : List Bytes → R.Regexp → List Bytes
  filter [] re = []
  filter (t ∷ tags) re = let rest = filter tags re in if R.match_string re t then t ∷ rest else rest

  -- A tag with the key that orders it.
  pub record Pair : Type 0 where
    pub original : Bytes
    pub key : Bytes

  -- The loop over the tags: the tags that match, each with its key.
  unfoldable pub pairs : List Bytes → R.Regexp → Bytes → List Pair
  pairs [] re extract = []
  pairs (t ∷ tags) re extract =
      let rest = pairs tags re extract in
      elim (R.find_submatch re t) [
        | none ↦ rest
        | some m ↦
            record { original = t; key = if extract == [] then t else R.expand re extract t m }
            ∷ rest
      ]

  -- The rest of `selectRegex`, behind the loop.
  unfoldable pub pick_pair : List Pair → Bool → SortOrder → Result SelectError Bytes
  pick_pair found numeric o =
      if nat_eq (length found) 0
      then ok []
      else pick_end o (sort_stable (λ a b. less_of numeric a.key b.key) found) >>= λ winner.
          ok winner.original

  unfoldable pub select_regex : List Bytes → RegexPolicy → Result SelectError Bytes
  select_regex tags p =
      wrap_err (invalid_pattern p.pattern_text) (R.compile p.pattern_text) >>= λ re.
      pick_pair (pairs tags re p.extract) p.numeric (order p.order)

module _ (S : SemverLib) where
  -- The loop of `selectSemver`, over `best` and `bestTag`.
  unfoldable pub semver_loop : S.Constraint → List Bytes → Option S.Version → Bytes → Bytes
  semver_loop c [] best best_tag = best_tag
  semver_loop c (t ∷ tags) best best_tag =
      let skip = semver_loop c tags best best_tag in
      elim (S.new_version (trim_prefix t (codes "v"))) [
        | err _ ↦ skip
        | ok v ↦
            let take = semver_loop c tags (some v) t in
            elim (S.check c v) [
              | false ↦ skip
              | true ↦ elim best [
                | none ↦ take
                | some b ↦ if S.greater_than v b then take else skip
              ]
            ]
      ]

  unfoldable pub select_semver : List Bytes → Bytes → Result SelectError Bytes
  select_semver tags constraint =
      wrap_err (invalid_range constraint) (S.new_constraint constraint) >>= λ c.
      ok (semver_loop c tags none [])

module _ (R : RegexpLib) (S : SemverLib) where
  -- The optional filter in front of the rule.
  unfoldable pub candidates : List Bytes → Option TagFilter → Result SelectError (List Bytes)
  candidates tags none = ok tags
  candidates tags (some f) =
      wrap_err (invalid_filter f.pattern_text) (R.compile f.pattern_text) >>= λ re.
      ok (filter R tags re)

  -- The `switch`: the first rule that is set.
  unfoldable pub select_rule : List Bytes → Policy → Result SelectError Bytes
  select_rule tags p = elim p.semver [
    | some s ↦ select_semver S tags s.range
    | none ↦ elim p.regex [
      | some r ↦ select_regex R tags r
      | none ↦ elim p.numerical [
        | some n ↦ select_ordered tags true (order n.order)
        | none ↦ elim p.alphabetical [
          | some a ↦ select_ordered tags false (order a.order)
          | none ↦ err no_rule
        ]
      ]
    ]
  ]

  unfoldable pub select : List Bytes → ImagePolicySpec → Result SelectError Bytes
  select tags spec = candidates tags spec.filter_tags >>= λ found. select_rule found spec.policy
