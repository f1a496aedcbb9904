-- ===== src/Controller/Scan/Laws.antt =====
-- What `setReady` does to the conditions of a status.
use image_updater_operator.Prelude.{
  ℕ, ◌≡◌, refl, false, Option, none, some, List, [], ◌∷◌, Bytes, ◌==◌, arith, if◌then◌else◌, ==_iff,
  Bool-cases, inl, inr, ap, ◌∙◌,
}
use image_updater_operator.Api.{Condition, ImagePolicy}
use image_updater_operator.Controller.Scan.{condition_ready, set_conditions, set_ready}

-- The first condition of a kind.
unfoldable pub find_condition : Bytes → List Condition → Option Condition
find_condition k [] = none
find_condition k (c ∷ cs) = let rest = find_condition k cs in if c.kind == k then some c else rest

-- The time of the last transition of the condition Ready after it takes a status at a time.
abbrev pub transition : ℕ → Bytes → Option Condition → ℕ
transition now status none = now
transition now status (some c) = if c.status == status then c.last_transition_time else now

find-set_conditions :
    (cond : Condition) (cs : List Condition)
    → cond.kind ≡ condition_ready
    → find_condition condition_ready (set_conditions cond cs)
      ≡ some (record cond {
        last_transition_time =
            transition cond.last_transition_time cond.status (find_condition condition_ready cs);
      })
unfolding find_condition set_conditions
find-set_conditions cond [] e = ground arith
find-set_conditions cond (c ∷ cs) e = ground (arith, find-set_conditions cond cs e)

find-set_conditions_other :
    (cond : Condition) (cs : List Condition) (k : Bytes)
    → cond.kind ≡ condition_ready
    → (k == condition_ready) ≡ false
    → find_condition k (set_conditions cond cs) ≡ find_condition k cs
unfolding find_condition set_conditions
find-set_conditions_other cond [] k e h = ground arith
find-set_conditions_other cond (c ∷ cs) k e h =
    ground (arith, find-set_conditions_other cond cs k e h)

-- After `setReady` the condition Ready has the given status, reason and message, the generation
-- of the policy, and the time of its last transition: the old one if the status was the same, else
-- the present. Every other kind of condition is found as before.
pub find-set_ready :
    (now : ℕ) (ip : ImagePolicy) (status reason msg k : Bytes)
    → find_condition k ((set_ready now ip status reason msg).status.conditions) ≡ (
        if k == condition_ready
        then some (record {
          kind = condition_ready;
          status = status;
          reason = reason;
          message = msg;
          observed_generation = ip.generation;
          last_transition_time =
              transition now status (find_condition condition_ready ip.status.conditions);
        })
        else find_condition k ip.status.conditions)
unfolding set_ready
find-set_ready now ip status reason msg k =
    let cond : Condition = record {
      kind = condition_ready;
      status = status;
      reason = reason;
      message = msg;
      observed_generation = ip.generation;
      last_transition_time = now;
    } in
    elim (Bool-cases (k == condition_ready)) [
      | inl e ↦ rw e (
          ap (λ j. find_condition j (set_conditions cond ip.status.conditions))
            ((==_iff k condition_ready).0 e)
          ∙ find-set_conditions cond ip.status.conditions refl)
      | inr e ↦ rw e (find-set_conditions_other cond ip.status.conditions k refl e)
    ]
