-- ===== src/Startup/Exit.antt =====
-- How the process of cmd/main.go ends: its calls against those that the configuration asks for.
use mathlib.Core.Path.{subst}
use image_updater_operator.Prelude.{
  ◌≡◌, refl, ap, ◌⊎◌, inl, inr, Option, none, some, List, [], ◌∷◌, ◌++◌, Bytes, arith, All, In,
  Option-cases, ℕ, sym,
}
use image_updater_operator.Startup.Options.{Flags, TlsLib}
use image_updater_operator.Startup.{Ran, Call, start, main}
use image_updater_operator.Startup.Calls.{preparations}
use image_updater_operator.Startup.Runs.{run_calls, exits, main-Runs}

module _ {C S : Type 0} (perform : S → C → S × Option Bytes) where
  -- The state after calls in a row.
  abbrev pub after_calls : S → List C → S
  after_calls s [] = s
  after_calls s (c ∷ calls) = after_calls (perform s c).0 calls

  -- No call in a row fails.
  abbrev pub AllAccepted : S → List C → Type 0
  AllAccepted s [] = Unit
  AllAccepted s (c ∷ calls) = ((perform s c).1 ≡ none) × AllAccepted (perform s c).0 calls

  -- The calls up to the first one that fails, and that one.
  abbrev pub IsCutOff : S → List C → List C → Type 0
  IsCutOff s calls made =
      (before : List C) × (c : C) × (after : List C) × (e : Bytes) × (calls ≡ before ++ c ∷ after)
      × (made ≡ before ++ c ∷ [])
      × AllAccepted s before
      × ((perform (after_calls s before) c).1 ≡ some e)

  -- The process made all the calls and exits with 0, or stopped at the first one that fails with 1.
  abbrev pub IsEnd : S → List C → Ran ℕ C S → Type 0
  IsEnd s calls r =
      ((r.stopped ≡ none) × (r.made ≡ calls) × AllAccepted s calls)
      ⊎ ((r.stopped ≡ some 1) × IsCutOff s calls r.made)

  run_calls-accepted :
      (s : S) (c : C) (calls : List C)
      → (perform s c).1 ≡ none
      → let rest = run_calls perform (exits perform) (perform s c).0 calls in
        run_calls perform (exits perform) s (c ∷ calls)
        ≡ record { stopped = rest.stopped; made = c ∷ rest.made; state = rest.state }
  unfolding run_calls
  run_calls-accepted s c calls e = ground (arith, e)

  run_calls-failed :
      (s : S) (c : C) (calls : List C) (x : Bytes)
      → (perform s c).1 ≡ some x
      → run_calls perform (exits perform) s (c ∷ calls)
        ≡ record { stopped = some 1; made = c ∷ []; state = (perform s c).0 }
  unfolding run_calls
  run_calls-failed s c calls x e = ground (arith, e)

  pub run_calls-IsEnd :
      (s : S) (calls : List C) → IsEnd s calls (run_calls perform (exits perform) s calls)
  run_calls-IsEnd s [] = unfold run_calls in inl (refl, refl, tt)
  run_calls-IsEnd s (c ∷ calls) = elim (Option-cases (perform s c).1) [
    | inl e ↦ rw (run_calls-accepted s c calls e) (elim (run_calls-IsEnd (perform s c).0 calls) [
      | inl (code, made, accepted) ↦ inl (code, ap (λ (l : List C). c ∷ l) made, (e, accepted))
      | inr (code, (before, d, after, x, split, made, accepted, failed)) ↦ inr (
        code,
        (
          c ∷ before,
          d,
          after,
          x,
          ap (λ (l : List C). c ∷ l) split,
          ap (λ (l : List C). c ∷ l) made,
          (e, accepted),
          failed,
        ),
      )
    ])
    | inr (x, e) ↦
        rw (run_calls-failed s c calls x e) (inr (refl, ([], c, calls, x, refl, refl, tt, e)))
  ]

  -- A last call that no other call is like is made when the others have succeeded.
  pub run_calls-last :
      (IsOther : C → Type 0) (s : S) (calls : List C) (c : C)
      → (IsOther c → ⊥)
      → All IsOther calls
      → In c (run_calls perform (exits perform) s (calls ++ c ∷ [])).made
      → AllAccepted s calls
        × ((run_calls perform (exits perform) s (calls ++ c ∷ [])).made ≡ calls ++ c ∷ [])
  run_calls-last IsOther s [] c apart h i = elim (Option-cases (perform s c).1) [
    | inl e ↦ (tt, unfold run_calls in ap (λ (r : Ran ℕ C S). r.made) (run_calls-accepted s c [] e))
    | inr (x, e) ↦ (tt, ap (λ (r : Ran ℕ C S). r.made) (run_calls-failed s c [] x e))
  ]
  run_calls-last IsOther s (d ∷ calls) c apart (p, h) i =
      let next = (perform s d).0 in
      elim (Option-cases (perform s d).1) [
        | inl e ↦
            let run = run_calls-accepted s d (calls ++ c ∷ []) e in
            let j : In c (d ∷ (run_calls perform (exits perform) next (calls ++ c ∷ [])).made) =
              subst (λ (r : Ran ℕ C S). In c r.made) run i in
            elim j [
              | inl same ↦ absurd (apart (rw same p))
              | inr k ↦
                  let (accepted, made) = run_calls-last IsOther next calls c apart h k in
                  ((e, accepted), rw run (ap (λ (l : List C). d ∷ l) made))
            ]
        | inr (x, e) ↦
            let j : In c (d ∷ []) =
              subst (λ (r : Ran ℕ C S). In c r.made) (run_calls-failed s d (calls ++ c ∷ []) x e)
                i in
            elim j [ inl same ↦ absurd (apart (rw same p)) | inr k ↦ absurd k ]
      ]

-- The process makes the calls that its configuration asks for, in order, up to the first that fails,
-- and then exits with 1, or makes them all and returns.
pub main-IsEnd :
    (T : TlsLib) {S : Type 0} (perform : S → Call T → S × Option Bytes) (flags : Flags)
    (token : Bytes) (s : S)
    → IsEnd perform s (preparations T flags token ++ start ∷ []) (main T perform flags token s)
main-IsEnd T perform flags token s =
    let calls = preparations T flags token ++ start ∷ [] in
    subst (IsEnd perform s calls) (sym (main-Runs T perform flags token s))
      (run_calls-IsEnd perform s calls)
