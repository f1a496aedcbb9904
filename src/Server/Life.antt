-- ===== src/Server/Life.antt =====
-- How a server of internal/webhook or internal/dashboard ends.
use mathlib.Core.Path.{subst}
use image_updater_operator.Prelude.{
  ◌≡◌, refl, ◌⊎◌, inl, inr, Bool, true, false, Option, none, some, Bool-cases,
}
use image_updater_operator.Server.{
  HttpLib, Listener, listening, sending, finished, Waiter, selecting, shutting_down, returned,
  Server, started, after_listen, Step, cancelled, listened, sent, done, shut_down, received, Reach,
  here, later,
}

module _ (H : HttpLib) where
  -- The listener has an error to send only while the channel is empty, and an error in flight is not
  -- that of a closed server.
  abbrev IsFlight : Option H.Error → Listener H → Type 0
  IsFlight none listening = Unit
  IsFlight none (sending e) = H.is_server_closed e ≡ false
  IsFlight none finished = Unit
  IsFlight (some e) listening = ⊥
  IsFlight (some e) (sending _) = ⊥
  IsFlight (some e) finished = H.is_server_closed e ≡ false

  -- The waiter returns after a cancellation, or with an error of the listener.
  abbrev IsCause : Bool → Waiter H → Type 0
  IsCause c selecting = Unit
  IsCause c shutting_down = c ≡ true
  IsCause c (returned none) = c ≡ true
  IsCause c (returned (some e)) = (c ≡ true) ⊎ (H.is_server_closed e ≡ false)

  record IsSound (s : Server H) : Type 0 where
    flight : IsFlight s.err_ch s.listener
    cause : IsCause s.is_cancelled s.waiter

  cancelled-IsCause : (c : Bool) (w : Waiter H) → IsCause c w → IsCause true w
  cancelled-IsCause c selecting h = tt
  cancelled-IsCause c shutting_down h = refl
  cancelled-IsCause c (returned none) h = refl
  cancelled-IsCause c (returned (some e)) h = inl refl

  after_listen-IsFlight : (result : Option H.Error) → IsFlight none (after_listen H result)
  unfolding after_listen
  after_listen-IsFlight none = tt
  after_listen-IsFlight (some e) = elim (Bool-cases (H.is_server_closed e)) [
    | inl h ↦ rw h tt
    | inr h ↦ rw h h
  ]

  listening-empty : (ch : Option H.Error) → IsFlight ch listening → ch ≡ none
  listening-empty none h = refl
  listening-empty (some _) h = absurd h

  shut_down-IsCause : (c : Bool) (result : Option H.Error) → c ≡ true → IsCause c (returned result)
  shut_down-IsCause c none h = h
  shut_down-IsCause c (some e) h = inl h

  IsFlight-received :
      (e : H.Error) (l : Listener H)
      → IsFlight (some e) l
      → (H.is_server_closed e ≡ false) × IsFlight none l
  IsFlight-received e listening h = absurd h
  IsFlight-received e (sending _) h = absurd h
  IsFlight-received e finished h = (h, tt)

  Step-IsSound : {s t : Server H} → Step H s t → IsSound s → IsSound t
  Step-IsSound {s} cancelled k = record {
    flight = k.flight;
    cause = cancelled-IsCause s.is_cancelled s.waiter k.cause;
  }
  Step-IsSound {s} (listened result l) k = record {
    flight =
        rw (listening-empty s.err_ch (subst (IsFlight s.err_ch) l k.flight))
          (after_listen-IsFlight result);
    cause = k.cause;
  }
  Step-IsSound {s} (sent e l n) k =
      let f : IsFlight none (sending e) =
        subst (λ (ch : Option H.Error). IsFlight ch (sending e)) n
          (subst (IsFlight s.err_ch) l k.flight) in
      record { flight = f; cause = k.cause }
  Step-IsSound {s} (done w c) k = record { flight = k.flight; cause = c }
  Step-IsSound {s} (shut_down result w) k =
      let c : IsCause s.is_cancelled shutting_down = subst (IsCause s.is_cancelled) w k.cause in
      record { flight = k.flight; cause = shut_down-IsCause s.is_cancelled result c }
  Step-IsSound {s} (received e w n) k =
      let (failed, empty) =
        IsFlight-received e s.listener
          (subst (λ (ch : Option H.Error). IsFlight ch s.listener) n k.flight) in
      record { flight = empty; cause = inr failed }

  Reach-IsSound : {s : Server H} → Reach H s → IsSound s
  unfolding started
  Reach-IsSound here = record { flight = tt; cause = tt }
  Reach-IsSound (later r step) = Step-IsSound step (Reach-IsSound r)

  sending-empty : (ch : Option H.Error) (e : H.Error) → IsFlight ch (sending e) → ch ≡ none
  sending-empty none e h = refl
  sending-empty (some _) e h = absurd h

  returned-cause :
      (c : Bool) (result : Option H.Error)
      → IsCause c (returned result)
      → (c ≡ true) ⊎ ((e : H.Error) × (result ≡ some e) × (H.is_server_closed e ≡ false))
  returned-cause c none h = inl h
  returned-cause c (some e) (inl h) = inl h
  returned-cause c (some e) (inr h) = inr (e, refl, h)

  -- Whatever the order of the events is, `Start` returns only after the cancellation of its context or
  -- with the error of a listener that was not shut down.
  pub Reach-ends :
      (s : Server H) (result : Option H.Error)
      → Reach H s
      → s.waiter ≡ returned result
      → (s.is_cancelled ≡ true)
        ⊎ ((e : H.Error) × (result ≡ some e) × (H.is_server_closed e ≡ false))
  Reach-ends s result r w =
      returned-cause s.is_cancelled result
        (subst (IsCause s.is_cancelled) w (Reach-IsSound r).cause)

  -- A listener that has an error to send finds the channel empty, also when `Start` has returned.
  pub sending-room :
      (s : Server H) (e : H.Error) → Reach H s → s.listener ≡ sending e → s.err_ch ≡ none
  sending-room s e r l =
      sending-empty s.err_ch e (subst (IsFlight s.err_ch) l (Reach-IsSound r).flight)
