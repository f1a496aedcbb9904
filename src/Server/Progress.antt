-- ===== src/Server/Progress.antt =====
-- That a server of internal/webhook or internal/dashboard comes to its end after a cancellation.
use image_updater_operator.Prelude.{
  ◌≢◌, ℕ, ◌+◌, ◌≤◌, ◌<◌, ◌≡◌, refl, ap, ◌⊎◌, inl, inr, true, Option, none, some, arith, Bool-cases,
}
use image_updater_operator.Server.{
  HttpLib, Listener, listening, sending, finished, Waiter, selecting, shutting_down, returned,
  Server, after_listen, Step, cancelled, listened, sent, done, shut_down, received, Reach,
}
use image_updater_operator.Server.Life.{sending-room}

module _ (H : HttpLib) where
  abbrev listener_rank : Listener H → ℕ
  listener_rank listening = 2
  listener_rank (sending _) = 1
  listener_rank finished = 0

  abbrev waiter_rank : Waiter H → ℕ
  waiter_rank selecting = 2
  waiter_rank shutting_down = 1
  waiter_rank (returned _) = 0

  -- The most steps that are left, but for cancellations.
  abbrev pub rank : Server H → ℕ
  rank s = listener_rank s.listener + waiter_rank s.waiter

  after_listen-rank : (result : Option H.Error) → listener_rank (after_listen H result) ≤ 1
  unfolding after_listen
  after_listen-rank none = omega arith
  after_listen-rank (some e) = elim (Bool-cases (H.is_server_closed e)) [
    | inl h ↦ rw h (omega arith)
    | inr h ↦ rw h (omega arith)
  ]

  -- A step is the cancellation, or leaves fewer steps.
  Step-rank :
      {s t : Server H} → Step H s t → (t ≡ record s { is_cancelled = true }) ⊎ (rank t < rank s)
  Step-rank cancelled = inl refl
  Step-rank (listened result l) = inr (omega (arith, ap listener_rank l, after_listen-rank result))
  Step-rank (sent e l n) = inr (omega (arith, ap listener_rank l))
  Step-rank (done w c) = inr (omega (arith, ap waiter_rank w))
  Step-rank (shut_down result w) = inr (omega (arith, ap waiter_rank w))
  Step-rank (received e w n) = inr (omega (arith, ap waiter_rank w))

  Waiter-cases :
      (w : Waiter H)
      → (w ≡ selecting) ⊎ (w ≡ shutting_down) ⊎ ((r : Option H.Error) × (w ≡ returned r))
  Waiter-cases selecting = inl refl
  Waiter-cases shutting_down = inr (inl refl)
  Waiter-cases (returned r) = inr (inr (r, refl))

  Listener-cases :
      (l : Listener H) → (l ≡ listening) ⊎ (l ≡ finished) ⊎ ((e : H.Error) × (l ≡ sending e))
  Listener-cases listening = inl refl
  Listener-cases finished = inr (inl refl)
  Listener-cases (sending e) = inr (inr (e, refl))

  -- Both goroutines have ended.
  abbrev pub IsOver : Server H → Type 0
  IsOver s = (s.listener ≡ finished) × ((r : Option H.Error) × (s.waiter ≡ returned r))

  abbrev pub Moves : Server H → Type 0
  Moves s = (t : Server H) × Step H s t × (rank t < rank s)

  done-Moves : (s : Server H) → s.waiter ≡ selecting → s.is_cancelled ≡ true → Moves s
  done-Moves s w c =
      (record s { waiter = shutting_down }, done w c, omega (arith, ap waiter_rank w))

  shut_down-Moves : (s : Server H) → s.waiter ≡ shutting_down → Moves s
  shut_down-Moves s w =
      (record s { waiter = returned none }, shut_down none w, omega (arith, ap waiter_rank w))

  sent-Moves : (s : Server H) (e : H.Error) → s.listener ≡ sending e → s.err_ch ≡ none → Moves s
  sent-Moves s e l n = (
    record s { listener = finished; err_ch = some e },
    sent e l n,
    omega (arith, ap listener_rank l),
  )

  -- After a cancellation, once the listener has returned, a server makes step after step, each of which
  -- leaves fewer to be made, until both of its goroutines have ended. None waits for the other.
  pub Reach-Moves :
      (s : Server H)
      → Reach H s
      → s.is_cancelled ≡ true
      → s.listener ≢ listening
      → IsOver s ⊎ Moves s
  Reach-Moves s r c l = elim (Waiter-cases s.waiter) [
    | inl w ↦ inr (done-Moves s w c)
    | inr (inl w) ↦ inr (shut_down-Moves s w)
    | inr (inr (result, w)) ↦ elim (Listener-cases s.listener) [
      | inl k ↦ absurd (l k)
      | inr (inl k) ↦ inl (k, (result, w))
      | inr (inr (e, k)) ↦ inr (sent-Moves s e k (sending-room H s e r k))
    ]
  ]
