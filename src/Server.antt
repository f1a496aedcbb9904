-- ===== src/Server.antt =====
-- internal/webhook/receiver.go and internal/dashboard/dashboard.go: `Start` of `Receiver` and of
-- `Server`, which have the same body but for their routes. A server is two goroutines, the one that
-- listens and the one that waits, with a channel for one error between them; a step is what one of
-- them does next, or the cancellation of the context. The results of `ListenAndServe` and `Shutdown`
-- and the errors are those of net/http, a parameter.
pub mod Life
pub mod Progress
use image_updater_operator.Prelude.{
  ◌≡◌, Bool, true, false, not, Option, none, some, List, [], ◌∷◌, Bytes, codes, if◌then◌else◌,
}

pub record HttpLib : Type 1 where
  pub Error : Type 0
  -- `errors.Is(err, http.ErrServerClosed)`.
  pub is_server_closed : Error → Bool

pub data Endpoint : Type 0 where
  push_events health overview assets : Endpoint

-- The handlers of the two servers, by their patterns.
unfoldable pub receiver_routes : List (Bytes × Endpoint)
receiver_routes = (codes "/webhook/", push_events) ∷ (codes "/healthz", health) ∷ []

unfoldable pub dashboard_routes : List (Bytes × Endpoint)
dashboard_routes =
    (codes "/", assets) ∷ (codes "/api/overview", overview) ∷ (codes "/healthz", health) ∷ []

module _ (H : HttpLib) where
  pub data Listener : Type 0 where
    listening : Listener
    sending : H.Error → Listener
    finished : Listener

  pub data Waiter : Type 0 where
    selecting : Waiter
    shutting_down : Waiter
    returned : Option H.Error → Waiter

  pub record Server : Type 0 where
    pub is_cancelled : Bool
    -- The buffer of `errCh`.
    pub err_ch : Option H.Error
    pub listener : Listener
    pub waiter : Waiter

  unfoldable pub started : Server
  started = record { is_cancelled = false; err_ch = none; listener = listening; waiter = selecting }

  -- What follows the return of `ListenAndServe`.
  unfoldable pub after_listen : Option H.Error → Listener
  after_listen none = finished
  after_listen (some e) = if not (H.is_server_closed e) then sending e else finished

  pub data Step (s : Server) : Server → Type 0 where
    cancelled : Step s (record s { is_cancelled = true })
    listened :
        (result : Option H.Error)
        → s.listener ≡ listening
        → Step s (record s { listener = after_listen result })
    sent :
        (e : H.Error)
        → s.listener ≡ sending e
        → s.err_ch ≡ none
        → Step s (record s { listener = finished; err_ch = some e })
    done :
        s.waiter ≡ selecting → s.is_cancelled ≡ true → Step s (record s { waiter = shutting_down })
    shut_down :
        (result : Option H.Error)
        → s.waiter ≡ shutting_down
        → Step s (record s { waiter = returned result })
    received :
        (e : H.Error)
        → s.waiter ≡ selecting
        → s.err_ch ≡ some e
        → Step s (record s { waiter = returned (some e); err_ch = none })

  pub data Reach : Server → Type 0 where
    here : Reach started
    later : {s t : Server} → Reach s → Step s t → Reach t
