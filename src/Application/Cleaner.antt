-- ===== src/Application/Cleaner.antt =====
-- internal/worker/expired_reservation_cleaner.go
pub mod Missed
pub mod Swept
pub mod Rounds
pub mod Reading
pub mod Progress
use go_event_ticket_reservat.Prelude.{ℕ, List, [], ◌∷◌}
use go_event_ticket_reservat.World.Rows.{World}
use go_event_ticket_reservat.Application.ReservationService.{cancel_expired_reservations}

pub record ExpiredReservationCleaner : Type 0 where
  pub interval : ℕ
  pub expire_after : ℕ

-- cleanup: the count and the error are only logged.
unfoldable pub cleanup : ExpiredReservationCleaner → World → World
cleanup c w = (cancel_expired_reservations c.expire_after w).1

-- What the loop of Start receives: a tick, the end of the context, or the signal of Stop.
data Signal : Type 0 where
  tick done stop : Signal

-- Start, from the signals in the order in which `select` takes them
unfoldable start : ExpiredReservationCleaner → List Signal → World → World
unfolding cleanup
start c [] w = w
start c (tick ∷ signals) w = start c signals (cleanup c w)
start c (done ∷ signals) w = w
start c (stop ∷ signals) w = w
