-- ===== src/Application/Interleaving/Safety.antt =====
-- Which overlaps of calls of the reservation service are safe.
use go_event_ticket_reservat.Prelude.{String, ◌≡◌, refl, sym, subst, [], ◌++◌}
use go_event_ticket_reservat.Domain.Reservation.{Reservation, pending}
use go_event_ticket_reservat.World.Rows.{Db}
use go_event_ticket_reservat.Booking.{Consistent, Books, no_double_booking}
use go_event_ticket_reservat.Booking.Finish.{ReadFrom-Names}
use go_event_ticket_reservat.Booking.Named.{Named}
use go_event_ticket_reservat.Application.ReservationService.{ReservationService}
use go_event_ticket_reservat.Application.ReservationService.Finish.{
  Loaded, ReadFrom-Loaded, confirm_lem, cancel_lem,
}
use go_event_ticket_reservat.Application.Interleaving.{
  System, NotOvertaken, Step, begins_create, begins_confirm, begins_cancel, begins_expire, commits,
  Reach, here, next,
}
use go_event_ticket_reservat.Application.Interleaving.Good.{
  Fits, AllFit, AllFit-kept, AllFit-split, transact-Good,
}

record Safe (y : System) : Type 0 where
  is_consistent : Consistent y.db
  fit : AllFit y.db y.flights

Named-Loaded :
    (d : Db) (id : String) (res done : Reservation)
    → Loaded d id res
    → res.status ≡ pending
    → done.id ≡ res.id
    → done.seat_ids ≡ res.seat_ids
    → Named d done
Named-Loaded d id res done l is same seats =
    let (row, from) = ReadFrom-Loaded d id res done l is same seats in
    (row, ReadFrom-Names d row done from)

Step-Safe : (s : ReservationService) {y z : System} → Step s y z → Safe y → Safe z
Step-Safe s (begins_create y r new) h = record {
  is_consistent = h.is_consistent;
  fit = (new, h.fit);
}
Step-Safe s (begins_confirm y id checked now res done l e) h =
    let (is, same, seats, after) = confirm_lem checked now res done e in
    record {
      is_consistent = h.is_consistent;
      fit = ((Named-Loaded y.db id res done l is same seats, after), h.fit);
    }
Step-Safe s (begins_cancel y id now res done l e) h =
    let (is, same, seats, after) = cancel_lem now res done e in
    record {
      is_consistent = h.is_consistent;
      fit = ((Named-Loaded y.db id res done l is same seats, after), h.fit);
    }
Step-Safe s (begins_expire y res l is) h = record {
  is_consistent = h.is_consistent;
  fit = ((Named-Loaded y.db res.id res res l is refl refl, is), h.fit);
}
Step-Safe s (commits y before after f w e same free) h =
    let c : Consistent w.db = subst Consistent (sym same) h.is_consistent in
    let (this, others) = AllFit-split y.db before after f (subst (AllFit y.db) e h.fit) in
    let g =
      transact-Good s f w c (subst (λ d. Fits d f) (sym same) this)
        (subst (λ d. NotOvertaken d f) (sym same) free) in
    record {
      is_consistent = g.is_consistent;
      fit =
          AllFit-kept g.keeps (before ++ after)
            (subst (λ d. AllFit d (before ++ after)) (sym same) others);
    }

Reach-Safe : (s : ReservationService) {y z : System} → Reach s y z → Safe y → Safe z
Reach-Safe s here h = h
Reach-Safe s (next r st) h = Step-Safe s st (Reach-Safe s r h)

-- From a consistent database where no call is in flight, however calls overlap, whatever age their
-- reads have and whether or not a lock is held, the database stays consistent and no seat belongs to
-- two active reservations, if no cancellation or expiry is made of a reservation that is not pending
-- any more, and no confirmation of one that is cancelled.
pub Reach-Consistent :
    (s : ReservationService) (d : Db) (y : System)
    → Consistent d
    → Reach s (record { db = d; flights = [] }) y
    → Consistent y.db × ((r₁ r₂ sid : String) → Books y.db r₁ sid → Books y.db r₂ sid → r₁ ≡ r₂)
Reach-Consistent s d y c r =
    let safe = (Reach-Safe s r (record { is_consistent = c; fit = tt })).is_consistent in
    (safe, λ r₁ r₂ sid. no_double_booking y.db r₁ r₂ sid safe)
