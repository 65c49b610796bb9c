-- ===== src/Application/Interleaving/Good.antt =====
-- What the transaction of a call of the reservation service does to the others in flight.
use go_event_ticket_reservat.Prelude.{ℕ, ◌≡◌, ◌≢◌, sym, subst, ap, List, [], ◌∷◌, ◌++◌}
use go_event_ticket_reservat.Errors.{Result, ok, err}
use go_event_ticket_reservat.Domain.Reservation.{Reservation, pending, confirmed, cancelled}
use go_event_ticket_reservat.World.Rows.{Db, World}
use go_event_ticket_reservat.World.Exec.{Exec}
use go_event_ticket_reservat.World.Logic.{Ends}
use go_event_ticket_reservat.Postgres.Tx.Settles.{Settles}
use go_event_ticket_reservat.Postgres.Seats.{released_row}
use go_event_ticket_reservat.Booking.{Consistent}
use go_event_ticket_reservat.Booking.Reserve.{Reserved, reserve-Consistent}
use go_event_ticket_reservat.Booking.Finish.{Moved, release-Consistent}
use go_event_ticket_reservat.Booking.Named.{
  Named, Named-Moved, Named-reserved, confirm_again-Consistent,
}
use go_event_ticket_reservat.Application.ReservationService.{ReservationService}
use go_event_ticket_reservat.Application.ReservationService.Finish.{cancel_lem}
use go_event_ticket_reservat.Application.ReservationService.Outcome.{
  Stored, store_reservation-Settles,
}
use go_event_ticket_reservat.Application.ReservationService.Ended.{
  WroteAll, names, store_confirmed-WroteAll, store_cancelled-Settles,
}
use go_event_ticket_reservat.Application.Interleaving.{
  Flight, creating, confirming, cancelling, expiring, transact, RowIs, NotOvertaken,
}
use go_event_ticket_reservat.Application.ReservationService.Expired.{
  Expired, cancel_expired-Settles,
}

-- What a call in flight has of its reservation
abbrev pub Fits : Db → Flight → Type 0
Fits d (creating r) = r.status ≡ pending
Fits d (confirming r) = Named d r × (r.status ≡ confirmed)
Fits d (cancelling r) = Named d r × (r.status ≡ cancelled)
Fits d (expiring r) = Named d r × (r.status ≡ pending)

abbrev pub AllFit : Db → List Flight → Type 0
AllFit d [] = Unit
AllFit d (f ∷ fs) = Fits d f × AllFit d fs

pub Fits-kept :
    {d d' : Db} → ((r : Reservation) → Named d r → Named d' r) → (f : Flight) → Fits d f → Fits d' f
Fits-kept k (creating r) h = h
Fits-kept k (confirming r) (n, e) = (k r n, e)
Fits-kept k (cancelling r) (n, e) = (k r n, e)
Fits-kept k (expiring r) (n, e) = (k r n, e)

pub AllFit-kept :
    {d d' : Db}
    → ((r : Reservation) → Named d r → Named d' r)
    → (fs : List Flight) → AllFit d fs
    → AllFit d' fs
AllFit-kept k [] h = tt
AllFit-kept k (f ∷ fs) h = (Fits-kept k f h.0, AllFit-kept k fs h.1)

pub AllFit-split :
    (d : Db) (before after : List Flight) (f : Flight)
    → AllFit d (before ++ f ∷ after)
    → Fits d f × AllFit d (before ++ after)
AllFit-split d [] after f h = h
AllFit-split d (g ∷ before) after f (one, rest) =
    let (this, others) = AllFit-split d before after f rest in (this, (one, others))

-- What a transaction does to the rest: the database stays consistent, and the reservations that
-- others have read keep their rows and seats.
pub record Good (d d' : Db) : Type 0 where
  pub is_consistent : Consistent d'
  pub keeps : (r : Reservation) → Named d r → Named d' r

Good-same : {d d' : Db} → Consistent d → d' ≡ d → Good d d'
Good-same {d} {d'} c e = subst (Good d) (sym e) (record { is_consistent = c; keeps = λ r n. n })

Good-ends :
    {A : Type 0} (R : Db → A → Db → Type 0) (d : Db) (r : Result A) (w : World)
    → Consistent d
    → ((a : A) → R d a w.db → Good d w.db)
    → Ends r w (λ a w'. R d a w'.db) (λ w'. w'.db ≡ d)
    → Good d w.db
Good-ends R d (ok a) w c k h = k a h
Good-ends R d (err e) w c k h = Good-same c h

Good-Settles :
    {A : Type 0} {R : Db → A → Db → Type 0} (m : Exec A)
    → Settles m R
    → (w : World) → Consistent w.db
    → ((a : A) (d' : Db) → R w.db a d' → Good w.db d')
    → Good w.db (m w).1.db
Good-Settles {R} m h w c k = Good-ends R w.db (m w).0 (m w).1 c (λ a. k a (m w).1.db) (h.run w)

Good-Stored :
    (r stored : Reservation) (d d' : Db)
    → Consistent d
    → r.status ≡ pending
    → Stored r stored d d'
    → Good d d'
Good-Stored r stored d d' c new st =
    let made = st.is_created in
    let same : stored.id ≡ made.id = ap (λ (k : Reservation). k.id) made.is_stored in
    let u = subst (λ k. Reserved k r.seat_ids st.now st.middle d') same st.is_reserved in
    record {
      is_consistent =
          reserve-Consistent made.id r r.seat_ids st.now d made.middle st.middle d' c made.inserted
            made.links u new;
      keeps =
          Named-reserved made.id r r.seat_ids st.now d made.middle st.middle d' c made.inserted
            made.links u;
    }

Good-confirmed :
    (r out : Reservation) (d d' : Db)
    → Consistent d
    → Named d r × (r.status ≡ confirmed)
    → RowIs (λ st. st ≢ cancelled) d r.id
    → WroteAll r d out d'
    → Good d d'
Good-confirmed r out d d' c ((row, n), done) live (full, (_, (now, m))) = record {
  is_consistent = confirm_again-Consistent r row now d d' c n m full done (live row n.found);
  keeps = Named-Moved m;
}

Good-released :
    (r : Reservation) (now : ℕ) (d d' : Db)
    → Consistent d
    → Named d r × (r.status ≡ cancelled)
    → RowIs (λ st. st ≡ pending) d r.id
    → Moved r (names r.seat_ids) (released_row now) d d'
    → Good d d'
Good-released r now d d' c ((row, n), done) live m = record {
  is_consistent = release-Consistent r row now d d' c n (live row n.found) m done;
  keeps = Named-Moved m;
}

pub Named-same :
    (d : Db) (r done : Reservation)
    → done.id ≡ r.id
    → done.seat_ids ≡ r.seat_ids
    → Named d r
    → Named d done
Named-same d r done same seats (row, n) =
    (row, record { found = rw same n.found; asked = λ sid. rw (seats, same) (n.asked sid) })

Good-Expired :
    (r : Reservation) (d d' : Db)
    → Consistent d
    → Named d r
    → RowIs (λ st. st ≡ pending) d r.id
    → Expired r d d'
    → Good d d'
Good-Expired r d d' c n live x =
    let (_, same, seats, after) = cancel_lem x.time r x.done x.is_cancelled in
    Good-released x.done x.now d d' c (Named-same d r x.done same seats n, after)
      (subst (RowIs (λ st. st ≡ pending) d) (sym same) live) x.is_moved

-- The transaction of a call in flight, from a consistent database
pub transact-Good :
    (s : ReservationService) (f : Flight) (w : World)
    → Consistent w.db
    → Fits w.db f
    → NotOvertaken w.db f
    → Good w.db (transact s f w).db
unfolding transact
transact-Good s (creating r) w c h o =
    Good-Settles _ (store_reservation-Settles s r) w c (λ a d'. Good-Stored r a w.db d' c h)
transact-Good s (confirming r) w c h o =
    Good-Settles _ (store_confirmed-WroteAll r) w c (λ a d'. Good-confirmed r a w.db d' c h o)
transact-Good s (cancelling r) w c h o =
    Good-Settles _ (store_cancelled-Settles s r) w c
      (λ a d' p. Good-released r p.1.0 w.db d' c h o p.1.1)
transact-Good s (expiring r) w c h o =
    Good-Settles _ (cancel_expired-Settles r) w c (λ a d'. Good-Expired r w.db d' c h.0 o)
