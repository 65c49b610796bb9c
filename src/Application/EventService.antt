-- ===== src/Application/EventService.antt =====
-- internal/application/event_service.go
pub mod Page
use go_event_ticket_reservat.Prelude.{ℕ, String, List, if◌then◌else◌}
use go_event_ticket_reservat.Prelude.Int.{ℤ, pos, ltb_ℤ, leb_ℤ}
use go_event_ticket_reservat.Domain.Event
use go_event_ticket_reservat.Domain.Event.{Event, new_event}
use go_event_ticket_reservat.World.Exec.{Exec, lift, wrapping, time_now, ◌>>=◌, ◌>>◌}
use go_event_ticket_reservat.Postgres.Events

pub record CreateEventInput : Type 0 where
  pub name : String
  pub description : String
  pub venue : String
  pub start_at : ℕ
  pub end_at : ℕ
  pub total_seats : ℤ

unfoldable pub create_event : CreateEventInput → Exec Event
create_event input = do
  now ← time_now
  let e =
      new_event now input.name input.description input.venue input.start_at input.end_at
        input.total_seats
  wrapping "バリデーションエラー" (lift (Event.validate e))
  wrapping "イベント作成に失敗しました" (Events.create e)

unfoldable pub get_event : String → Exec Event
get_event id = Events.get_by_id id

-- The limit and the offset that ListEvents asks for
unfoldable pub clamp_limit : ℤ → ℤ
clamp_limit limit =
    let given = if leb_ℤ limit (pos 0) then pos 20 else limit in
    if ltb_ℤ (pos 100) given then pos 100 else given

unfoldable pub clamp_offset : ℤ → ℤ
clamp_offset offset = if ltb_ℤ offset (pos 0) then pos 0 else offset

unfoldable pub list_events : ℤ → ℤ → Exec (List Event)
unfolding clamp_limit clamp_offset
list_events limit offset = Events.list (clamp_limit limit) (clamp_offset offset)

pub record UpdateEventInput : Type 0 where
  pub id : String
  pub name : String
  pub description : String
  pub venue : String
  pub start_at : ℕ
  pub end_at : ℕ
  pub total_seats : ℤ

-- The assignments of UpdateEvent
unfoldable pub assign : UpdateEventInput → Event → Event
assign input e = record e {
  name = input.name;
  description = input.description;
  venue = input.venue;
  start_at = input.start_at;
  end_at = input.end_at;
  total_seats = input.total_seats;
}

unfoldable pub update_event : UpdateEventInput → Exec Event
unfolding assign
update_event input = do
  e ← Events.get_by_id input.id
  wrapping "バリデーションエラー" (lift (Event.validate (assign input e)))
  Events.update (assign input e)

unfoldable pub delete_event : String → Exec (Unit {0})
delete_event id = Events.delete id
