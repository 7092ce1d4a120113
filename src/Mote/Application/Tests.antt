-- ===== src/Mote/Application/Tests.antt =====
-- The theorem about ictp/mqtt-sn/example.c at a concrete run.
use ts_it.Base.{false, ◌≡◌, refl, Option, none, some, strncpy, strlen}
use ts_it.Mote.Send.{send_connect, send_packet}
use ts_it.Mote.Events.{create_socket}
use ts_it.Mote.Application.{
  App, periodic_timer, connection_timeout, boot, ask_connection, timeout_event, main_event,
}
use ts_it.Mote.Application.Callbacks.{AppStep, AppReachable}
use ts_it.Mote.Application.Bounded.{IsBounded}
use ts_it.Mote.Application.Laws.{AppReachable-IsBounded}

abbrev ended_with : Option App → App
ended_with none = boot 128 false
ended_with (some a) = a

-- With 128 ticks in a second: the mote has settled, and no CONNACK has come.
abbrev settled : App
settled = ended_with (main_event 128 periodic_timer (boot 128 false))

settled-step : main_event 128 periodic_timer (boot 128 false) ≡ some settled
unfolding main_event ask_connection send_connect send_packet create_socket strncpy strlen
settled-step = refl

abbrev timed_out : App
timed_out = ended_with (main_event 128 connection_timeout settled)

timed_out-step : main_event 128 connection_timeout settled ≡ some timed_out
unfolding main_event timeout_event ask_connection send_connect send_packet create_socket strncpy
    strlen
timed_out-step = refl

AppReachable-IsBounded_example : IsBounded timed_out
AppReachable-IsBounded_example = AppReachable-IsBounded 128 (
    AppReachable.step settled timed_out
      (AppReachable.step (boot 128 false) settled (AppReachable.start false)
        (AppStep.main periodic_timer (boot 128 false) settled settled-step))
      (AppStep.main connection_timeout settled timed_out timed_out-step))
