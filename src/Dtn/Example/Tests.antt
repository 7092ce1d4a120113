-- ===== src/Dtn/Example/Tests.antt =====
-- The theorem about ictp/spray-dtn/example-dtn.c at a press of the button and a spray.
use ts_it.Base.{arith, none, some, refl}
use ts_it.Dtn.Handlers.{spray_recv}
use ts_it.Dtn.Genuine.Steps.{hears_spray}
use ts_it.Dtn.Example.{Example, main_process, example_event, pressed}
use ts_it.Dtn.Example.Laws.{IsSteady, begun, event, hearing, ExampleReachable-IsSteady}
use ts_it.Dtn.Tests.{header, greeting, small, small-Appends}

-- Events of sensors have the number 7, and the button is 40.
abbrev pressed_once : Example
pressed_once = elim (example_event small 7 40 7 40 (main_process (header 0))) [
  | none ↦ main_process (header 0)
  | some x ↦ x
]

ExampleReachable-IsSteady_example :
    IsSteady (record pressed_once { conn = spray_recv small (greeting 8) 2 pressed_once.conn })
unfolding main_process example_event pressed
ExampleReachable-IsSteady_example = ExampleReachable-IsSteady small 7 40 small-Appends (
    hearing pressed_once (spray_recv small (greeting 8) 2 pressed_once.conn)
      (event 7 40 (main_process (header 0)) pressed_once (begun (header 0)) refl)
      (hears_spray (greeting 8) 2 pressed_once.conn (λ e. ground arith)))
