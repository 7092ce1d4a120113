-- ===== src/Webserver/Tests.antt =====
-- The charts of ictp/webserver/websense.c with readings of -1000 and of -256, and the page at the start.
use ts_it.Base.{ℕ, ◌≡◌, refl, Option, none, some, List, replicate, codes, arith}
use ts_it.Webserver.{ℤ, pos, negsuc, Reading, Page, at_start, add_text, chart_loop, generate_chart}
use ts_it.Webserver.Laws.{Shows, chart-Shows}
use ts_it.Webserver.History.{sense_run}

abbrev tilted : List Reading
tilted = replicate 16 (record { x_axis = negsuc 999; temp = pos 2412 })

abbrev buffer : List ℕ
buffer = replicate 256 0

chart-Shows_example :
    let e = sense_run tilted at_start in
    Shows
      (codes "X axis")
      (codes "None")
      (negsuc 299)
      (pos 300)
      e.xaxis
      e.sensors_pos
      buffer
      (replicate 16 (negsuc 999))
    × Shows
        (codes "X axis")
        (codes "None")
        (negsuc 299)
        (pos 300)
        e.temperature
        e.sensors_pos
        buffer
        (replicate 16 (pos 24))
chart-Shows_example =
    chart-Shows (codes "X axis") (codes "None") (negsuc 299) (pos 300) buffer tilted (omega arith)
      (omega arith)

abbrev x_chart : List ℤ → Option Page
x_chart xs = generate_chart (codes "X axis") (codes "None") (negsuc 299) (pos 300) xs 0 buffer

abbrev size : Option Page → ℕ
size none = 0
size (some p) = p.blen

-- Sixteen readings of -256 just fit, those of -1000 do not.
full_chart : size (x_chart (replicate 16 (negsuc 255))) ≡ 253
unfolding generate_chart chart_loop add_text
full_chart = refl

overrun_chart : x_chart (replicate 16 (negsuc 999)) ≡ none
unfolding generate_chart chart_loop add_text
overrun_chart = refl
