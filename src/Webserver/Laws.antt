-- ===== src/Webserver/Laws.antt =====
-- The charts of ictp/webserver/websense.c: which numbers they show, and when the buffer is too small.
use ts_it.Base.{
  ℕ, ◌≤◌, ◌<◌, ◌≡◌, ◌⊎◌, inl, inr, refl, ◌∙◌, ◌++◌, Option-cases, none, some, List, length, take,
  map, codes, c_string, IsText, All-append, All-take, c_string-append, length-append, arith,
}
use ts_it.Webserver.{
  ℤ, Reading, at_start, Page, add_text, chart_loop, chart_head, generate_chart, hundredth,
}
use ts_it.Webserver.Buffer.{Filled, first-Filled}
use ts_it.Webserver.History.{sense_run, last_sixteen, Ring, history-Ring}
use ts_it.Webserver.Texts.{numbers, IsText-numbers, IsText-chart_head}
use ts_it.Webserver.Loop.{then_add, loop-Ends}

-- What generate_chart leaves of the numbers `w`: the text is cut to 255 characters and terminated,
-- unless what stands before its last two characters has more than 256.
abbrev pub Shows : List ℕ → List ℕ → ℤ → ℤ → List ℤ → ℕ → List ℕ → List ℤ → Type 0
Shows title unit min max values at buf w =
    let text = chart_head title unit min max ++ numbers w in
    let result = generate_chart title unit min max values at buf in
    ((length text ≤ 256)
      × ((q : Page) × (result ≡ some q)
          × (c_string q.buf ≡ some (take 255 (text ++ codes "\">")))
          × (q.blen ≡ length (text ++ codes "\">"))))
    ⊎ ((256 < length text) × (result ≡ none))

Filled-shown : (t : List ℕ) (q : Page) → Filled t q → IsText t → c_string q.buf ≡ some (take 255 t)
Filled-shown t q f h = rw (f.text) (c_string-append (take 255 t) f.rest (All-take _ 255 t h))

generate-then :
    (title unit : List ℕ) (min max : ℤ) (values : List ℤ) (at : ℕ) (buf : List ℕ) (p : Page)
    → add_text (chart_head title unit min max) (record { buf = buf; blen = 0 }) ≡ some p
    → generate_chart title unit min max values at buf
      ≡ then_add (codes "\">") (chart_loop 16 0 at values p)
unfolding generate_chart
generate-then title unit min max values at buf p e =
    elim (Option-cases (chart_loop 16 0 at values p)) [
      | inl n ↦ rw (e, generate_chart) (rw (n) refl)
      | inr (q, n) ↦ rw (e, generate_chart) (rw (n) refl)
    ]

Ring-Shows :
    (title unit : List ℕ) (min max : ℤ) (values : List ℤ) (at : ℕ) (buf : List ℕ) (w : List ℤ)
    → IsText title
    → IsText unit
    → Ring values at w
    → Shows title unit min max values at buf w
Ring-Shows title unit min max values at buf w t u r =
    let head = chart_head title unit min max in
    let (p, e, f) = first-Filled (chart_head title unit min max) buf in
    let size : length w ≡ 16 = rw (r.order) (length-append r.older r.newer ∙ r.size) in
    let all =
      loop-Ends 16 at values w (chart_head title unit min max) (codes "\">") p f r (omega arith)
        size in
    let same = generate-then title unit min max values at buf p e in
    let is_text =
      All-append _ head (numbers w) (IsText-chart_head title unit min max t u) (IsText-numbers w) in
    elim all [
      | inl (small, (q, g, h)) ↦ inl (
        small,
        (
          q,
          same ∙ g,
          Filled-shown _ q h (All-append _ (head ++ numbers w) (codes "\">") is_text (omega arith)),
          h.blen,
        ),
      )
      | inr (large, g) ↦ inr (large, same ∙ g)
    ]

-- After any readings, for a title, a unit and a range of any kind, and whatever is in the buffer: a
-- chart shows the last sixteen readings, the oldest first, with zeros for those that there were
-- not yet. The text is whole where it has 255 characters at most, and else cut to 255; where
-- what stands before its last two characters has more than 256, it is written beyond the buffer.
-- Of the temperature, hundredths are shown.
pub chart-Shows :
    (title unit : List ℕ) (min max : ℤ) (buf : List ℕ) (rs : List Reading)
    → IsText title
    → IsText unit
    → let e = sense_run rs at_start in
      Shows title unit min max e.xaxis e.sensors_pos buf
        (last_sixteen (map (λ (r : Reading). r.x_axis) rs))
      × Shows title unit min max e.temperature e.sensors_pos buf
          (last_sixteen (map (λ (r : Reading). hundredth r.temp) rs))
chart-Shows title unit min max buf rs t u =
    let e = sense_run rs at_start in
    let (x, y) = history-Ring rs in
    (
      Ring-Shows title unit min max e.xaxis e.sensors_pos buf
          (last_sixteen (map (λ (r : Reading). r.x_axis) rs)) t u x,
      Ring-Shows title unit min max e.temperature e.sensors_pos buf
          (last_sixteen (map (λ (r : Reading). hundredth r.temp) rs)) t u y,
    )
