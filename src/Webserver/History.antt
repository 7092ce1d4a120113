-- ===== src/Webserver/History.antt =====
-- The readings that ictp/webserver/websense.c keeps, in the order in which a chart shows them.
use ts_it.Base.{
  ℕ, zero, suc, ◌+◌, ◌-◌, ◌%◌, ◌≤◌, ◌<◌, ◌≡◌, refl, sym, ap, ◌∙◌, ◌⊎◌, inl, inr, ◌++◌, List, [],
  ◌∷◌, length, get_or, set, set-append_length, drop, replicate, map, arith, length-append,
}
use mathlib.Core.List.{append_assoc, append-nil}
use ts_it.Webserver.{ℤ, pos, Reading, Sense, at_start, sense_event, hundredth}

-- The process over a list of readings.
unfoldable pub sense_run : List Reading → Sense → Sense
unfolding sense_event
sense_run [] s = s
sense_run (r ∷ rs) s = sense_run rs (sense_event r s)

-- The last sixteen numbers behind sixteen zeros.
abbrev pub last_sixteen : List ℤ → List ℤ
last_sixteen xs = drop (length xs) (replicate 16 (pos 0) ++ xs)

-- A ring: the slot at `at` is the oldest, and `shown` has the numbers from the oldest on.
pub record Ring (values : List ℤ) (at : ℕ) (shown : List ℤ) : Type 0 where
  pub older : List ℤ
  pub newer : List ℤ
  pub layout : values ≡ newer ++ older
  pub here : at ≡ length newer
  pub order : shown ≡ older ++ newer
  pub within : length newer < 16
  pub size : length older + length newer ≡ 16

-- The oldest number goes, the new one comes last.
abbrev shift : List ℤ → ℤ → List ℤ
shift w v = drop 1 w ++ (v ∷ [])

put-Ring :
    (older newer values w : List ℤ) (at : ℕ) (v : ℤ)
    → values ≡ newer ++ older
    → at ≡ length newer
    → w ≡ older ++ newer
    → length newer < 16
    → length older + length newer ≡ 16
    → Ring (set values at v) ((at + 1) % 16) (shift w v)
put-Ring [] newer values w at v l h o lt n = absurd (omega (arith, lt, n))
put-Ring (x ∷ []) newer values w at v l h o lt n = record {
  older = newer ++ (v ∷ []);
  newer = [];
  layout = rw (l, h, set-append_length newer (x ∷ []) v) refl;
  here = omega (arith, h, n);
  order = rw (o) (sym (append-nil (newer ++ (v ∷ []))));
  within = omega arith;
  size = omega (arith, n, length-append newer (v ∷ []));
}
put-Ring (x ∷ y ∷ older) newer values w at v l h o lt n = record {
  older = y ∷ older;
  newer = newer ++ (v ∷ []);
  layout =
      rw (l, h, set-append_length newer (x ∷ y ∷ older) v)
        (sym (append_assoc newer (v ∷ []) (y ∷ older)));
  here = omega (arith, h, n, length-append newer (v ∷ []));
  order = rw (o) (append_assoc (y ∷ older) newer (v ∷ []));
  within = omega (arith, n, length-append newer (v ∷ []));
  size = omega (arith, n, length-append newer (v ∷ []));
}

shift-Ring :
    (values w : List ℤ) (at : ℕ) (v : ℤ)
    → Ring values at w
    → Ring (set values at v) ((at + 1) % 16) (shift w v)
shift-Ring values w at v r =
    put-Ring r.older r.newer values w at v r.layout r.here r.order r.within r.size

abbrev slide : List ℤ → List ℤ → List ℤ
slide w [] = w
slide w (v ∷ vs) = slide (shift w v) vs

slide-drop : (w vs : List ℤ) → 0 < length w → slide w vs ≡ drop (length vs) (w ++ vs)
slide-drop [] vs h = absurd (omega arith)
slide-drop (x ∷ w) [] h = sym (append-nil (x ∷ w))
slide-drop (x ∷ w) (v ∷ vs) h =
    let l = length-append w (v ∷ []) in
    slide-drop (w ++ (v ∷ [])) vs (omega arith) ∙ ap (drop (length vs)) (append_assoc w (v ∷ []) vs)

run-Ring :
    (rs : List Reading) (s : Sense) (x t : List ℤ)
    → Ring s.xaxis s.sensors_pos x
    → Ring s.temperature s.sensors_pos t
    → let e = sense_run rs s in
      Ring e.xaxis e.sensors_pos (slide x (map (λ (r : Reading). r.x_axis) rs))
      × Ring e.temperature e.sensors_pos (slide t (map (λ (r : Reading). hundredth r.temp) rs))
unfolding sense_run sense_event
run-Ring [] s x t hx ht = (hx, ht)
run-Ring (r ∷ rs) s x t hx ht =
    run-Ring rs (sense_event r s) (shift x r.x_axis) (shift t (hundredth r.temp))
      (shift-Ring s.xaxis x s.sensors_pos r.x_axis hx)
      (shift-Ring s.temperature t s.sensors_pos (hundredth r.temp) ht)

start-Ring : Ring (replicate 16 (pos 0)) 0 (replicate 16 (pos 0))
start-Ring = record {
  older = replicate 16 (pos 0);
  newer = [];
  layout = refl;
  here = refl;
  order = refl;
  within = omega arith;
  size = refl;
}

-- After any readings, each array is a ring that shows the last sixteen of them.
pub history-Ring :
    (rs : List Reading)
    → let e = sense_run rs at_start in
      Ring e.xaxis e.sensors_pos (last_sixteen (map (λ (r : Reading). r.x_axis) rs))
      × Ring e.temperature e.sensors_pos (last_sixteen (map (λ (r : Reading). hundredth r.temp) rs))
history-Ring rs =
    let zeros = replicate 16 (pos 0) in
    let xs = map (λ (r : Reading). r.x_axis) rs in
    let ts = map (λ (r : Reading). hundredth r.temp) rs in
    rw
      (
        ← slide-drop (replicate 16 (pos 0)) (map (λ (r : Reading). r.x_axis) rs) (omega arith),
        ← slide-drop (replicate 16 (pos 0)) (map (λ (r : Reading). hundredth r.temp) rs)
            (omega arith),
      )
      (run-Ring rs at_start (replicate 16 (pos 0)) (replicate 16 (pos 0)) start-Ring start-Ring)

get_or-append_left :
    (xs ys : List ℤ) (i : ℕ) (d : ℤ) → i < length xs → get_or (xs ++ ys) i d ≡ get_or xs i d
get_or-append_left [] ys i d h = absurd (omega arith)
get_or-append_left (x ∷ xs) ys zero d h = refl
get_or-append_left (x ∷ xs) ys (suc i) d h = get_or-append_left xs ys i d (omega arith)

get_or-append_right :
    (xs ys : List ℤ) (i j : ℕ) (d : ℤ) → i ≡ length xs + j → get_or (xs ++ ys) i d ≡ get_or ys j d
get_or-append_right [] ys i j d h = ap (λ (k : ℕ). get_or ys k d) (omega (arith, h))
get_or-append_right (x ∷ xs) ys zero j d h = absurd (omega (arith, h))
get_or-append_right (x ∷ xs) ys (suc i) j d h = get_or-append_right xs ys i j d (omega (arith, h))

-- The index of a chart finds the numbers in their order.
pub get_or-Ring :
    (values w : List ℤ) (at i : ℕ) (d : ℤ)
    → Ring values at w
    → i < 16
    → get_or values ((at + i) % 16) d ≡ get_or w i d
get_or-Ring values w at i d r h = elim (before_or_behind i (length r.older)) [
  | inl lt ↦
      rw (r.layout, r.order)
        (get_or-append_right r.newer r.older ((at + i) % 16) i d
            (omega (arith, r.here, r.size, lt, h))
          ∙ sym (get_or-append_left r.older r.newer i d lt))
  | inr ge ↦
      let j = i - length r.older in
      rw (r.layout, r.order)
        (get_or-append_left r.newer r.older ((at + i) % 16) d (omega (arith, r.here, r.size, ge, h))
          ∙ (ap (λ (k : ℕ). get_or r.newer k d) (omega (arith, r.here, r.size, ge, h))
              ∙ sym (get_or-append_right r.older r.newer i j d (omega (arith, ge)))))
]
  where
    before_or_behind : (a b : ℕ) → (a < b) ⊎ (b ≤ a)
    before_or_behind a b = ground arith
