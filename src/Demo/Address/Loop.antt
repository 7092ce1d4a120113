-- ===== src/Demo/Address/Loop.antt =====
-- The loop of ipaddr_sprintf, from each of the states that it can be in.
use ts_it.Base.{
  Option-cases, inl, inr, ℕ, zero, suc, ◌+◌, ◌-◌, ◌*◌, ◌≤◌, ◌<◌, ◌≡◌, refl, ◌++◌, Bool, true, false,
  Option, none, some, List, [], ◌∷◌, length, drop, codes, length-hex_digits, length-append,
  print_at, print_at_end, u8, arith,
}
use mathlib.Core.List.{append_assoc, append-nil}
use ts_it.Demo.Message.{ZeroRun, counted, over, Printed, ip_print, ip_group, ip_groups}
use ts_it.Demo.Address.Notation.{
  hex, colons, joined, behind_zeros, from_zero, before_zero, shortened, address_text, groups,
}

-- The text `t` stands at the start of the buffer of 64 bytes, with its terminator, and `len` is its length.
pub record Holds (t : List ℕ) (o : Printed) : Type 0 where
  pub rest : List ℕ
  pub text : o.buf ≡ t ++ (0 ∷ rest)
  pub len : o.len ≡ length t

abbrev pub Prints : Option Printed → List ℕ → Type 0
Prints r t = (o : Printed) × (r ≡ some o) × Holds t o

ip_print-Prints :
    (t out : List ℕ) (o : Printed)
    → Holds t o
    → length t + length out < 64
    → Prints (ip_print 64 out o) (t ++ out)
unfolding ip_print
ip_print-Prints t out o h fits =
    let n = h.len in
    let next : Printed = record {
      buf = print_at o.len (64 - o.len) out o.buf;
      len = u8 (o.len + length out);
    } in
    (
      next,
      ground (arith, n),
      record {
        rest = drop (length out + 1) (0 ∷ h.rest);
        text =
            rw (h.text, n)
              (print_at_end t out (0 ∷ h.rest) (length t) (64 - length t) refl (omega arith));
        len = omega (arith, length-append t out, n, fits);
      },
    )

number-Prints :
    (t : List ℕ) (a : ℕ) (o : Printed)
    → Holds t o
    → length t + 5 < 64
    → Prints (ip_print 64 (hex a) o) (t ++ hex a)
number-Prints t a o h fits =
    let n = length-hex_digits 4 a [] in ip_print-Prints t (hex a) o h (omega arith)

-- A group behind a colon.
colon_number-Prints :
    (t : List ℕ) (a : ℕ) (o : Printed)
    → Holds t o
    → length t + 5 < 64
    → Prints
        (elim (ip_print 64 (codes ":") o) [ none ↦ none | some o1 ↦ ip_print 64 (hex a) o1 ])
        (t ++ (codes ":" ++ hex a))
colon_number-Prints t a o h fits =
    let (o1, e1, h1) = ip_print-Prints t (codes ":") o h (omega arith) in
    let l = length-append t (codes ":") in
    let n = length-hex_digits 4 a [] in
    let (o2, e2, h2) = ip_print-Prints (t ++ codes ":") (hex a) o1 h1 (omega arith) in
    (o2, rw (e1) e2, rw (← append_assoc t (codes ":") (hex a)) h2)

-- The loop behind a run of zeros.
over_group :
    (t : List ℕ) (a : ℕ) (o : Printed)
    → Holds t o
    → length t + 5 < 64
    → (o1 : Printed) × (ip_group 64 false a over o ≡ some (over, o1))
      × Holds (t ++ (codes ":" ++ hex a)) o1
unfolding ip_group
over_group t zero o h fits =
    let (o1, e, h1) = colon_number-Prints t 0 o h fits in (o1, ground (arith, e), h1)
over_group t (suc a) o h fits =
    let (o1, e, h1) = colon_number-Prints t (suc a) o h fits in (o1, ground (arith, e), h1)

length-colon : (t : List ℕ) (a : ℕ) → length (t ++ (codes ":" ++ hex a)) ≤ length t + 5
length-colon t a =
    let l = length-append t (codes ":" ++ hex a) in let n = length-hex_digits 4 a [] in omega arith

-- The loop over the groups themselves.
unfoldable pub group_loop : Bool → List ℕ → ZeroRun → Printed → Option Printed
group_loop is_first [] f o = some o
group_loop is_first (a ∷ gs) f o = elim (ip_group 64 is_first a f o) [
  | none ↦ none
  | some (f1, o1) ↦ group_loop false gs f1 o1
]

pub ip_groups-group_loop :
    (is_first : Bool) (bytes : List ℕ) (f : ZeroRun) (o : Printed)
    → ip_groups 64 is_first bytes f o ≡ group_loop is_first (groups bytes) f o
unfolding ip_groups group_loop
ip_groups-group_loop is_first [] f o = refl
ip_groups-group_loop is_first (b ∷ []) f o = refl
ip_groups-group_loop is_first (hi ∷ lo ∷ bytes) f o =
    elim (Option-cases (ip_group 64 is_first (hi * 256 + lo) f o)) [
      | inl e ↦ ground (arith, e)
      | inr ((f1, o1), e) ↦ ground (arith, e, ip_groups-group_loop false bytes f1 o1)
    ]

over-Prints :
    (gs t : List ℕ) (o : Printed)
    → Holds t o
    → length t + 5 * length gs < 64
    → Prints (group_loop false gs over o) (t ++ colons gs)
unfolding group_loop
over-Prints [] t o h fits = (o, refl, rw (append-nil t) h)
over-Prints (a ∷ gs) t o h fits =
    let (o1, e1, h1) = over_group t a o h (omega (arith, fits)) in
    let n = length-colon t a in
    let (o2, e2, h2) = over-Prints gs (t ++ (codes ":" ++ hex a)) o1 h1 (omega (arith, fits, n)) in
    (o2, rw (e1, group_loop) e2, rw (← append_assoc t (codes ":" ++ hex a) (colons gs)) h2)

-- The loop inside the run of zeros.
inside_group :
    (t : List ℕ) (a f : ℕ) (o : Printed)
    → Holds t o
    → length t + 5 < 64
    → (o1 : Printed) × (ip_group 64 false (suc a) (counted (suc f)) o ≡ some (over, o1))
      × Holds (t ++ hex (suc a)) o1
unfolding ip_group
inside_group t a f o h fits =
    let (o1, e, h1) = number-Prints t (suc a) o h fits in (o1, ground (arith, e), h1)

inside-Prints :
    (gs t : List ℕ) (f : ℕ) (o : Printed)
    → Holds t o
    → length t + 5 * length gs < 64
    → Prints (group_loop false gs (counted (suc f)) o) (t ++ joined (behind_zeros gs))
unfolding group_loop ip_group
inside-Prints [] t f o h fits = (o, refl, rw (append-nil t) h)
inside-Prints (zero ∷ gs) t f o h fits = inside-Prints gs t (suc f) o h (omega (arith, fits))
inside-Prints (suc a ∷ gs) t f o h fits =
    let (o1, e1, h1) = inside_group t a f o h (omega (arith, fits)) in
    let l = length-append t (hex (suc a)) in
    let n = length-hex_digits 4 (suc a) [] in
    let (o2, e2, h2) = over-Prints gs (t ++ hex (suc a)) o1 h1 (omega (arith, fits, l, n)) in
    (o2, ground (arith, e1, e2), rw (← append_assoc t (hex (suc a)) (colons gs)) h2)

-- The first zero.
zero_group :
    (is_first : Bool) (t : List ℕ) (o : Printed)
    → Holds t o
    → length t + 5 < 64
    → (o1 : Printed) × (ip_group 64 is_first 0 (counted 0) o ≡ some (counted 1, o1))
      × Holds (t ++ codes "::") o1
unfolding ip_group
zero_group is_first t o h fits =
    let (o1, e, h1) = ip_print-Prints t (codes "::") o h (omega arith) in
    (o1, ground (arith, e), h1)

-- The loop before a zero, behind the first group.
before-Prints :
    (gs t : List ℕ) (o : Printed)
    → Holds t o
    → length t + 5 * length gs < 64
    → Prints
        (group_loop false gs (counted 0) o)
        (t ++ (colons (before_zero gs) ++ shortened (from_zero gs)))
unfolding group_loop ip_group
before-Prints [] t o h fits = (o, refl, rw (append-nil t) h)
before-Prints (zero ∷ gs) t o h fits =
    let (o1, e1, h1) = zero_group false t o h (omega (arith, fits)) in
    let l = length-append t (codes "::") in
    let (o2, e2, h2) = inside-Prints gs (t ++ codes "::") 0 o1 h1 (omega (arith, fits, l)) in
    (o2, ground (arith, e1, e2), rw (← append_assoc t (codes "::") (joined (behind_zeros gs))) h2)
before-Prints (suc a ∷ gs) t o h fits =
    let (o1, e1, h1) = colon_number-Prints t (suc a) o h (omega (arith, fits)) in
    let n = length-colon t (suc a) in
    let (o2, e2, h2) =
      before-Prints gs (t ++ (codes ":" ++ hex (suc a))) o1 h1 (omega (arith, fits, n)) in
    (
      o2,
      ground (arith, e1, e2),
      rw
          (
            append_assoc (hex (suc a)) (colons (before_zero gs)) (shortened (from_zero gs)),
            ← append_assoc t (codes ":" ++ hex (suc a))
                (colons (before_zero gs) ++ shortened (from_zero gs)),
          )
          h2,
    )

-- The loop from the first group on.
pub first-Prints :
    (gs t : List ℕ) (o : Printed)
    → Holds t o
    → length t + 5 * length gs < 64
    → Prints (group_loop true gs (counted 0) o) (t ++ address_text gs)
unfolding group_loop ip_group
first-Prints [] t o h fits = (o, refl, rw (append-nil t) h)
first-Prints (zero ∷ gs) t o h fits =
    let (o1, e1, h1) = zero_group true t o h (omega (arith, fits)) in
    let l = length-append t (codes "::") in
    let (o2, e2, h2) = inside-Prints gs (t ++ codes "::") 0 o1 h1 (omega (arith, fits, l)) in
    (o2, ground (arith, e1, e2), rw (← append_assoc t (codes "::") (joined (behind_zeros gs))) h2)
first-Prints (suc a ∷ gs) t o h fits =
    let (o1, e1, h1) = number-Prints t (suc a) o h (omega (arith, fits)) in
    let l = length-append t (hex (suc a)) in
    let n = length-hex_digits 4 (suc a) [] in
    let (o2, e2, h2) = before-Prints gs (t ++ hex (suc a)) o1 h1 (omega (arith, fits, l, n)) in
    (
      o2,
      ground (arith, e1, e2),
      rw
          (
            append_assoc (hex (suc a)) (colons (before_zero gs)) (shortened (from_zero gs)),
            ← append_assoc t (hex (suc a)) (colons (before_zero gs) ++ shortened (from_zero gs)),
          )
          h2,
    )
