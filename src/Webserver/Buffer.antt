-- ===== src/Webserver/Buffer.antt =====
-- The buffer of ictp/webserver/websense.c, as texts are added to it.
use ts_it.Base.{
  ℕ, zero, suc, ◌+◌, ◌-◌, ◌≤◌, ◌<◌, ◌≡◌, ◌⊎◌, inl, inr, refl, sym, ap, ◌∙◌, ◌++◌, none, some, List,
  [], ◌∷◌, length, take, drop, take-append, take-append_length, drop-append_length, take-length,
  length-append, print_at, arith,
}
use mathlib.Core.List.{append_assoc}
use ts_it.Webserver.{Page, add_text}

-- The buffer has what fits of a text, with its terminator, and `blen` is the length of the text.
pub record Filled (t : List ℕ) (p : Page) : Type 0 where
  pub rest : List ℕ
  pub text : p.buf ≡ take 255 t ++ (0 ∷ rest)
  pub blen : p.blen ≡ length t

take-append_le :
    (n : ℕ) (xs ys : List ℕ) → length xs ≤ n → take n (xs ++ ys) ≡ xs ++ take (n - length xs) ys
take-append_le n xs ys h =
    let e : n ≡ length xs + (n - length xs) = omega (arith, h) in
    ap (λ (k : ℕ). take k (xs ++ ys)) e ∙ take-append xs ys (n - length xs)

take-append_ge : (n : ℕ) (xs ys : List ℕ) → n ≤ length xs → take n (xs ++ ys) ≡ take n xs
take-append_ge zero xs ys h = refl
take-append_ge (suc n) [] ys h = absurd (omega arith)
take-append_ge (suc n) (x ∷ xs) ys h =
    ap (λ (t : List ℕ). x ∷ t) (take-append_ge n xs ys (omega arith))

-- The first text, into a buffer with anything in it.
pub first-Filled :
    (out buf : List ℕ)
    → (p : Page) × (add_text out (record { buf = buf; blen = 0 }) ≡ some p) × Filled out p
unfolding add_text
first-Filled out buf =
    let kept = take 255 out in
    (
      record { buf = print_at 0 256 out buf; blen = 0 + length out },
      refl,
      record { rest = drop (length (take 255 out) + 1) buf; text = refl; blen = omega arith },
    )

-- The three cases of ADD.
add_room :
    (out : List ℕ) (p : Page)
    → p.blen < 256
    → add_text out p
      ≡ some (record { buf = print_at p.blen (256 - p.blen) out p.buf; blen = p.blen + length out })
unfolding add_text
add_room out p h = ground arith

add_full :
    (out : List ℕ) (p : Page)
    → p.blen ≡ 256
    → add_text out p ≡ some (record p { blen = p.blen + length out })
unfolding add_text
add_full out p h = ground arith

add_beyond : (out : List ℕ) (p : Page) → 256 < p.blen → add_text out p ≡ none
unfolding add_text
add_beyond out p h = ground arith

full_or_less : (n : ℕ) → n ≤ 256 → (n < 256) ⊎ (n ≡ 256)
full_or_less n h = ground arith

-- Where there is room, the text is cut to what remains.
print_at-take :
    (n k : ℕ) (t out rest : List ℕ)
    → n ≡ suc k
    → length t ≤ k
    → (r : List ℕ) × (print_at (length t) (n - length t) out (take k t ++ (0 ∷ rest))
        ≡ take k (t ++ out) ++ (0 ∷ r))
print_at-take n k t out rest e h =
    let kept = take (n - length t - 1) out in
    let r : List ℕ = drop (length (take (n - length t - 1) out) + 1) (0 ∷ rest) in
    let same : n - length t - 1 ≡ k - length t = omega (arith, e, h) in
    (
      r,
      rw
          (
            take-length k t h,
            take-append_length (length t) t (0 ∷ rest) refl,
            drop-append_length (length t) t (0 ∷ rest) refl,
            take-append_le k t out h,
            ← same,
          )
          (sym (append_assoc t (take (n - length t - 1) out) (0 ∷ r))),
    )

pub add-Filled :
    (t out : List ℕ) (p : Page)
    → Filled t p
    → length t ≤ 256
    → (q : Page) × (add_text out p ≡ some q) × Filled (t ++ out) q
add-Filled t out p f h = elim (full_or_less (length t) h) [
  | inl less ↦
      let (r, e) = print_at-take 256 255 t out f.rest refl (omega (arith, less)) in
      (
        record { buf = print_at p.blen (256 - p.blen) out p.buf; blen = p.blen + length out },
        add_room out p (omega (arith, f.blen, less)),
        record {
          rest = r;
          text = rw (f.text, f.blen) e;
          blen = omega (arith, f.blen, length-append t out);
        },
      )
  | inr full ↦ (
    record p { blen = p.blen + length out },
    add_full out p (omega (arith, f.blen, full)),
    record {
      rest = f.rest;
      text = rw (take-append_ge 255 t out (omega (arith, full))) f.text;
      blen = omega (arith, f.blen, length-append t out);
    },
  )
]

pub add-none : (t out : List ℕ) (p : Page) → Filled t p → 256 < length t → add_text out p ≡ none
add-none t out p f h = add_beyond out p (omega (arith, f.blen))
