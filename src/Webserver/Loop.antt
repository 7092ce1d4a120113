-- ===== src/Webserver/Loop.antt =====
-- The loop of generate_chart of ictp/webserver/websense.c, and texts that are added one after the other.
use ts_it.Base.{
  ℕ, zero, suc, ◌+◌, ◌≤◌, ◌<◌, ◌≡◌, ◌⊎◌, inl, inr, refl, ap, ◌++◌, ltb, if◌then◌else◌, ltb-true,
  Option-cases, Option, none, some, List, [], ◌∷◌, length, get_or, drop, codes, length-append,
  arith,
}
use mathlib.Core.List.{append_assoc, append-nil}
use ts_it.Webserver.{ℤ, pos, int_text, Page, add_text, chart_loop}
use ts_it.Webserver.Buffer.{Filled, add-Filled, add-none}
use ts_it.Webserver.History.{Ring, get_or-Ring}
use ts_it.Webserver.Texts.{behind, numbers}

-- The texts, one after the other.
abbrev add_texts : List (List ℕ) → Page → Option Page
add_texts [] p = some p
add_texts (t ∷ ts) p = elim (add_text t p) [ none ↦ none | some q ↦ add_texts ts q ]

abbrev joined : List (List ℕ) → List ℕ
joined [] = []
joined (t ∷ ts) = t ++ joined ts

-- A last text, behind `text` in the buffer.
abbrev pub Ends : Option Page → List ℕ → List ℕ → Type 0
Ends result text last =
    ((length text ≤ 256) × ((q : Page) × (result ≡ some q) × Filled (text ++ last) q))
    ⊎ ((256 < length text) × (result ≡ none))

abbrev pub then_add : List ℕ → Option Page → Option Page
then_add last none = none
then_add last (some q) = add_text last q

small_or_large : (n : ℕ) → (n ≤ 256) ⊎ (256 < n)
small_or_large n = ground arith

add_texts-some :
    (o : List ℕ) (ts : List (List ℕ)) (p q : Page)
    → add_text o p ≡ some q
    → add_texts (o ∷ ts) p ≡ add_texts ts q
add_texts-some o ts p q e = rw (e, add_texts) refl

add_texts-none :
    (o : List ℕ) (ts : List (List ℕ)) (p : Page) → add_text o p ≡ none → add_texts (o ∷ ts) p ≡ none
add_texts-none o ts p e = rw (e, add_texts) refl

adds :
    (ts : List (List ℕ)) (last t : List ℕ) (p : Page)
    → Filled t p
    → Ends (then_add last (add_texts ts p)) (t ++ joined ts) last
adds [] last t p f = elim (small_or_large (length t)) [
  | inl small ↦ rw (append-nil t) (inl (small, add-Filled t last p f small))
  | inr large ↦ rw (append-nil t) (inr (large, add-none t last p f large))
]
adds (o ∷ ts) last t p f = elim (small_or_large (length t)) [
  | inl small ↦
      let (q, e, g) = add-Filled t o p f small in
      rw (add_texts-some o ts p q e)
        (rw (← append_assoc t o (joined ts)) (adds ts last (t ++ o) q g))
  | inr large ↦
      let l = length-append t (o ++ joined ts) in
      inr (omega (arith, large), rw (add_texts-none o ts p (add-none t o p f large)) refl)
]

-- The texts of the loop, by their numbers.
abbrev pieces : ℕ → ℕ → List ℤ → List (List ℕ)
pieces zero i w = []
pieces (suc left) i w =
    ((if ltb 0 i then codes "," else []) ++ int_text (get_or w i (pos 0))) ∷ pieces left (suc i) w

chart_loop-add_texts :
    (left i at : ℕ) (values w : List ℤ) (p : Page)
    → Ring values at w
    → left + i ≤ 16
    → chart_loop left i at values p ≡ add_texts (pieces left i w) p
unfolding chart_loop
chart_loop-add_texts zero i at values w p r h = refl
chart_loop-add_texts (suc left) i at values w p r h =
    let same = get_or-Ring values w at i (pos 0) r (omega (arith, h)) in
    let text = (if ltb 0 i then codes "," else []) ++ int_text (get_or w i (pos 0)) in
    elim (Option-cases (add_text text p)) [
      | inl n ↦ ground (arith, same, n)
      | inr (q, n) ↦
          let rest = chart_loop-add_texts left (suc i) at values w q r (omega (arith, h)) in
          ground (arith, same, n, rest)
    ]

drop_cons : (w : List ℤ) (i : ℕ) → i < length w → drop i w ≡ get_or w i (pos 0) ∷ drop (suc i) w
drop_cons [] i h = absurd (omega arith)
drop_cons (x ∷ w) zero h = refl
drop_cons (x ∷ w) (suc i) h = drop_cons w i (omega arith)

drop-all : (w : List ℤ) (n : ℕ) → length w ≤ n → drop n w ≡ []
drop-all [] zero h = refl
drop-all [] (suc n) h = refl
drop-all (x ∷ w) zero h = absurd (omega arith)
drop-all (x ∷ w) (suc n) h = drop-all w n (omega arith)

joined-behind :
    (left i : ℕ) (w : List ℤ)
    → left + suc i ≡ length w
    → joined (pieces left (suc i) w) ≡ behind (drop (suc i) w)
joined-behind zero i w h = rw (drop-all w (suc i) (omega (arith, h))) refl
joined-behind (suc left) i w h =
    rw
      (
        drop_cons w (suc i) (omega (arith, h)),
        joined-behind left (suc i) w (omega (arith, h)),
        ltb-true 0 (suc i) (omega arith),
      )
      refl

joined-numbers : (n : ℕ) (w : List ℤ) → length w ≡ n → joined (pieces n 0 w) ≡ numbers w
joined-numbers zero [] h = refl
joined-numbers zero (x ∷ w) h = absurd (omega (arith, h))
joined-numbers (suc n) [] h = absurd (omega (arith, h))
joined-numbers (suc zero) (x ∷ w) h =
    ap (λ (t : List ℕ). int_text x ++ t) (joined-behind 0 0 (x ∷ w) (omega (arith, h)))
joined-numbers (suc (suc n)) (x ∷ w) h =
    ap (λ (t : List ℕ). int_text x ++ t) (joined-behind (suc n) 0 (x ∷ w) (omega (arith, h)))

-- The loop and the last text, for a loop of any length.
pub loop-Ends :
    (n at : ℕ) (values w : List ℤ) (t last : List ℕ) (p : Page)
    → Filled t p
    → Ring values at w
    → n ≤ 16
    → length w ≡ n
    → Ends (then_add last (chart_loop n 0 at values p)) (t ++ numbers w) last
loop-Ends n at values w t last p f r h size =
    rw (chart_loop-add_texts n 0 at values w p r (omega (arith, h)), ← joined-numbers n w size)
      (adds (pieces n 0 w) last t p f)
