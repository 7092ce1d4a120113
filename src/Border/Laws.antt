-- ===== src/Border/Laws.antt =====
-- What the border router of ictp/border-router/border-routerUDP.c serves.
use ts_it.Base.{
  ℕ, ◌+◌, ◌≤◌, ◌<◌, ◌≡◌, refl, some, none, List, [], ◌∷◌, ◌++◌, length, take, drop, All, IsText,
  ◌⊎◌, inl, inr, c_string-append, All-append, All-take, length-append, length-take, length-drop,
  arith,
}
use ts_it.Border.{
  Piece, text, number, absolute, sign, Printf, render, page_format, generate_routes,
  receive_numbers, page_buffer, device_numbers,
}

-- The characters of the parts that do not depend on the readings' digits.
abbrev fixed : List Piece → ℕ
fixed [] = 0
fixed (text t ∷ ps) = length t + fixed ps
fixed (number n ∷ ps) = fixed ps
fixed (absolute n ∷ ps) = fixed ps
fixed (sign n ∷ ps) = 1 + fixed ps

fixed-render : (f : Printf) (ps : List Piece) → fixed ps ≤ length (render f ps)
fixed-render f [] = omega arith
fixed-render f (text t ∷ ps) = omega (arith, fixed-render f ps, length-append t (render f ps))
fixed-render f (number n ∷ ps) =
    omega (arith, fixed-render f ps, length-append (f.int n) (render f ps))
fixed-render f (absolute n ∷ ps) =
    omega (arith, fixed-render f ps, length-append (f.abs_int n) (render f ps))
fixed-render f (sign n ∷ ps) = omega (arith, fixed-render f ps)

page-long : (f : Printf) (table : List ℕ) → 335 ≤ length (render f (page_format table))
unfolding page_format
page-long f table = fixed-render f (page_format table)

-- What `%d` prints has no NUL.
pub record IsPrintf (f : Printf) : Type 0 where
  pub int : (n : ℕ) → IsText (f.int n)
  pub abs_int : (n : ℕ) → IsText (f.abs_int n)

abbrev IsTextPiece : Piece → Type 0
IsTextPiece (text t) = IsText t
IsTextPiece (number n) = Unit
IsTextPiece (absolute n) = Unit
IsTextPiece (sign n) = Unit

IsText-render :
    (f : Printf) (ps : List Piece) → IsPrintf f → All IsTextPiece ps → IsText (render f ps)
IsText-render f [] p all = tt
IsText-render f (text t ∷ ps) p all =
    All-append _ t (render f ps) all.0 (IsText-render f ps p all.1)
IsText-render f (number n ∷ ps) p all =
    All-append _ (f.int n) (render f ps) (p.int n) (IsText-render f ps p all.1)
IsText-render f (absolute n ∷ ps) p all =
    All-append _ (f.abs_int n) (render f ps) (p.abs_int n) (IsText-render f ps p all.1)
IsText-render f (sign n ∷ ps) p all = (ground arith, IsText-render f ps p all.1)

page-IsText : (f : Printf) (table : List ℕ) → IsPrintf f → IsText (render f (page_format table))
unfolding page_format
page-IsText f table p = IsText-render f (page_format table) p (ground arith)

-- Where what `%d` prints has no NUL, and the buffer has its 256 bytes: the page is longer than the
-- buffer whatever the readings are, so that only its first 255 characters are sent; the buffer
-- keeps its size, but `blen`, where the next text would be added, is behind its end.
pub page_is_cut :
    (f : Printf) (table buffer : List ℕ)
    → IsPrintf f
    → length buffer ≡ page_buffer
    → let page = render f (page_format table) in
      let r = generate_routes f table buffer in
      (r.0 ≡ some (take 255 page))
      × (length (take 255 page) ≡ 255)
      × (length r.1 ≡ page_buffer)
      × (r.2 ≡ length page)
      × (page_buffer < length page)
unfolding generate_routes
page_is_cut f table buffer p size =
    let page = render f (page_format table) in
    let kept = take 255 page in
    let long = page-long f table in
    let short : length kept ≡ 255 = omega (arith, length-take 255 page, long) in
    let rest = drop (length kept + 1) buffer in
    (
      c_string-append kept rest (All-take _ 255 page (page-IsText f table p)),
      short,
      omega
          (arith, length-append kept (0 ∷ rest), length-drop (length kept + 1) buffer, short, size),
      refl,
      omega (arith, long),
    )

-- A datagram is taken without a fault just where it has at most 36 bytes and as many numbers lie
-- from its start on: the table has 36 numbers, but a datagram of 36 bytes has only 18.
pub receive_numbers_iff :
    (words table : List ℕ) (datalen : ℕ)
    → length table ≡ device_numbers
    → ((datalen ≤ device_numbers) × (datalen ≤ length words)
        → (receive_numbers words datalen table ≡ some (take datalen words ++ drop datalen table))
          × (length (take datalen words ++ drop datalen table) ≡ device_numbers))
      × ((device_numbers < datalen) ⊎ (length words < datalen)
          → receive_numbers words datalen table ≡ none)
unfolding receive_numbers
receive_numbers_iff words table datalen size = (
  λ h. (
    ground (arith, h),
    omega (
      arith,
      length-append (take datalen words) (drop datalen table),
      length-take datalen words,
      length-drop datalen table,
      h.0,
      h.1,
      size,
    ),
  ),
  λ h. elim h [ inl p ↦ ground (arith, p) | inr p ↦ ground (arith, p) ],
)
