-- ===== src/Border/Tests.antt =====
-- The theorems about ictp/border-router/border-routerUDP.c with a table of zeros, and printf of
-- numbers below 100,000.
use ts_it.Base.{
  ℕ, ◌≤◌, ◌<◌, ◌≡◌, ◌⊎◌, refl, some, none, List, [], ◌∷◌, ◌++◌, length, take, drop, replicate,
  decimal_digits, IsText-decimal_digits,
}
use ts_it.Border.{Printf, render, page_format, generate_routes, receive_numbers}
use ts_it.Border.Laws.{IsPrintf, page_is_cut, receive_numbers_iff}

abbrev plain : Printf
plain = record { int = λ n. decimal_digits 5 n []; abs_int = λ n. decimal_digits 5 n [] }

plain-IsPrintf : IsPrintf plain
plain-IsPrintf = record {
  int = λ n. IsText-decimal_digits 5 n [] tt;
  abs_int = λ n. IsText-decimal_digits 5 n [] tt;
}

abbrev empty : List ℕ
empty = replicate 36 0

page_is_cut_example :
    let page = render plain (page_format empty) in
    let r = generate_routes plain empty (replicate 256 0) in
    (r.0 ≡ some (take 255 page))
    × (length (take 255 page) ≡ 255)
    × (length r.1 ≡ 256)
    × (r.2 ≡ length page)
    × (256 < length page)
page_is_cut_example = page_is_cut plain empty (replicate 256 0) plain-IsPrintf refl

abbrev words : List ℕ
words = 1 ∷ 2 ∷ 3 ∷ 4 ∷ []

receive_numbers_iff_example :
    ((4 ≤ 36) × (4 ≤ 4)
      → (receive_numbers words 4 empty ≡ some (take 4 words ++ drop 4 empty))
        × (length (take 4 words ++ drop 4 empty) ≡ 36))
    × ((36 < 4) ⊎ (4 < 4) → receive_numbers words 4 empty ≡ none)
receive_numbers_iff_example = receive_numbers_iff words empty 4 refl
