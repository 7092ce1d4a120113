-- ===== src/Base/Print.antt =====
-- What printf writes for numbers, and snprintf into an array.
use Prim.Native.Nat.{ℕ, zero, suc, ◌+◌, ◌-◌, ◌/◌, ◌%◌, ◌≤◌, ◌<◌}
use mathlib.Core.Path.{◌≡◌, refl}
use mathlib.Core.List.{List, [], ◌∷◌, ◌++◌, append_assoc}
use native.Mathlib.Omega.{arith}
use ts_it.Base.Tests.{ltb, if◌then◌else◌}
use ts_it.Base.Arrays.{length, take, drop, take-append_length, drop-append_length, take-length}
use ts_it.Base.Bytes.{IsText, strlen}

-- `%d` of a number below 10 to the fuel, in front of a text.
abbrev pub decimal_digits : ℕ → ℕ → List ℕ → List ℕ
decimal_digits zero n text = text
decimal_digits (suc fuel) n text =
    let rest = decimal_digits fuel (n / 10) ((n % 10 + 48) ∷ text) in
    if ltb n 10 then (n + 48) ∷ text else rest

pub length-decimal_digits :
    (fuel n : ℕ) (text : List ℕ) → length (decimal_digits fuel n text) ≤ fuel + length text
length-decimal_digits zero n text = omega arith
length-decimal_digits (suc fuel) n text =
    ground (arith, length-decimal_digits fuel (n / 10) ((n % 10 + 48) ∷ text))

pub IsText-decimal_digits :
    (fuel n : ℕ) (text : List ℕ) → IsText text → IsText (decimal_digits fuel n text)
IsText-decimal_digits zero n text h = h
IsText-decimal_digits (suc fuel) n text h =
    ground (arith, h, IsText-decimal_digits fuel (n / 10) ((n % 10 + 48) ∷ text))

abbrev pub hex_digit : ℕ → ℕ
hex_digit d = if ltb d 10 then d + 48 else d + 87

-- `%x` of a number below 16 to the fuel, in front of a text.
abbrev pub hex_digits : ℕ → ℕ → List ℕ → List ℕ
hex_digits zero n text = text
hex_digits (suc fuel) n text =
    let rest = hex_digits fuel (n / 16) (hex_digit (n % 16) ∷ text) in
    if ltb n 16 then hex_digit n ∷ text else rest

pub length-hex_digits :
    (fuel n : ℕ) (text : List ℕ) → length (hex_digits fuel n text) ≤ fuel + length text
length-hex_digits zero n text = omega arith
length-hex_digits (suc fuel) n text =
    ground (arith, length-hex_digits fuel (n / 16) (hex_digit (n % 16) ∷ text))

pub IsText-hex_digits : (fuel n : ℕ) (text : List ℕ) → IsText text → IsText (hex_digits fuel n text)
IsText-hex_digits zero n text h = h
IsText-hex_digits (suc fuel) n text h =
    ground (arith, h, IsText-hex_digits fuel (n / 16) (hex_digit (n % 16) ∷ text))

-- `snprintf` into a buffer of that many bytes.
abbrev pub snprintf : ℕ → List ℕ → List ℕ → List ℕ
snprintf size out buffer =
    let kept = take (size - 1) out in kept ++ (0 ∷ drop (length kept + 1) buffer)

-- `snprintf(&buffer[at], size, …)`, with a size above 0.
abbrev pub print_at : ℕ → ℕ → List ℕ → List ℕ → List ℕ
print_at at size out buffer = take at buffer ++ snprintf size out (drop at buffer)

-- What fits is written behind the text that is there.
pub print_at_end :
    (t out r : List ℕ) (at size : ℕ)
    → length t ≡ at
    → length out < size
    → print_at at size out (t ++ r) ≡ (t ++ out) ++ (0 ∷ drop (length out + 1) r)
print_at_end t out r at size e fits =
    rw
      (
        take-append_length at t r e,
        drop-append_length at t r e,
        take-length (size - 1) out (omega (arith, fits)),
      )
      (rw (append_assoc t out (0 ∷ drop (length out + 1) r)) refl)

pub strlen-append : (text rest : List ℕ) → IsText text → strlen (text ++ (0 ∷ rest)) ≡ length text
unfolding strlen
strlen-append [] rest h = refl
strlen-append (b ∷ text) rest h = ground (arith, h.0, strlen-append text rest h.1)
