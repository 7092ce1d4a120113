-- ===== src/Demo/Address/Notation.antt =====
-- The notation of IPv6 addresses that ipaddr_sprintf of ictp/mqtt/mqtt-demo.c is held against.
use ts_it.Base.{
  ℕ, zero, suc, ◌+◌, ◌*◌, ◌≤◌, ◌≡◌, ◌++◌, List, [], ◌∷◌, length, codes, hex_digits,
  length-hex_digits, IsText, IsText-hex_digits, All-append, length-append, arith,
}

-- The notation: groups of 16 bits in hexadecimal with colons between them, where the first run of
-- groups that are 0 is written as two colons.
abbrev pub hex : ℕ → List ℕ
hex g = hex_digits 4 g []

-- Each group behind a colon.
abbrev pub colons : List ℕ → List ℕ
colons [] = []
colons (g ∷ gs) = codes ":" ++ (hex g ++ colons gs)

abbrev pub joined : List ℕ → List ℕ
joined [] = []
joined (g ∷ gs) = hex g ++ colons gs

abbrev pub behind_zeros : List ℕ → List ℕ
behind_zeros [] = []
behind_zeros (zero ∷ gs) = behind_zeros gs
behind_zeros (suc g ∷ gs) = suc g ∷ gs

-- The groups from the first 0 on, and those before it.
abbrev pub from_zero : List ℕ → List ℕ
from_zero [] = []
from_zero (zero ∷ gs) = zero ∷ gs
from_zero (suc g ∷ gs) = from_zero gs

abbrev pub before_zero : List ℕ → List ℕ
before_zero [] = []
before_zero (zero ∷ gs) = []
before_zero (suc g ∷ gs) = suc g ∷ before_zero gs

abbrev pub shortened : List ℕ → List ℕ
shortened [] = []
shortened (g ∷ gs) = codes "::" ++ joined (behind_zeros (g ∷ gs))

abbrev pub address_text : List ℕ → List ℕ
address_text gs = joined (before_zero gs) ++ shortened (from_zero gs)

-- The groups of an address.
abbrev pub groups : List ℕ → List ℕ
groups (hi ∷ lo ∷ bytes) = (hi * 256 + lo) ∷ groups bytes
groups _ = []

IsText-colons : (gs : List ℕ) → IsText (colons gs)
IsText-colons [] = tt
IsText-colons (g ∷ gs) =
    (omega arith, All-append _ (hex g) (colons gs) (IsText-hex_digits 4 g [] tt) (IsText-colons gs))

IsText-joined : (gs : List ℕ) → IsText (joined gs)
IsText-joined [] = tt
IsText-joined (g ∷ gs) =
    All-append _ (hex g) (colons gs) (IsText-hex_digits 4 g [] tt) (IsText-colons gs)

IsText-shortened : (gs : List ℕ) → IsText (shortened gs)
IsText-shortened [] = tt
IsText-shortened (g ∷ gs) = (omega arith, (omega arith, IsText-joined (behind_zeros (g ∷ gs))))

pub IsText-address_text : (gs : List ℕ) → IsText (address_text gs)
IsText-address_text gs =
    All-append _ (joined (before_zero gs)) (shortened (from_zero gs))
      (IsText-joined (before_zero gs)) (IsText-shortened (from_zero gs))

length-colons : (gs : List ℕ) → length (colons gs) ≤ 5 * length gs
length-colons [] = omega arith
length-colons (g ∷ gs) =
    let l = length-append (hex g) (colons gs) in
    let n = length-hex_digits 4 g [] in omega (arith, length-colons gs)

length-joined : (gs : List ℕ) → length (joined gs) ≤ 5 * length gs
length-joined [] = omega arith
length-joined (g ∷ gs) =
    let l = length-append (hex g) (colons gs) in
    let n = length-hex_digits 4 g [] in omega (arith, length-colons gs)

length-behind_zeros : (gs : List ℕ) → length (behind_zeros gs) ≤ length gs
length-behind_zeros [] = omega arith
length-behind_zeros (zero ∷ gs) = omega (arith, length-behind_zeros gs)
length-behind_zeros (suc g ∷ gs) = omega arith

length-from_zero : (gs : List ℕ) → length (before_zero gs) + length (from_zero gs) ≡ length gs
length-from_zero [] = omega arith
length-from_zero (zero ∷ gs) = omega arith
length-from_zero (suc g ∷ gs) = omega (arith, length-from_zero gs)

length-shortened : (gs : List ℕ) → length (shortened gs) ≤ 2 + 5 * length gs
length-shortened [] = omega arith
length-shortened (g ∷ gs) =
    let b = length-behind_zeros (g ∷ gs) in
    let j = length-joined (behind_zeros (g ∷ gs)) in omega (arith, b, j)

pub length-address_text : (gs : List ℕ) → length (address_text gs) ≤ 2 + 5 * length gs
length-address_text gs =
    let l = length-append (joined (before_zero gs)) (shortened (from_zero gs)) in
    let a = length-joined (before_zero gs) in
    let b = length-shortened (from_zero gs) in let c = length-from_zero gs in omega (arith, a, b, c)

pub length-groups : (addr : List ℕ) → length addr ≤ 16 → length (groups addr) ≤ 8
length-groups addr h = let n = half addr in omega (arith, h, n)
  where
    half : (bytes : List ℕ) → 2 * length (groups bytes) ≤ length bytes
    half [] = omega arith
    half (b ∷ []) = omega arith
    half (hi ∷ lo ∷ bytes) = omega (arith, half bytes)
