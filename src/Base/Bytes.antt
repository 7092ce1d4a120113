-- ===== src/Base/Bytes.antt =====
-- Bytes, 16-bit words in network order, and the C string functions on arrays of bytes.
use Prim.Native.Nat.{ℕ, zero, suc, ◌+◌, ◌*◌, ◌/◌, ◌%◌, ◌≤◌, ◌<◌}
use mathlib.Core.Path.{◌≡◌, refl, ap}
use mathlib.Core.Option.{Option, none, some}
use mathlib.Core.List.{List, [], ◌∷◌, ◌++◌}
use native.Mathlib.Omega.{arith}
use Prim.Native.Char.{code}
use Prim.Native.String.{String}
use ts_it.Base.Tests.{◌==◌, if◌then◌else◌}
use ts_it.Base.Arrays.{length, get_or, take, drop, set, replicate}

-- The casts to `uint8_t` and `uint16_t`.
abbrev pub u8 : ℕ → ℕ
u8 n = n % 256

abbrev pub u16 : ℕ → ℕ
u16 n = n % 65536

-- A `uint16_t` field that holds `htons(n)`, as its two bytes in memory.
abbrev pub htons : ℕ → List ℕ
htons n = u16 n / 256 ∷ u16 n % 256 ∷ []

-- `ntohs` of the field at offset `i` of a packet.
abbrev pub ntohs_at : List ℕ → ℕ → ℕ
ntohs_at p i = get_or p i 0 * 256 + get_or p (i + 1) 0

abbrev pub byte_at : List ℕ → ℕ → ℕ
byte_at p i = get_or p i 0

-- A predicate on every element.
abbrev pub All {ℓ κ} : {A : Type ℓ} → (A → Type κ) → List A → Type κ
All P [] = Unit
All P (x ∷ xs) = P x × All P xs

abbrev pub IsByte : ℕ → Type 0
IsByte b = b < 256

-- No byte of the text is NUL: the text of a C string, without its terminator.
abbrev pub IsText : List ℕ → Type 0
IsText = All (λ b. (0 < b) × (b < 256))

-- The C string that starts an array; `none` if the array ends before a NUL.
unfoldable pub c_string : List ℕ → Option (List ℕ)
c_string [] = none
c_string (b ∷ bs) =
    if b == 0 then some [] else elim (c_string bs) [ none ↦ none | some t ↦ some (b ∷ t) ]

-- `strlen` of the string that starts an array: the bytes before the first NUL.
unfoldable pub strlen : List ℕ → ℕ
strlen [] = 0
strlen (b ∷ bs) = if b == 0 then 0 else suc (strlen bs)

-- `strncpy(dst, text, n)`: the array of `n` bytes that it leaves. `text` has no NUL of its own.
unfoldable pub strncpy : List ℕ → ℕ → List ℕ
strncpy text zero = []
strncpy [] (suc n) = 0 ∷ strncpy [] n
strncpy (b ∷ text) (suc n) = b ∷ strncpy text n

pub length-strncpy : (text : List ℕ) (n : ℕ) → length (strncpy text n) ≡ n
unfolding strncpy
length-strncpy text zero = refl
length-strncpy [] (suc n) = ap suc (length-strncpy [] n)
length-strncpy (b ∷ text) (suc n) = ap suc (length-strncpy text n)

pub strncpy-nil : (n : ℕ) → strncpy [] n ≡ replicate n 0
unfolding strncpy
strncpy-nil zero = refl
strncpy-nil (suc n) = ap (λ t. 0 ∷ t) (strncpy-nil n)

-- A text that leaves room for a NUL is read back from the array as it was.
pub c_string-strncpy :
    (text : List ℕ) (n : ℕ) → IsText text → length text < n → c_string (strncpy text n) ≡ some text
unfolding strncpy c_string
c_string-strncpy text zero h lt = absurd (omega arith)
c_string-strncpy [] (suc n) h lt = refl
c_string-strncpy (b ∷ text) (suc n) h lt = ground (arith, c_string-strncpy text n h.1 (omega arith))

-- A text that fills the array leaves it without a NUL.
pub c_string-strncpy_full :
    (text : List ℕ) (n : ℕ) → IsText text → n ≤ length text → c_string (strncpy text n) ≡ none
unfolding strncpy c_string
c_string-strncpy_full text zero h le = refl
c_string-strncpy_full [] (suc n) h le = absurd (omega arith)
c_string-strncpy_full (b ∷ text) (suc n) h le =
    ground (arith, c_string-strncpy_full text n h.1 (omega arith))

pub take-strncpy :
    (text : List ℕ) (n : ℕ) → length text ≤ n → take (length text) (strncpy text n) ≡ text
unfolding strncpy
take-strncpy [] n h = refl
take-strncpy (b ∷ text) zero h = absurd (omega arith)
take-strncpy (b ∷ text) (suc n) h = ap (λ t. b ∷ t) (take-strncpy text n (omega arith))

-- A field whose last byte is NUL holds the string that fits before it.
pub strlen-strncpy :
    (text : List ℕ) (n : ℕ)
    → IsText text
    → strlen (strncpy text n ++ (0 ∷ [])) ≡ length (take n text)
unfolding strncpy strlen
strlen-strncpy text zero h = refl
strlen-strncpy [] (suc n) h = refl
strlen-strncpy (b ∷ text) (suc n) h = ground (arith, strlen-strncpy text n h.1)

pub take-strncpy_field :
    (text : List ℕ) (n : ℕ) → take (length (take n text)) (strncpy text n ++ (0 ∷ [])) ≡ take n text
unfolding strncpy
take-strncpy_field text zero = refl
take-strncpy_field [] (suc n) = refl
take-strncpy_field (b ∷ text) (suc n) = ap (λ t. b ∷ t) (take-strncpy_field text n)

-- A `uint16_t` goes through network order unchanged.
pub ntohs-htons : (n : ℕ) (rest : List ℕ) → n < 65536 → ntohs_at (htons n ++ rest) 0 ≡ n
ntohs-htons n rest h = omega arith

-- The bytes of an array of bytes are below 256, and 0 is read outside it.
pub byte_at-lt : (p : List ℕ) (i : ℕ) → All IsByte p → byte_at p i < 256
byte_at-lt [] i h = omega arith
byte_at-lt (b ∷ p) zero h = h.0
byte_at-lt (b ∷ p) (suc i) h = byte_at-lt p i h.1

module _ {ℓ κ} {A : Type ℓ} (P : A → Type κ) where
  pub All-append : (xs ys : List A) → All P xs → All P ys → All P (xs ++ ys)
  All-append [] ys hx hy = hy
  All-append (x ∷ xs) ys hx hy = (hx.0, All-append xs ys hx.1 hy)

  pub All-take : (n : ℕ) (xs : List A) → All P xs → All P (take n xs)
  All-take zero xs h = tt
  All-take (suc n) [] h = tt
  All-take (suc n) (x ∷ xs) h = (h.0, All-take n xs h.1)

  pub All-drop : (n : ℕ) (xs : List A) → All P xs → All P (drop n xs)
  All-drop zero xs h = h
  All-drop (suc n) [] h = tt
  All-drop (suc n) (x ∷ xs) h = All-drop n xs h.1

  pub All-set : (xs : List A) (n : ℕ) (v : A) → All P xs → P v → All P (set xs n v)
  All-set [] n v h hv = tt
  All-set (x ∷ xs) zero v h hv = (hv, h.1)
  All-set (x ∷ xs) (suc n) v h hv = (h.0, All-set xs n v h.1 hv)

-- The bytes of an ASCII text.
abbrev pub codes : String → List ℕ
codes String.[] = []
codes (String.◌∷◌ c s) = code c ∷ codes s

pub All-replicate {ℓ κ} :
    {A : Type ℓ} (P : A → Type κ) (n : ℕ) (a : A) → P a → All P (replicate n a)
All-replicate P zero a h = tt
All-replicate P (suc n) a h = (h, All-replicate P n a h)

-- A text that leaves room for its terminator is read back at its length, with zeros behind it.
pub strlen-strncpy_short :
    (text : List ℕ) (n : ℕ) → IsText text → length text < n → strlen (strncpy text n) ≡ length text
unfolding strncpy strlen
strlen-strncpy_short text zero h lt = absurd (omega arith)
strlen-strncpy_short [] (suc n) h lt = refl
strlen-strncpy_short (b ∷ text) (suc n) h lt =
    ground (arith, h.0, strlen-strncpy_short text n h.1 (omega arith))

pub take-strncpy_two :
    (text : List ℕ) (n : ℕ)
    → length text + 2 ≤ n
    → take (length (text ++ (0 ∷ 0 ∷ []))) (strncpy text n) ≡ text ++ (0 ∷ 0 ∷ [])
unfolding strncpy
take-strncpy_two text zero h = absurd (omega arith)
take-strncpy_two [] (suc zero) h = absurd (omega arith)
take-strncpy_two [] (suc (suc n)) h = refl
take-strncpy_two (b ∷ text) (suc n) h = ap (λ t. b ∷ t) (take-strncpy_two text n (omega arith))

-- A text and the NUL behind it.
pub c_string-append : (text rest : List ℕ) → IsText text → c_string (text ++ (0 ∷ rest)) ≡ some text
unfolding c_string
c_string-append [] rest h = refl
c_string-append (b ∷ text) rest h = ground (arith, h.0, c_string-append text rest h.1)

-- A text that a NUL is written behind.
pub c_string-set :
    (text tail : List ℕ)
    → IsText text
    → 0 < length tail
    → c_string (text ++ set tail 0 0) ≡ some text
c_string-set text [] h p = absurd (omega (arith, p))
c_string-set text (b ∷ tail) h p = c_string-append text tail h

pub IsText-bytes : (text : List ℕ) → IsText text → All IsByte text
IsText-bytes [] h = tt
IsText-bytes (b ∷ text) h = (h.0.1, IsText-bytes text h.1)
