-- ===== src/Programs/Options.antt =====
-- What the command-line programs of mqtt-sn-tools share: the options that getopt_long gives, `atoi`,
-- and the call of a step for each option.
use Prim.Native.String.{String}
use ts_it.Base.{
  ℕ, ◌+◌, ◌-◌, ◌*◌, ◌^◌, ◌%◌, Bool, true, false, Option, none, some, ◌&&◌, ◌||◌, ◌==◌, leb,
  if◌then◌else◌, List, [], ◌∷◌, codes,
}
use ts_it.Tools.State.{M, ◌>>=◌, pure, exit_with, exit_failure}

-- A result of getopt_long: the character it returns, and what `optarg` leads to.
pub record Opt : Type 0 where
  pub ch : ℕ
  pub optarg : List ℕ

-- `'d'` is `char "d"`.
abbrev pub char : String → ℕ
char s = elim (codes s) [ [] ↦ 0 | c ∷ _ ↦ c ]

-- The digits at the start of a text, behind a number that has been read.
abbrev pub digits : ℕ → List ℕ → ℕ
digits n [] = n
digits n (b ∷ text) =
    if leb (char "0") b && leb b (char "9") then digits (n * 10 + (b - char "0")) text else n

abbrev is_space : ℕ → Bool
is_space b = (b == 32) || (leb 9 b && leb b 13)

-- `atoi` of a text, stored in `w` bits: white space, a sign, and digits.
abbrev pub atoi : ℕ → List ℕ → ℕ
atoi w [] = 0
atoi w (b ∷ text) =
    let rest = atoi w text in
    if is_space b
    then rest
    else if b == char "-"
    then (2 ^ w - digits 0 text % 2 ^ w) % 2 ^ w
    else if b == char "+"
    then digits 0 text % 2 ^ w
    else digits 0 (b ∷ text) % 2 ^ w

module _ {A : Type 0} where
  -- `usage()`
  abbrev pub usage : M A
  usage = exit_with exit_failure

  -- The loop over the options.
  unfoldable pub each_option : (Opt → A → M A) → List Opt → A → M A
  each_option set_option [] o = pure o
  each_option set_option (opt ∷ opts) o = do o' ← set_option opt o; each_option set_option opts o'

-- A pointer that is not NULL.
abbrev pub is_given : {A : Type 0} → Option A → Bool
is_given none = false
is_given (some a) = true

-- An `if` without `else`.
abbrev pub when : Bool → M (Unit {0}) → M (Unit {0})
when true m = m
when false m = pure tt
