-- ===== src/Tools/Outcome.antt =====
-- Runs of mqtt-sn-tools that come to an end: what the proofs about them share.
use ts_it.Base.{◌≡◌}
use ts_it.Tools.State.{Client, M, Run, ok, exit, ◌>>=◌, exit_failure, Post}

-- The call returns and has the property, or the program exits with `EXIT_FAILURE`.
abbrev pub Ends : {A : Type 0} → (A → Client → Type 0) → Run A → Type 0
Ends P (ok a c) = P a c
Ends P (exit code c) = code ≡ exit_failure
Ends P Run.fault = ⊥
Ends P Run.out_of_fuel = ⊥

pub Ends-bind :
    {A B : Type 0} (P : A → Client → Type 0) (Q : B → Client → Type 0) (r : Run A) (m : M A)
    (f : A → M B) (c : Client)
    → m c ≡ r
    → Ends P r
    → ((a : A) (d : Client) → P a d → Ends Q (f a d))
    → Ends Q ((m >>= f) c)
Ends-bind P Q (ok a d) m f c e p next = rw (e, ◌>>=◌) (next a d p)
Ends-bind P Q (exit code d) m f c e p next = rw (e, ◌>>=◌) p
Ends-bind P Q Run.fault m f c e p next = absurd p
Ends-bind P Q Run.out_of_fuel m f c e p next = absurd p

-- So the property holds wherever the call returns.
pub Ends-Post :
    {A : Type 0} (P Q : A → Client → Type 0) (r : Run A)
    → Ends P r
    → ((a : A) (d : Client) → P a d → Q a d)
    → Post Q r
Ends-Post P Q (ok a d) p f = f a d p
Ends-Post P Q (exit code d) p f = tt
Ends-Post P Q Run.fault p f = tt
Ends-Post P Q Run.out_of_fuel p f = tt

pub Ends-mono :
    {A : Type 0} (P Q : A → Client → Type 0) (r : Run A)
    → Ends P r
    → ((a : A) (d : Client) → P a d → Q a d)
    → Ends Q r
Ends-mono P Q (ok a d) p f = f a d p
Ends-mono P Q (exit code d) p f = p
Ends-mono P Q Run.fault p f = absurd p
Ends-mono P Q Run.out_of_fuel p f = absurd p
