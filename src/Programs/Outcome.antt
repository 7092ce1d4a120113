-- ===== src/Programs/Outcome.antt =====
-- What the proofs about the programs of mqtt-sn-tools share.
use ts_it.Base.{ℕ, zero, suc, ◌+◌, refl, List, [], ◌∷◌}
use ts_it.Programs.Options.{Opt, each_option}
use ts_it.Tools.State.{Client, M}
use ts_it.Tools.Outcome.{Ends, Ends-bind}

-- Where each option can be taken, all of them can.
pub each_option-Ends :
    {A : Type 0} (f : Opt → A → M A) (opts : List Opt) (o : A) (c : Client)
    → ((opt : Opt) (o : A) (c : Client) → Ends (λ _ _. Unit) (f opt o c))
    → Ends (λ _ _. Unit) (each_option f opts o c)
unfolding each_option
each_option-Ends f [] o c each = tt
each_option-Ends f (opt ∷ opts) o c each =
    Ends-bind (λ _ _. Unit) (λ _ _. Unit) _ (f opt o) (each_option f opts) c refl (each opt o c)
      (λ o' d p. each_option-Ends f opts o' d each)

-- The moment when so many more questions have been asked.
abbrev pub later : ℕ → ℕ → ℕ
later zero m = m
later (suc k) m = later k m + 1
