-- ===== src/Metrics/Decisions/Tail.antt =====
-- What `tail` returns.
use sqlum_ai.Common.{
  ℕ, zero, suc, ◌-◌, ◌≤◌, ◌≡◌, refl, sym, ap, ◌∙◌, Option, none, some, List, [], ◌∷◌, ◌++◌, arith,
  length, take, drop, take-append-drop, length-append, length-drop,
}
use Prim.Native.Nat.{min}
use sqlum_ai.Common.Text.{Text, codes}
use sqlum_ai.Metrics.Decisions.{Decision, Log, str, lines, merge, append, natural, parsed, tail}

-- A positive limit returns, in order, the decisions on the last lines of the log: on that many
-- lines, or on all where there are fewer; of these it leaves out the lines that do not parse.
pub tail-last :
    (n : ℕ) (log : Log)
    → (front : List (Option Decision)) × (back : List (Option Decision)) × (lines log
        ≡ front ++ back)
      × (length back ≡ min (suc n) (length (lines log)))
      × (tail (natural (suc n)) log ≡ parsed back)
unfolding tail
tail-last n none = ([], [], refl, omega arith, refl)
tail-last n (some ls) =
    let k : ℕ = length ls - suc n in
    (take k ls, drop k ls, sym (take-append-drop k ls), omega (arith, length-drop k ls), refl)

-- A limit of zero returns the whole log, like no limit at all.
pub tail_zero : (log : Log) → tail (natural 0) log ≡ parsed (lines log)
unfolding tail
tail_zero none = refl
tail_zero (some ls) = refl

parsed-append : (a b : List (Option Decision)) → parsed (a ++ b) ≡ parsed a ++ parsed b
unfolding parsed
parsed-append [] b = refl
parsed-append (none ∷ a) b = parsed-append a b
parsed-append (some d ∷ a) b = ap (λ l. d ∷ l) (parsed-append a b)

drop-append_le :
    {A : Type 0} (k : ℕ) (a b : List A) → k ≤ length a → drop k (a ++ b) ≡ drop k a ++ b
drop-append_le zero a b h = refl
drop-append_le (suc k) [] b h = elim h [ ]
drop-append_le (suc k) (x ∷ a) b h = drop-append_le k a b (omega arith)

-- the decision as `append` writes it
abbrev pub stamped : Text → Decision → Decision
stamped now d = merge ((codes "ts", str now) ∷ []) d

-- What was appended last comes last, behind what one line less would have returned; so a limit of
-- one returns it alone.
pub tail-append :
    (n : ℕ) (now : Text) (d : Decision) (ls : List (Option Decision))
    → tail (natural (suc n)) (append now d (some ls))
      ≡ parsed (drop (length ls - n) ls) ++ stamped now d ∷ []
unfolding tail append
tail-append n now d ls = rw (length-append) (
    ap (λ k. parsed (drop k (ls ++ some (stamped now d) ∷ []))) (omega arith)
    ∙ (ap parsed (drop-append_le (length ls - n) ls _ (omega arith))
        ∙ parsed-append (drop (length ls - n) ls) (some (stamped now d) ∷ [])))
