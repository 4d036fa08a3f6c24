-- ===== src/Common/Regex.antt =====
-- The part of Python's `re` that the program uses: a pattern as data, matched by backtracking in
-- Python's order (leftmost start, greedy and lazy repeats, the first alternative first). Repeats
-- are over one-character classes, as in every pattern of the program but `(\.\d+)?`.
pub mod Sound
pub mod Complete
pub mod Longest
use Prim.Native.Nat.{ℕ, zero, suc, ◌-◌}
use mathlib.Core.Bool.{Bool, true, false, ◌&&◌, ◌||◌, not}
use mathlib.Core.Option.{Option, none, some}
use mathlib.Core.List.{List, [], ◌∷◌, ◌++◌}
use sqlum_ai.Common.Tests.{◌==◌, if◌then◌else◌, ◌<|>◌}
use sqlum_ai.Common.Text.{Text, lower_char, is_space, is_word, is_digit}

-- What the groups have captured, the latest first.
abbrev pub Captures : Type 0
Captures = List (ℕ × Text)

pub data Re : Type 0 where
  eps : Re
  chr : (ℕ → Bool) → Re
  seq : Re → Re → Re
  alt : Re → Re → Re
  -- `[class]{min,max}`, lazy with a `?` behind it; `none` is no upper bound
  rep : Bool → ℕ → Option ℕ → (ℕ → Bool) → Re
  cap : ℕ → Re → Re
  -- `$` without re.MULTILINE
  end_of_text : Re

-- May one more character be taken, and what bound is left?
abbrev pub room : Option ℕ → Bool
room none = true
room (some zero) = false
room (some (suc n)) = true

abbrev pub one_less : Option ℕ → Option ℕ
one_less none = none
one_less (some n) = some (n - 1)

-- `$` matches at the end, and before a newline that ends the text.
unfoldable pub at_end : Text → Bool
at_end [] = true
at_end (c ∷ []) = c == 10
at_end (c ∷ (d ∷ s)) = false

abbrev pub Cont : Type 0 → Type 0
Cont R = Text → Text → Captures → Option R

module _ {R : Type 0} where
  -- `u` is what the repeat has taken
  unfoldable pub repeat_greedy :
      ℕ → Option ℕ → (ℕ → Bool) → Text → Text → (Text → Text → Option R) → Option R
  repeat_greedy min max p u [] k = if min == 0 then k u [] else none
  repeat_greedy min max p u (c ∷ s) k =
      let more = repeat_greedy (min - 1) (one_less max) p (u ++ c ∷ []) s k in
      let stop = if min == 0 then k u (c ∷ s) else none in
      if room max && p c then more <|> stop else stop

  unfoldable pub repeat_lazy :
      ℕ → Option ℕ → (ℕ → Bool) → Text → Text → (Text → Text → Option R) → Option R
  repeat_lazy min max p u [] k = if min == 0 then k u [] else none
  repeat_lazy min max p u (c ∷ s) k =
      let more = repeat_lazy (min - 1) (one_less max) p (u ++ c ∷ []) s k in
      let stop = if min == 0 then k u (c ∷ s) else none in
      if room max && p c then stop <|> more else stop

  -- `k` goes on with the text taken, the text left and the captures
  unfoldable pub run : Re → Text → Captures → Cont R → Option R
  unfolding repeat_greedy repeat_lazy at_end
  run eps s c k = k [] s c
  run (chr p) [] c k = none
  run (chr p) (x ∷ s) c k = let go = k (x ∷ []) s c in if p x then go else none
  run (seq a b) s c k = run a s c (λ u s' c'. run b s' c' (λ v s'' c''. k (u ++ v) s'' c''))
  run (alt a b) s c k = let second = run b s c k in run a s c k <|> second
  run (rep true min max p) s c k = repeat_greedy min max p [] s (λ u s'. k u s' c)
  run (rep false min max p) s c k = repeat_lazy min max p [] s (λ u s'. k u s' c)
  run (cap n r) s c k = run r s c (λ u s' c'. k u s' ((n, u) ∷ c'))
  run end_of_text s c k = if at_end s then k [] s c else none

pub record Match : Type 0 where
  pub before : Text
  pub whole : Text
  pub after : Text
  pub captures : Captures

abbrev pub found : Text → Cont Match
found b u s c = some (record { before = b; whole = u; after = s; captures = c })

-- `re.search(r, s)`, with `b` what stands before `s`
unfoldable pub search_from : Re → Text → Text → Option Match
unfolding run
search_from r b [] = run r [] [] (found b)
search_from r b (c ∷ s) =
    let later = search_from r (b ++ c ∷ []) s in run r (c ∷ s) [] (found b) <|> later

unfoldable pub search_re : Re → Text → Option Match
unfolding search_from
search_re r s = search_from r [] s

-- `re.match(r, s)`
unfoldable pub match_re : Re → Text → Option Match
unfolding run
match_re r s = run r s [] (found [])

unfoldable pub capture : ℕ → Captures → Text
capture n [] = []
capture n ((m, u) ∷ c) = let rest = capture n c in if m == n then u else rest

-- `m.group(n)`, for a group that every match captures
unfoldable pub group : Match → ℕ → Text
unfolding capture
group m n = capture n m.captures

-- Pieces of patterns.
abbrev pub lit : ℕ → Re
lit d = chr (λ c. c == d)

-- a literal under re.IGNORECASE
abbrev pub word : Text → Re
word [] = eps
word (d ∷ t) = seq (chr (λ c. lower_char c == lower_char d)) (word t)

infixr 6 ◌▹◌
abbrev pub ◌▹◌ : Re → Re → Re
a ▹ b = seq a b

abbrev pub spaces : Re
spaces = rep true 1 none is_space

abbrev pub spaces? : Re
spaces? = rep true 0 none is_space

-- `[\w\.\[\]]+`
abbrev pub ident_char : ℕ → Bool
ident_char c = is_word c || c == b'.' || c == b'[' || c == b']'

abbrev pub ident : Re
ident = rep true 1 none ident_char

-- `[^\)]+`
abbrev pub up_to_paren : Re
up_to_paren = rep true 1 none (λ c. not (c == b')'))

-- `.` under re.DOTALL
abbrev pub any_char : ℕ → Bool
any_char c = true
