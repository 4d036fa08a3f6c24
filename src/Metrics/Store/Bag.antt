-- ===== src/Metrics/Store/Bag.antt =====
-- The counters as numbers under keys: a view of the file that forgets in which order the keys stand, and
-- takes 0 for a key that is not there.
use Prim.Native.Nat.{ℕ, ◌+◌}
use mathlib.Core.Path.{◌≡◌, refl, sym, ap, ◌∙◌}
use mathlib.Core.List.{List, [], ◌∷◌, Permᴰ}
use mathlib.Core.Quot
use mathlib.Core.Quot.{Quot, Quot-set}
use native.Mathlib.Nat.{ℕ_set}
use native.Mathlib.Omega.{arith}
use sqlum_ai.Common.{if◌then◌else◌}
use sqlum_ai.Common.Text.{Text, text_eq}
use sqlum_ai.Common.Table.{count_at}
use sqlum_ai.Metrics.Store.{File, read, inc}
use sqlum_ai.Metrics.Store.Counters.{get-inc}

-- Two files with the same number under each key.
abbrev pub SameCounts : File → File → Type 0
SameCounts f g = (key : Text) → count_at key (read f) ≡ count_at key (read g)

abbrev pub Bag : Type 0
Bag = Quot SameCounts

-- The abstract view of a file.
abbrev pub view : File → Bag
view f = Quot.mk f

-- The number under a key.
unfoldable pub occurrences : Text → Bag → ℕ
occurrences key = Quot.lift ℕ_set (λ f. count_at key (read f)) (λ f g h. h key)

pub inc-SameCounts :
    (key : Text) (by : ℕ) (f g : File) → SameCounts f g → SameCounts (inc key by f) (inc key by g)
inc-SameCounts key by f g h j = omega (arith, get-inc key j by f, get-inc key j by g, h j)

-- `inc` on the abstract view
unfoldable pub add : Text → ℕ → Bag → Bag
add key by =
    Quot.lift Quot-set (λ f. view (inc key by f))
      (λ f g h. Quot.sound (inc-SameCounts key by f g h))

pub add_comm : (k j : Text) (a b : ℕ) (m : Bag) → add k a (add j b m) ≡ add j b (add k a m)
unfolding add
add_comm k j a b =
    Quot.ind (λ m. Quot-set _ _)
      (λ f. Quot.sound (λ key. omega (
        arith,
        get-inc k key a (inc j b f),
        get-inc j key b f,
        get-inc j key b (inc k a f),
        get-inc k key a f,
      )))

pub occurrences-add :
    (key k : Text) (by : ℕ) (m : Bag)
    → occurrences key (add k by m) ≡ occurrences key m + (if text_eq k key then by else 0)
unfolding occurrences add
occurrences-add key k by = Quot.ind (λ m. ℕ_set _ _) (λ f. get-inc k key by f)

-- One `inc` for each pair, the first pair first.
unfoldable pub inc_all : List (Text × ℕ) → File → File
inc_all [] f = f
inc_all ((key, by) ∷ calls) f = inc_all calls (inc key by f)

unfoldable pub add_all : List (Text × ℕ) → Bag → Bag
add_all [] m = m
add_all ((key, by) ∷ calls) m = add_all calls (add key by m)

view-inc_all :
    (calls : List (Text × ℕ)) (f : File) → view (inc_all calls f) ≡ add_all calls (view f)
unfolding inc_all add_all add
view-inc_all [] f = refl
view-inc_all ((key, by) ∷ calls) f = view-inc_all calls (inc key by f)

add_all-Perm : (xs ys : List (Text × ℕ)) → Permᴰ xs ys → (m : Bag) → add_all xs m ≡ add_all ys m
unfolding add_all
add_all-Perm xs ys Permᴰ.nil m = refl
add_all-Perm xs ys (Permᴰ.cons {b = b} {l₁ = l} {l₂ = r} e h) m =
    ap (λ x. add_all l (add x.0 x.1 m)) e ∙ add_all-Perm l r h (add b.0 b.1 m)
add_all-Perm xs ys (Permᴰ.swap {a = a} {b = b} {a' = c} {b' = d} {l = l} e e') m =
    ap (λ z. add_all l z)
      (add_comm b.0 a.0 b.1 a.1 m
        ∙ ap (λ x. add a.0 a.1 (add x.0 x.1 m)) e'
        ∙ ap (λ x. add x.0 x.1 (add c.0 c.1 m)) e)
add_all-Perm xs ys (Permᴰ.trans {l₂ = zs} h k) m = add_all-Perm xs zs h m ∙ add_all-Perm zs ys k m

-- What the calls add under a key.
unfoldable pub added : Text → List (Text × ℕ) → ℕ
added key [] = 0
added key ((k, by) ∷ calls) = (if text_eq k key then by else 0) + added key calls

get-inc_all :
    (key : Text) (calls : List (Text × ℕ)) (f : File)
    → count_at key (read (inc_all calls f)) ≡ count_at key (read f) + added key calls
unfolding inc_all added
get-inc_all key [] f = omega arith
get-inc_all key ((k, by) ∷ calls) f =
    omega (arith, get-inc_all key calls (inc k by f), get-inc k key by f)

-- After any calls of `inc`, the number under each key is what it was, 0 where there was none, and the sum
-- of what the calls with this key add; and calls in another order leave the same numbers, as the view of
-- the file has it that forgets the order of the keys and takes 0 for a key that is not there.
pub inc_all-Perm :
    (xs ys : List (Text × ℕ)) (f : File)
    → Permᴰ xs ys
    → ((key : Text) → count_at key (read (inc_all xs f)) ≡ count_at key (read f) + added key xs)
      × (view (inc_all xs f) ≡ view (inc_all ys f))
inc_all-Perm xs ys f h = (
  λ key. get-inc_all key xs f,
  view-inc_all xs f ∙ add_all-Perm xs ys h (view f) ∙ sym (view-inc_all ys f),
)
