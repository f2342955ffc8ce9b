-- ===== src/Common/Sets.antt =====
-- A `QSet` of objects, each known by its number: a list in which no number occurs twice.
use Prim.Native.Nat.{ℕ, ◌+◌, ◌≤◌}
use mathlib.Core.Path.{◌≡◌, sym, ap, ◌∙◌}
use mathlib.Core.Bool.{Bool, false, ◌||◌}
use mathlib.Core.Logic.{inl, inr}
use mathlib.Core.List.{List, [], ◌∷◌}
use native.Mathlib.Omega.{arith}
use uenclient.Common.Tests.{◌==◌, ==_iff, if◌then◌else◌, Bool-cases}
use uenclient.Common.Lists.{length}

abbrev pub contains : List ℕ → ℕ → Bool
contains [] n = false
contains (m ∷ ms) n = m == n || contains ms n

-- `set << n`.
unfoldable pub insert : List ℕ → ℕ → List ℕ
insert ms n = if contains ms n then ms else n ∷ ms

unfoldable pub remove : List ℕ → ℕ → List ℕ
remove [] n = []
remove (m ∷ ms) n = let rest = remove ms n in if m == n then rest else m ∷ rest

pub contains-remove :
    (ms : List ℕ) (n k : ℕ) → contains (remove ms n) k ≡ (if n == k then false else contains ms k)
unfolding remove
contains-remove [] n k = ground arith
contains-remove (m ∷ ms) n k = ground (arith, contains-remove ms n k)

pub contains-insert : (ms : List ℕ) (n k : ℕ) → contains (insert ms n) k ≡ (n == k || contains ms k)
unfolding insert
contains-insert ms n k = elim (Bool-cases (contains ms n)) [
  | inl e ↦ rw e (elim (Bool-cases (n == k)) [
    | inl f ↦ rw f (ap (contains ms) (sym ((==_iff n k).0 f)) ∙ e)
    | inr f ↦ rw f
  ])
  | inr e ↦ rw e
]

pub length-remove : (ms : List ℕ) (n : ℕ) → length (remove ms n) ≤ length ms
unfolding remove
length-remove [] n = omega arith
length-remove (m ∷ ms) n = ground (arith, length-remove ms n)

pub length-insert : (ms : List ℕ) (n : ℕ) → length (insert ms n) ≤ length ms + 1
unfolding insert
length-insert ms n = ground arith
