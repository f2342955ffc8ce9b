-- ===== src/Bencode/Parser/Progress.antt =====
-- How far each member function of the bencode parser reads: bounds on what is left.
use uenclient.Common.{
  ℕ, suc, ◌+◌, ◌≤◌, ◌<◌, Bool, true, false, Option, none, some, [], ◌∷◌, Bytes, arith, length,
  length-drop, ltb, ◌==◌, Bool-cases, inl, inr, not, ◌||◌,
}
use uenclient.Bencode.Parser.{
  State, Outcome, done, refused, fault, out_of_fuel, next, otherwise, no_value, scan_size, cut,
  get_byte_string, scan_integer, integer_at, get_integer, shift, is_digit,
}

module _ {ℓ} {A : Type ℓ} where
  -- The call ended, with at most `n` bytes left.
  abbrev pub Within : ℕ → Outcome A → Type 0
  Within n (done a t) = length t.rest ≤ n
  Within n (refused t) = length t.rest ≤ n
  Within n fault = Unit
  Within n out_of_fuel = ⊥

  -- The call ended, and if it returned true it has read something.
  abbrev pub Strict : ℕ → Outcome A → Type 0
  Strict n (done a t) = length t.rest < n
  Strict n (refused t) = length t.rest ≤ n
  Strict n fault = Unit
  Strict n out_of_fuel = ⊥

module _ {ℓ} {A : Type ℓ} where
  pub Strict-Within : (n : ℕ) (o : Outcome A) → Strict n o → Within n o
  Strict-Within n (done a t) h = omega arith
  Strict-Within n (refused t) h = h
  Strict-Within n fault h = tt
  Strict-Within n out_of_fuel h = h

  pub Within-mono : (m n : ℕ) (o : Outcome A) → m ≤ n → Within m o → Within n o
  Within-mono m n (done a t) l h = omega arith
  Within-mono m n (refused t) l h = omega arith
  Within-mono m n fault l h = tt
  Within-mono m n out_of_fuel l h = h

  pub Within-Strict : (m n : ℕ) (o : Outcome A) → m < n → Within m o → Strict n o
  Within-Strict m n (done a t) l h = omega arith
  Within-Strict m n (refused t) l h = omega arith
  Within-Strict m n fault l h = tt
  Within-Strict m n out_of_fuel l h = h

  pub Strict-otherwise :
      (n : ℕ) (o : Outcome A) (k : State → Outcome A)
      → Strict n o
      → ((t : State) → length t.rest ≤ n → Strict n (k t))
      → Strict n (otherwise o k)
  Strict-otherwise n (done a t) k h g = h
  Strict-otherwise n (refused t) k h g = g t h
  Strict-otherwise n fault k h g = tt
  Strict-otherwise n out_of_fuel k h g = h

  pub Strict-no_value : (n : ℕ) (o : Outcome A) → Strict n o → Strict n (no_value o)
  Strict-no_value n (done a t) h = h
  Strict-no_value n (refused t) h = h
  Strict-no_value n fault h = tt
  Strict-no_value n out_of_fuel h = h

module _ {ℓ κ} {A : Type ℓ} {B : Type κ} where
  pub Strict-next :
      (n : ℕ) (o : Outcome A) (f : A → B) → Strict n o → Strict n (next o (λ a t. done (f a) t))
  Strict-next n (done a t) f h = h
  Strict-next n (refused t) f h = h
  Strict-next n fault f h = tt
  Strict-next n out_of_fuel f h = h

  pub Within-next :
      (n : ℕ) (o : Outcome A) (k : A → State → Outcome B)
      → Strict n o
      → ((a : A) (t : State) → length t.rest < n → Within n (k a t))
      → Within n (next o k)
  Within-next n (done a t) k h g = g a t h
  Within-next n (refused t) k h g = h
  Within-next n fault k h g = tt
  Within-next n out_of_fuel k h g = h

scan_size-Within :
    (s : State) (i n : ℕ) (cs : Bytes) → Within (length cs) (scan_size s i (some n) cs)
unfolding scan_size
scan_size-Within s i n [] = omega arith
scan_size-Within s i n (c ∷ cs) =
    let ih = scan_size-Within s (i + 1) (shift (some n) c) cs in
    let longer = Within-mono (length cs) (suc (length cs)) _ (omega arith) ih in
    elim (Bool-cases (is_digit c)) [
      | inl d ↦ rw d (elim (Bool-cases (ltb (shift (some n) c) 2147483648)) [
        | inl e ↦ rw e longer
        | inr e ↦ rw e tt
      ])
      | inr d ↦ rw d (elim (Bool-cases (c == b':')) [
        | inl e ↦ rw e (omega arith)
        | inr e ↦ rw e (omega arith)
      ])
    ]

scan_size-Strict : (s : State) (i : ℕ) (cs : Bytes) → Strict (length cs) (scan_size s i none cs)
unfolding scan_size
scan_size-Strict s i [] = tt
scan_size-Strict s i (c ∷ cs) =
    let ih = scan_size-Within s (i + 1) (shift none c) cs in
    elim (Bool-cases (is_digit c)) [
      | inl d ↦ rw d (elim (Bool-cases (ltb (shift none c) 2147483648)) [
        | inl e ↦ rw e (Within-Strict (length cs) (suc (length cs)) _ (omega arith) ih)
        | inr e ↦ rw e tt
      ])
      | inr d ↦ rw d (omega arith)
    ]

cut-Strict : (m : ℕ) (o : Outcome ℕ) → Strict m o → Strict m (next o cut)
unfolding cut
cut-Strict m (done n t) h = elim (Bool-cases (ltb (t.index + n) 2147483648)) [
  | inl e ↦ rw e (omega (arith, length-drop n t.rest))
  | inr e ↦ rw e tt
]
cut-Strict m (refused t) h = h
cut-Strict m fault h = tt
cut-Strict m out_of_fuel h = h

pub get_byte_string-Strict : (s : State) → Strict (length s.rest) (get_byte_string s)
unfolding get_byte_string
get_byte_string-Strict s = cut-Strict (length s.rest) _ (scan_size-Strict s s.index s.rest)

scan_integer-Within :
    (s : State) (i : ℕ) (negative : Bool) (num : Option ℕ) (cs : Bytes)
    → Within (length cs) (scan_integer s i negative num cs)
unfolding scan_integer
scan_integer-Within s i false none [] = tt
scan_integer-Within s i true none [] = omega arith
scan_integer-Within s i negative (some n) [] = omega arith
scan_integer-Within s i negative none (c ∷ cs) =
    let ih = scan_integer-Within s (i + 1) negative (some (shift none c)) cs in
    let signed_ih = scan_integer-Within s (i + 1) true none cs in
    elim (Bool-cases (is_digit c)) [
      | inl d ↦ rw d (elim (Bool-cases (ltb (shift none c) 9223372036854775808)) [
        | inl e ↦ rw e (Within-mono (length cs) (suc (length cs)) _ (omega arith) ih)
        | inr e ↦ rw e tt
      ])
      | inr d ↦ rw d (elim (Bool-cases (not (c == b'-') || negative)) [
        | inl e ↦ rw e (omega arith)
        | inr e ↦ rw e (Within-mono (length cs) (suc (length cs)) _ (omega arith) signed_ih)
      ])
    ]
scan_integer-Within s i negative (some n) (c ∷ cs) =
    let ih = scan_integer-Within s (i + 1) negative (some (shift (some n) c)) cs in
    elim (Bool-cases (is_digit c)) [
      | inl d ↦ rw d (elim (Bool-cases (ltb (shift (some n) c) 9223372036854775808)) [
        | inl e ↦ rw e (Within-mono (length cs) (suc (length cs)) _ (omega arith) ih)
        | inr e ↦ rw e tt
      ])
      | inr d ↦ rw d (elim (Bool-cases (c == b'e')) [
        | inl e ↦ rw e (omega arith)
        | inr e ↦ rw e (omega arith)
      ])
    ]

integer_at-Strict :
    (s : State) (cs : Bytes) → length cs ≤ length s.rest → Strict (length s.rest) (integer_at s cs)
unfolding integer_at
integer_at-Strict s [] h = tt
integer_at-Strict s (c ∷ cs) h = elim (Bool-cases (c == b'i')) [
  | inl e ↦ rw e (
      Within-Strict (length cs) (length s.rest) _ h
        (scan_integer-Within s (s.index + 1) false none cs))
  | inr e ↦ rw e (omega arith)
]

pub get_integer-Strict : (s : State) → Strict (length s.rest) (get_integer s)
unfolding get_integer
get_integer-Strict s = integer_at-Strict s s.rest (omega arith)
