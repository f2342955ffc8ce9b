-- ===== src/Bencode/Parser/Termination.antt =====
-- Termination of the bencode parser: the fuel that `parse` gives to the recursive descent suffices.
use uenclient.Common.{
  ℕ, zero, suc, ◌+◌, ◌*◌, ◌≤◌, ◌<◌, ◌≡◌, ◌≢◌, refl, [], ◌∷◌, Bytes, arith, length, ◌==◌, Bool-cases,
  inl, inr, ap, subst,
}
use uenclient.Bencode.Value.{
  Items, Entries, integer, byte_string, list, dictionary, nil, end, append_item, insert,
}
use uenclient.Bencode.Parser.Progress.{
  Within, Strict, Strict-Within, Within-mono, Within-Strict, Strict-otherwise, Strict-no_value,
  Strict-next, Within-next, get_byte_string-Strict, get_integer-Strict,
}
use uenclient.Bencode.Parser.{
  State, Outcome, done, refused, fault, out_of_fuel, turn, opening, again, keyed, move, mark_start,
  mark_length, get_value, get_list, list_loop, get_dictionary, dictionary_loop, parse, enough,
  initial,
}

module _ {ℓ} {A : Type ℓ} where
  Strict-mono : (m n : ℕ) (o : Outcome A) → m ≤ n → Strict m o → Strict n o
  Strict-mono m n (done a t) l h = omega arith
  Strict-mono m n (refused t) l h = omega arith
  Strict-mono m n fault l h = tt
  Strict-mono m n out_of_fuel l h = h

  Strict-opening :
      (letter : ℕ) (s : State) (body : State → Outcome A) (cs : Bytes)
      → length cs ≤ length s.rest
      → ((t : State) → length t.rest < length s.rest → Within (length t.rest) (body t))
      → Strict (length s.rest) (opening letter s body cs)
  Strict-opening letter s body [] l h = tt
  Strict-opening letter s body (c ∷ cs) l h = elim (Bool-cases (c == letter)) [
    | inl e ↦ rw e (Within-Strict (length cs) (length s.rest) _ l (h (move s (s.index + 1) cs) l))
    | inr e ↦ rw e (omega arith)
  ]

  Within-turn :
      (s : State) (acc : A) (more : Outcome A) (cs : Bytes)
      → length cs ≤ length s.rest
      → Within (length s.rest) more
      → Within (length s.rest) (turn s acc more cs)
  Within-turn s acc more [] l h = tt
  Within-turn s acc more (c ∷ cs) l h = elim (Bool-cases (c == b'e')) [
    | inl e ↦ rw e (omega arith)
    | inr e ↦ rw e h
  ]

  Within-again :
      (n : ℕ) (s : State) (acc : A) (more : Outcome A) (cs : Bytes)
      → s.rest ≡ cs
      → length s.rest ≤ n
      → Within n more
      → Within n (again s acc more)
  Within-again n s acc more [] e l h = rw (e, again) l
  Within-again n s acc more (c ∷ cs) e l h = rw (e, again) h

  Within-keyed :
      (n : ℕ) (o : Outcome Bytes) (acc : A) (more : Bytes → State → Outcome A)
      → Strict n o
      → ((k : Bytes) (t : State) → length t.rest < n → Within n (more k t))
      → Within n (keyed o acc more)
  Within-keyed n (done k t) acc more h g = g k t h
  Within-keyed n (refused t) acc more h g = h
  Within-keyed n fault acc more h g = tt
  Within-keyed n out_of_fuel acc more h g = h

rest-mark_start : (k : Bytes) (s : State) → (mark_start k s).rest ≡ s.rest
rest-mark_start k s = ground arith

rest-mark_length : (k : Bytes) (s : State) → (mark_length k s).rest ≡ s.rest
rest-mark_length k s = ground arith

mutual
  unfolding get_value

  get_value-Strict :
      (f : ℕ) (s : State) → 3 * length s.rest + 3 ≤ f → Strict (length s.rest) (get_value f s)
  get_value-Strict zero s h = absurd (omega arith)
  get_value-Strict (suc f) s h =
      let n : ℕ = length s.rest in
      Strict-otherwise n _ _ (Strict-next n _ integer (get_integer-Strict s)) λ s1 h1.
        Strict-otherwise n _ _
          (Strict-mono (length s1.rest) n _ h1
            (Strict-next (length s1.rest) _ byte_string (get_byte_string-Strict s1)))
          λ s2 h2.
            Strict-otherwise n _ _
              (Strict-mono (length s2.rest) n _ h2
                (Strict-next (length s2.rest) _ list (get_list-Strict f s2 (omega arith))))
              λ s3 h3. Strict-mono (length s3.rest) n _ h3 (
                Strict-next (length s3.rest) _ dictionary
                  (get_dictionary-Strict f s3 (omega arith)))

  get_list-Strict :
      (f : ℕ) (s : State) → 3 * length s.rest + 2 ≤ f → Strict (length s.rest) (get_list f s)
  get_list-Strict zero s h = absurd (omega arith)
  get_list-Strict (suc f) s h =
      Strict-opening b'l' s _ s.rest (omega arith) λ t l. list_loop-Within f t nil (omega arith)

  list_loop-Within :
      (f : ℕ) (s : State) (acc : Items)
      → 3 * length s.rest + 4 ≤ f
      → Within (length s.rest) (list_loop f s acc)
  list_loop-Within zero s acc h = absurd (omega arith)
  list_loop-Within (suc f) s acc h = Within-turn s acc _ s.rest (omega arith) (
      Within-next (length s.rest) _ _
        (Strict-no_value (length s.rest) _ (get_value-Strict f s (omega arith)))
        λ v t l. Within-again (length s.rest) t _ _ t.rest refl (omega arith) (
          Within-mono (length t.rest) (length s.rest) _ (omega arith)
            (list_loop-Within f t (append_item acc v) (omega arith))))

  get_dictionary-Strict :
      (f : ℕ) (s : State) → 3 * length s.rest + 2 ≤ f → Strict (length s.rest) (get_dictionary f s)
  get_dictionary-Strict zero s h = absurd (omega arith)
  get_dictionary-Strict (suc f) s h =
      Strict-opening b'd' s _ s.rest (omega arith)
        λ t l. dictionary_loop-Within f t end (omega arith)

  dictionary_loop-Within :
      (f : ℕ) (s : State) (acc : Entries)
      → 3 * length s.rest + 4 ≤ f
      → Within (length s.rest) (dictionary_loop f s acc)
  dictionary_loop-Within zero s acc h = absurd (omega arith)
  dictionary_loop-Within (suc f) s acc h =
      let n : ℕ = length s.rest in
      Within-turn s acc _ s.rest (omega arith) (
        Within-keyed n _ acc _ (get_byte_string-Strict s) λ k t l.
          let t' : State = mark_start k t in
          let same : length t'.rest ≡ length t.rest = ap length (rest-mark_start k t) in
          Within-next n _ _
            (Strict-no_value n _ (
              Strict-mono (length t'.rest) n _ (omega arith) (get_value-Strict f t' (omega arith))))
            λ v u m.
              let w : State = mark_length k u in
              let kept : length w.rest ≡ length u.rest = ap length (rest-mark_length k u) in
              Within-again n w _ _ w.rest refl (omega arith) (
                Within-mono (length w.rest) n _ (omega arith)
                  (dictionary_loop-Within f w (insert k v acc) (omega arith))))

-- Parsing any content ends: the fuel `enough content` never runs out, whatever the bytes are.
pub parse-ne-out_of_fuel : (content : Bytes) → parse content ≢ out_of_fuel
unfolding parse
parse-ne-out_of_fuel [] e = cc
parse-ne-out_of_fuel (c ∷ cs) e = subst (Within (length (c ∷ cs))) e (
    Strict-Within (length (c ∷ cs)) _
      (get_dictionary-Strict (enough (c ∷ cs)) (initial (c ∷ cs)) (omega arith)))
