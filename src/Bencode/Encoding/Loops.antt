-- ===== src/Bencode/Encoding/Loops.antt =====
-- One turn of the parser's loops over an encoding. The read of the value is a hypothesis.
use uenclient.Common.{ℕ, suc, ◌+◌, ◌≡◌, refl, ap, ◌∙◌, false, ◌∷◌, Bytes, arith, length, ◌==◌}
use uenclient.Bencode.Value.{Value, Items, Entries, append_item}
use uenclient.Bencode.Parser.{
  State, Outcome, next, no_value, turn, again, move, get_value, list_loop, dictionary_loop,
}
use uenclient.Bencode.Encoding.Scan.{Reads}

module _ {ℓ} {A : Type ℓ} (Q : Type 0) (s : State) (acc : A) where
  pub again-more :
      (more : Outcome A) {d : ℕ} {ds : Bytes} → s.rest ≡ d ∷ ds → again s acc more ≡ more
  again-more more e = rw (e, again)

  pub turn-more :
      (more : Outcome A) {c : ℕ} {cs : Bytes}
      → s.rest ≡ c ∷ cs
      → (c == b'e') ≡ false
      → turn s acc more s.rest ≡ more
  turn-more more at no_e = ap (turn s acc more) at ∙ rw no_e

  turn-end :
      (more : Outcome A) (r : Bytes) → s.rest ≡ b'e' ∷ r → Reads Q s r acc (turn s acc more s.rest)
  turn-end more r at = record {
    after = move s (s.index + 1) r;
    returned = ap (turn s acc more) at;
    rest_is = refl;
    position = omega (arith, ap length at);
    err_is = refl;
    info_start_is = λ q. refl;
    info_length_is = λ q. refl;
  }

module _ (Q : Type 0) (f : ℕ) (s : State) where
  pub list_loop-end :
      (acc : Items) (r : Bytes) → s.rest ≡ b'e' ∷ r → Reads Q s r acc (list_loop (suc f) s acc)
  unfolding get_value
  list_loop-end acc r at = turn-end Q s acc _ r at

  pub dictionary_loop-end :
      (acc : Entries) (r : Bytes)
      → s.rest ≡ b'e' ∷ r
      → Reads Q s r acc (dictionary_loop (suc f) s acc)
  unfolding get_value
  dictionary_loop-end acc r at = turn-end Q s acc _ r at

  pub list_loop-item :
      (acc : Items) (v : Value) {c d : ℕ} {cs ds x : Bytes} (h : Reads Q s x v (get_value f s))
      → s.rest ≡ c ∷ cs
      → (c == b'e') ≡ false
      → x ≡ d ∷ ds
      → list_loop (suc f) s acc ≡ list_loop f h.after (append_item acc v)
  unfolding get_value
  list_loop-item acc v h at no_e e =
      turn-more Q s acc _ at no_e
      ∙ ap
          (λ o.
            next (no_value o)
              (λ w t. again t (append_item acc w) (list_loop f t (append_item acc w))))
          h.returned
      ∙ again-more Q h.after (append_item acc v) _ (h.rest_is ∙ e)
