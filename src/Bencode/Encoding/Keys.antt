-- ===== src/Bencode/Encoding/Keys.antt =====
-- A turn of the dictionary loop of the parser over an encoded entry.
use uenclient.Common.{
  ℕ, suc, ◌+◌, ◌-◌, ◌≤◌, ◌<◌, ◌≡◌, ap, ◌∙◌, true, false, ◌∷◌, Bytes, arith, length, same_bytes,
}
use uenclient.Bencode.Value.{Value, Entries, insert}
use uenclient.Bencode.Parser.{
  State, Outcome, next, no_value, again, keyed, get_value, dictionary_loop, mark_start, mark_length,
  info, int_limit,
}
use uenclient.Bencode.Encoding.{encode_string}
use uenclient.Bencode.Encoding.Scan.{Reads, encode_string-Reads}
use uenclient.Bencode.Encoding.Shapes.{encode_string-head}
use uenclient.Bencode.Encoding.Loops.{again-more, turn-more}

-- The two marks leave all but their own field alone.
mark_start_fields :
    (k : Bytes) (s : State)
    → ((mark_start k s).rest ≡ s.rest)
      × ((mark_start k s).index ≡ s.index)
      × ((mark_start k s).err_string ≡ s.err_string)
      × ((mark_start k s).info_length ≡ s.info_length)
mark_start_fields k s = (ground arith, ground arith, ground arith, ground arith)

mark_length_fields :
    (k : Bytes) (s : State)
    → ((mark_length k s).rest ≡ s.rest)
      × ((mark_length k s).index ≡ s.index)
      × ((mark_length k s).err_string ≡ s.err_string)
      × ((mark_length k s).info_start ≡ s.info_start)
mark_length_fields k s = (ground arith, ground arith, ground arith, ground arith)

module _ (k : Bytes) (s : State) where
  mark_start_other : same_bytes k info ≡ false → mark_start k s ≡ s
  mark_start_other e = rw e

  mark_length_other : same_bytes k info ≡ false → mark_length k s ≡ s
  mark_length_other e = rw e

  mark_start_here : same_bytes k info ≡ true → (mark_start k s).info_start ≡ s.index
  mark_start_here e = rw e

  mark_length_here :
      same_bytes k info ≡ true → (mark_length k s).info_length ≡ s.index - s.info_start
  mark_length_here e = rw e

-- The two continuations of a turn.
abbrev pub proceed : ℕ → Entries → Bytes → Value → State → Outcome Entries
proceed f acc k v u =
    again (mark_length k u) (insert k v acc) (dictionary_loop f (mark_length k u) (insert k v acc))

abbrev pub continue : ℕ → Entries → Bytes → State → Outcome Entries
continue f acc k t = next (no_value (get_value f (mark_start k t))) (proceed f acc k)

-- A turn of `getDictionary`'s loop at the key `k`, with `whole` its value's encoding and what
-- follows, and `x` what follows: the loop goes on with the entry inserted.
pub record KeyStep (Q : Type 0) (f : ℕ) (s : State) (acc : Entries) (k : Bytes) (v : Value)
    (whole x : Bytes) : Type 0 where
  pub after : State
  pub stepped : dictionary_loop (suc f) s acc ≡ dictionary_loop f after (insert k v acc)
  pub rest_is : after.rest ≡ x
  pub position : after.index + length x ≡ s.index + length s.rest
  pub err_is : after.err_string ≡ s.err_string
  pub info_start_is : same_bytes k info ≡ false → Q → after.info_start ≡ s.info_start
  pub info_length_is : same_bytes k info ≡ false → Q → after.info_length ≡ s.info_length
  pub section_start :
      same_bytes k info ≡ true → Q → after.info_start + length whole ≡ s.index + length s.rest
  pub section_end :
      same_bytes k info ≡ true
      → Q
      → after.info_start + after.info_length + length x ≡ s.index + length s.rest

module _ (Q : Type 0) (f : ℕ) (s : State) (acc : Entries) (k : Bytes) (v : Value)
    (whole x : Bytes) where
  pub dictionary_loop-key :
      {d : ℕ} {ds : Bytes}
      → s.rest ≡ encode_string k whole
      → s.index + length s.rest < int_limit
      → x ≡ d ∷ ds
      → length x ≤ length whole
      → ((t : State)
          → t.rest ≡ whole
          → t.index + length t.rest ≡ s.index + length s.rest
          → Reads Q t x v (get_value f t))
      → KeyStep Q f s acc k v whole x
  unfolding get_value
  dictionary_loop-key at limit e shorter read =
      let (c, cs, small, head) = encode_string-head k whole in
      let key = encode_string-Reads s whole Q k at limit in
      let t : State = mark_start k key.after in
      let start = mark_start_fields k key.after in
      let h =
        read t (start.0 ∙ key.rest_is)
          (omega (arith, start.1, key.position, ap length key.rest_is, ap length start.0)) in
      let stop = mark_length_fields k h.after in
      let whole_read : t.index + length whole ≡ s.index + length s.rest =
        omega (arith, start.1, key.position) in
      let left : t.index + length t.rest ≡ s.index + length s.rest =
        omega (arith, whole_read, ap length start.0, ap length key.rest_is) in
      let value_read : h.after.index + length x ≡ s.index + length s.rest =
        omega (arith, h.position, left) in
      record {
        after = mark_length k h.after;
        stepped =
            turn-more Q s acc _ (at ∙ head) (ground arith)
            ∙ ap (λ o. keyed o acc (continue f acc)) key.returned
            ∙ ap (λ o. next (no_value o) (proceed f acc k)) h.returned
            ∙ again-more Q (mark_length k h.after) (insert k v acc) _ (stop.0 ∙ h.rest_is ∙ e);
        rest_is = stop.0 ∙ h.rest_is;
        position = omega (arith, stop.1, value_read);
        err_is = stop.2 ∙ h.err_is ∙ start.2 ∙ key.err_is;
        info_start_is = λ other q.
            stop.3
            ∙ h.info_start_is q
            ∙ ap (λ (u : State). u.info_start) (mark_start_other k key.after other)
            ∙ key.info_start_is q;
        info_length_is = λ other q.
            ap (λ (u : State). u.info_length) (mark_length_other k h.after other)
            ∙ h.info_length_is q
            ∙ start.3
            ∙ key.info_length_is q;
        section_start = λ here q. omega (
          arith,
          stop.3,
          h.info_start_is q,
          mark_start_here k key.after here,
          whole_read,
          start.1,
        );
        section_end = λ here q. omega (
          arith,
          stop.3,
          h.info_start_is q,
          mark_start_here k key.after here,
          whole_read,
          start.1,
          mark_length_here k h.after here,
          value_read,
          shorter,
        );
      }
