-- ===== src/Bencode/Encoding/RoundTrip.antt =====
-- The parser reads every encoding back.
use uenclient.Common.{
  ℕ, zero, suc, ◌+◌, ◌*◌, ◌≤◌, ◌<◌, ◌≡◌, refl, ap, subst, ◌∙◌, none, [], ◌∷◌, Bytes, arith, length,
}
use uenclient.Bencode.Value.{
  Value, integer, byte_string, list, dictionary, Items, nil, cons, Entries, end, entry, insert,
  append_item,
}
use uenclient.Bencode.Value.Building.{
  append_items, append_items-nil, insert_all, insert_all-end, HasDistinctKeys,
}
use uenclient.Bencode.Parser.{
  State, Outcome, done, move, get_dictionary, get_value, list_loop, dictionary_loop, int_limit,
  parse, enough, initial,
}
use uenclient.Bencode.Encoding.{
  encode, encode_items, encode_entries, encode_string, IsRepresentable, AllRepresentable, IsMap,
  HasNoInfo, AllHaveNoInfo, IsInfoFree,
}
use uenclient.Bencode.Encoding.Scan.{Reads, encode_string-Reads, signed_decimal-Reads}
use uenclient.Bencode.Encoding.Shapes.{
  length-lt-encode, length-lt-encode_string, encode_string-head, encode-head, encode_items-head,
  encode_entries-head, get_integer-refused, get_byte_string-refused, get_list-refused,
}
use uenclient.Bencode.Encoding.Steps.{
  integer-step, byte_string-step, list-step, dictionary-step, get_list-step, get_dictionary-step,
}
use uenclient.Bencode.Encoding.Loops.{list_loop-end, list_loop-item, dictionary_loop-end}
use uenclient.Bencode.Encoding.Keys.{KeyStep, dictionary_loop-key}

pub IsMap-HasDistinctKeys : (m : Entries) → IsMap m → HasDistinctKeys m
IsMap-HasDistinctKeys end h = tt
IsMap-HasDistinctKeys (entry k v m) h = (h.0, IsMap-HasDistinctKeys m h.2)

module _ {ℓ} {A : Type ℓ} where
  -- A read that goes on from the state after another one.
  Reads-then :
      {P Q : Type 0} {s t : State} {r : Bytes} {a : A} (o p : Outcome A)
      → o ≡ p
      → Reads Q t r a p
      → t.index + length t.rest ≡ s.index + length s.rest
      → t.err_string ≡ s.err_string
      → (P → (t.info_start ≡ s.info_start) × (t.info_length ≡ s.info_length) × Q)
      → Reads P s r a o
  Reads-then o p e h at err quiet = record {
    after = h.after;
    returned = e ∙ h.returned;
    rest_is = h.rest_is;
    position = omega (arith, h.position, at);
    err_is = h.err_is ∙ err;
    info_start_is = λ q. h.info_start_is (quiet q).2 ∙ (quiet q).0;
    info_length_is = λ q. h.info_length_is (quiet q).2 ∙ (quiet q).1;
  }

module _ (f : ℕ) (s : State) (r : Bytes) where
  -- A list read from its first item on.
  list_loop-cons :
      (acc : Items) (v : Value) (xs : Items)
      → s.rest ≡ encode_items (cons v xs) (b'e' ∷ r)
      → (h : Reads (HasNoInfo v) s (encode_items xs (b'e' ∷ r)) v (get_value f s))
      → Reads
          (AllHaveNoInfo xs)
          h.after
          r
          (append_items (append_item acc v) xs)
          (list_loop f h.after (append_item acc v))
      → Reads
          (AllHaveNoInfo (cons v xs))
          s
          r
          (append_items acc (cons v xs))
          (list_loop (suc f) s acc)
  unfolding encode
  list_loop-cons acc v xs at h rest =
      let (c, cs, no_e, head) = encode-head v (encode_items xs (b'e' ∷ r)) in
      let (d, ds, more) = encode_items-head xs b'e' r in
      Reads-then _ _ (list_loop-item (HasNoInfo v) f s acc v h (at ∙ head) no_e more) rest
        (omega (arith, h.position, ap length h.rest_is)) h.err_is
        (λ q. (h.info_start_is q.0, h.info_length_is q.0, q.1))

  -- A dictionary read from its first key on.
  dictionary_loop-cons :
      (acc : Entries) (k : Bytes) (v : Value) (m : Entries)
      → (h : KeyStep
          (HasNoInfo v)
          f
          s
          acc
          k
          v
          (encode v (encode_entries m (b'e' ∷ r)))
          (encode_entries m (b'e' ∷ r)))
      → Reads
          (IsInfoFree m)
          h.after
          r
          (insert_all (insert k v acc) m)
          (dictionary_loop f h.after (insert k v acc))
      → Reads
          (IsInfoFree (entry k v m))
          s
          r
          (insert_all acc (entry k v m))
          (dictionary_loop (suc f) s acc)
  dictionary_loop-cons acc k v m h rest =
      Reads-then _ _ h.stepped rest (omega (arith, h.position, ap length h.rest_is)) h.err_is
        (λ q. (h.info_start_is q.0 q.1, h.info_length_is q.0 q.1, q.2))

mutual
  unfolding encode

  value-lem :
      (v : Value) (f : ℕ) (s : State) (r : Bytes)
      → IsRepresentable v
      → s.rest ≡ encode v r
      → s.index + length s.rest < int_limit
      → 3 * length s.rest + 3 ≤ f
      → Reads (HasNoInfo v) s r v (get_value f s)
  value-lem (integer z) (suc f) s r rep at limit fuel =
      integer-step _ f s r z (signed_decimal-Reads s r _ z rep at)
  value-lem (byte_string b) (suc f) s r rep at limit fuel =
      let (d, cs, small, head) = encode_string-head b r in
      byte_string-step _ f s r b (get_integer-refused s (b'0' + d) cs (at ∙ head) (ground arith))
        (encode_string-Reads s r _ b at limit)
  value-lem (list xs) (suc (suc f)) s r rep at limit fuel =
      list-step _ (suc f) s r xs (get_integer-refused s b'l' _ at refl)
        (get_byte_string-refused s b'l' _ at refl)
        (get_list-step _ f s r xs (encode_items xs (b'e' ∷ r)) at (
          let t : State = move s (s.index + 1) (encode_items xs (b'e' ∷ r)) in
          subst (λ ys. Reads (AllHaveNoInfo xs) t r ys (list_loop f t nil)) (append_items-nil xs)
            (items-lem xs f t nil r rep refl (omega (arith, ap length at))
              (omega (arith, ap length at)))))
  value-lem (dictionary m) (suc (suc f)) s r rep at limit fuel =
      dictionary-step _ (suc f) s r m (get_integer-refused s b'd' _ at refl)
        (get_byte_string-refused s b'd' _ at refl) (get_list-refused s b'd' _ at f refl)
        (get_dictionary-step _ f s r m (encode_entries m (b'e' ∷ r)) at (
          let t : State = move s (s.index + 1) (encode_entries m (b'e' ∷ r)) in
          subst (λ n. Reads (IsInfoFree m) t r n (dictionary_loop f t end))
            (insert_all-end m (IsMap-HasDistinctKeys m rep))
            (entries-lem m f t end r rep refl (omega (arith, ap length at))
              (omega (arith, ap length at)))))
  value-lem _ _ s r rep at limit fuel = absurd (omega (arith, ap length at))

  items-lem :
      (xs : Items) (f : ℕ) (s : State) (acc : Items) (r : Bytes)
      → AllRepresentable xs
      → s.rest ≡ encode_items xs (b'e' ∷ r)
      → s.index + length s.rest < int_limit
      → 3 * length s.rest + 4 ≤ f
      → Reads (AllHaveNoInfo xs) s r (append_items acc xs) (list_loop f s acc)
  items-lem _ zero s acc r rep at limit fuel = absurd (omega arith)
  items-lem nil (suc f) s acc r rep at limit fuel = list_loop-end _ f s acc r at
  items-lem (cons v xs) (suc f) s acc r rep at limit fuel =
      let x : Bytes = encode_items xs (b'e' ∷ r) in
      let h = value-lem v f s x rep.0 at limit (omega arith) in
      list_loop-cons f s r acc v xs at h (
        items-lem xs f h.after (append_item acc v) r rep.1 h.rest_is
          (omega (arith, h.position, ap length h.rest_is))
          (omega (arith, ap length h.rest_is, ap length at, length-lt-encode v x)))

  entries-lem :
      (m : Entries) (f : ℕ) (s : State) (acc : Entries) (r : Bytes)
      → IsMap m
      → s.rest ≡ encode_entries m (b'e' ∷ r)
      → s.index + length s.rest < int_limit
      → 3 * length s.rest + 4 ≤ f
      → Reads (IsInfoFree m) s r (insert_all acc m) (dictionary_loop f s acc)
  entries-lem _ zero s acc r rep at limit fuel = absurd (omega arith)
  entries-lem end (suc f) s acc r rep at limit fuel = dictionary_loop-end _ f s acc r at
  entries-lem (entry k v m) (suc f) s acc r rep at limit fuel =
      let x : Bytes = encode_entries m (b'e' ∷ r) in
      let (d, ds, more) = encode_entries-head m b'e' r in
      let short : length s.rest ≡ length (encode_string k (encode v x)) = ap length at in
      let h =
        dictionary_loop-key (HasNoInfo v) f s acc k v (encode v x) x at limit more
          (omega (arith, length-lt-encode v x))
          (λ t e pos.
            value-lem v f t x rep.1 e (omega (arith, pos))
              (omega (arith, short, ap length e, length-lt-encode_string k (encode v x)))) in
      dictionary_loop-cons f s r acc k v m h (
        entries-lem m f h.after (insert k v acc) r rep.2 h.rest_is
          (omega (arith, h.position, ap length h.rest_is))
          (omega (
            arith,
            ap length h.rest_is,
            short,
            length-lt-encode v x,
            length-lt-encode_string k (encode v x),
          )))

-- A value read back by `get_value`, in a content of which `s` is at its encoding.
pub get_value-encode :
    (v : Value) (f : ℕ) (s : State) (r : Bytes)
    → IsRepresentable v
    → s.rest ≡ encode v r
    → s.index + length s.rest < int_limit
    → 3 * length s.rest + 3 ≤ f
    → Reads (HasNoInfo v) s r v (get_value f s)
get_value-encode v f s r rep at limit fuel = value-lem v f s r rep at limit fuel

pub dictionary_loop-encode :
    (m : Entries) (f : ℕ) (s : State) (acc : Entries) (r : Bytes)
    → IsMap m
    → s.rest ≡ encode_entries m (b'e' ∷ r)
    → s.index + length s.rest < int_limit
    → 3 * length s.rest + 4 ≤ f
    → Reads (IsInfoFree m) s r (insert_all acc m) (dictionary_loop f s acc)
dictionary_loop-encode m f s acc r rep at limit fuel = entries-lem m f s acc r rep at limit fuel

get_dictionary-encode :
    (m : Entries) (f : ℕ) (s : State) (r : Bytes)
    → IsMap m
    → s.rest ≡ encode (dictionary m) r
    → s.index + length s.rest < int_limit
    → 3 * length s.rest + 2 ≤ f
    → Reads (IsInfoFree m) s r m (get_dictionary f s)
unfolding encode
get_dictionary-encode m zero s r rep at limit fuel = absurd (omega arith)
get_dictionary-encode m (suc f) s r rep at limit fuel =
    let t : State = move s (s.index + 1) (encode_entries m (b'e' ∷ r)) in
    get_dictionary-step _ f s r m (encode_entries m (b'e' ∷ r)) at (
      subst (λ n. Reads (IsInfoFree m) t r n (dictionary_loop f t end))
        (insert_all-end m (IsMap-HasDistinctKeys m rep))
        (entries-lem m f t end r rep refl (omega (arith, ap length at))
          (omega (arith, ap length at))))

pub parse-dictionary :
    (m : Entries)
    → parse (encode (dictionary m) [])
      ≡ get_dictionary (enough (encode (dictionary m) [])) (initial (encode (dictionary m) []))
unfolding parse encode
parse-dictionary m = refl

-- The parser reads every encoded dictionary back, to the last byte and with no error text: for a
-- dictionary that is representable, with an encoding that is no longer than an `int` can count.
pub parse-encode :
    (m : Entries)
    → IsRepresentable (dictionary m)
    → length (encode (dictionary m) []) < int_limit
    → (t : State) × (parse (encode (dictionary m) []) ≡ done m t)
      × (t.index ≡ length (encode (dictionary m) []))
      × (t.rest ≡ [])
      × (t.err_string ≡ none)
parse-encode m rep limit =
    let content : Bytes = encode (dictionary m) [] in
    let h =
      get_dictionary-encode m (enough content) (initial content) [] rep refl (omega arith)
        (omega arith) in
    (h.after, parse-dictionary m ∙ h.returned, omega (arith, h.position), h.rest_is, h.err_is)
