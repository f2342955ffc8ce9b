-- ===== src/Bencode/Encoding/InfoSection.antt =====
-- The bytes whose hash identifies a torrent: what `infoSection` cuts out of the content.
use uenclient.Common.{
  ℕ, zero, suc, ◌+◌, ◌*◌, ◌/◌, ◌%◌, ◌≤◌, ◌<◌, ◌≡◌, refl, ap, sym, ◌∙◌, true, [], ◌∷◌, ◌++◌, Bytes,
  pos, negsuc, arith, length, length-append, take, drop, take-append_length, drop-append_length,
  ltb, Bool-cases, inl, inr, same_bytes, append_assoc,
}
use uenclient.Bencode.Value.{
  Value, integer, byte_string, list, dictionary, Items, nil, cons, Entries, end, entry, insert,
}
use uenclient.Bencode.Value.Building.{join, insert_all, insert_all-end}
use uenclient.Bencode.Parser.{
  State, done, move, get_dictionary, dictionary_loop, info, int_limit, parse, initial, info_section,
}
use uenclient.Bencode.Encoding.{
  digits_before, decimal, signed_decimal, encode, encode_items, encode_entries, encode_string,
  IsRepresentable, IsMap, HasNoInfo, IsInfoFree,
}
use uenclient.Bencode.Encoding.Shapes.{
  length-lt-encode, length-lt-encode_string, encode_entries-head,
}
use uenclient.Bencode.Encoding.Keys.{dictionary_loop-key}
use uenclient.Bencode.Encoding.RoundTrip.{
  get_value-encode, dictionary_loop-encode, IsMap-HasDistinctKeys,
}

-- What follows an encoding only stands behind it.
digits_before-append :
    (f n : ℕ) (r x : Bytes) → digits_before f n (r ++ x) ≡ digits_before f n r ++ x
unfolding digits_before
digits_before-append zero n r x = refl
digits_before-append (suc f) n r x = elim (Bool-cases (ltb n 10)) [
  | inl e ↦ rw e
  | inr e ↦ rw e (digits_before-append f (n / 10) ((b'0' + n % 10) ∷ r) x)
]

pub encode_string-append : (b r x : Bytes) → encode_string b (r ++ x) ≡ encode_string b r ++ x
unfolding encode_string decimal
encode_string-append b r x =
    ap (λ (y : Bytes). digits_before (suc (length b)) (length b) (b':' ∷ y))
      (sym (append_assoc b r x))
    ∙ digits_before-append (suc (length b)) (length b) (b':' ∷ (b ++ r)) x

mutual
  unfolding encode signed_decimal decimal

  encode-append_lem : (v : Value) (r x : Bytes) → encode v (r ++ x) ≡ encode v r ++ x
  encode-append_lem (integer (pos n)) r x =
      ap (◌∷◌ b'i') (digits_before-append (suc n) n (b'e' ∷ r) x)
  encode-append_lem (integer (negsuc n)) r x =
      ap (λ (y : Bytes). b'i' ∷ b'-' ∷ y) (digits_before-append (suc (suc n)) (suc n) (b'e' ∷ r) x)
  encode-append_lem (byte_string b) r x = encode_string-append b r x
  encode-append_lem (list xs) r x = ap (◌∷◌ b'l') (encode_items-append xs (b'e' ∷ r) x)
  encode-append_lem (dictionary m) r x = ap (◌∷◌ b'd') (encode_entries-append m (b'e' ∷ r) x)

  encode_items-append :
      (xs : Items) (r x : Bytes) → encode_items xs (r ++ x) ≡ encode_items xs r ++ x
  encode_items-append nil r x = refl
  encode_items-append (cons v xs) r x =
      ap (encode v) (encode_items-append xs r x) ∙ encode-append_lem v (encode_items xs r) x

  encode_entries-append :
      (m : Entries) (r x : Bytes) → encode_entries m (r ++ x) ≡ encode_entries m r ++ x
  encode_entries-append end r x = refl
  encode_entries-append (entry k v m) r x =
      ap (λ (y : Bytes). encode_string k (encode v y)) (encode_entries-append m r x)
      ∙ ap (encode_string k) (encode-append_lem v (encode_entries m r) x)
      ∙ encode_string-append k (encode v (encode_entries m r)) x

pub encode-append : (v : Value) (x : Bytes) → encode v x ≡ encode v [] ++ x
encode-append v x = encode-append_lem v [] x

-- The entries in front of an entry are a prefix of the encoding.
encode_entries-join :
    (pre n : Entries) (r : Bytes)
    → (p : Bytes) × (encode_entries (join pre n) r ≡ p ++ encode_entries n r)
unfolding encode
encode_entries-join end n r = ([], refl)
encode_entries-join (entry k v m) n r =
    let (p, e) = encode_entries-join m n r in
    (
      encode_string k (encode v p),
      ap (λ (y : Bytes). encode_string k (encode v y)) e
          ∙ ap (encode_string k) (encode-append_lem v p (encode_entries n r))
          ∙ encode_string-append k (encode v p) (encode_entries n r),
    )

info_is_info : same_bytes info info ≡ true
unfolding same_bytes
info_is_info = refl

-- The loop has marked the value of "info": from the start of its encoding to the end.
record Marks (s : State) (whole x : Bytes) (t : State) : Type 0 where
  start : t.info_start + length whole ≡ s.index + length s.rest
  stop : t.info_start + t.info_length + length x ≡ s.index + length s.rest

module _ (v : Value) (post : Entries) (plain : HasNoInfo v) (rest_plain : IsInfoFree post) where
  dictionary_loop-Marks :
      (pre : Entries) (f : ℕ) (s : State) (acc : Entries)
      → IsInfoFree pre
      → IsMap (join pre (entry info v post))
      → s.rest ≡ encode_entries (join pre (entry info v post)) (b'e' ∷ [])
      → s.index + length s.rest < int_limit
      → 3 * length s.rest + 4 ≤ f
      → (t : State) × (dictionary_loop f s acc
          ≡ done (insert_all acc (join pre (entry info v post))) t)
        × Marks s (encode v (encode_entries post (b'e' ∷ []))) (encode_entries post (b'e' ∷ [])) t
  unfolding encode
  dictionary_loop-Marks _ zero s acc free rep at limit fuel = absurd (omega arith)
  dictionary_loop-Marks end (suc f) s acc free rep at limit fuel =
      let x : Bytes = encode_entries post (b'e' ∷ []) in
      let (d, ds, more) = encode_entries-head post b'e' [] in
      let short : length s.rest ≡ length (encode_string info (encode v x)) = ap length at in
      let h =
        dictionary_loop-key (HasNoInfo v) f s acc info v (encode v x) x at limit more
          (omega (arith, length-lt-encode v x))
          (λ t e pos.
            get_value-encode v f t x rep.1 e (omega (arith, pos))
              (omega (arith, short, ap length e, length-lt-encode_string info (encode v x)))) in
      let later =
        dictionary_loop-encode post f h.after (insert info v acc) [] rep.2 h.rest_is
          (omega (arith, h.position, ap length h.rest_is))
          (omega (
            arith,
            ap length h.rest_is,
            short,
            length-lt-encode v x,
            length-lt-encode_string info (encode v x),
          )) in
      (
        later.after,
        h.stepped ∙ later.returned,
        record {
          start = omega (arith, later.info_start_is rest_plain, h.section_start info_is_info plain);
          stop = omega (
            arith,
            later.info_start_is rest_plain,
            later.info_length_is rest_plain,
            h.section_end info_is_info plain,
          );
        },
      )
  dictionary_loop-Marks (entry k w pre) (suc f) s acc free rep at limit fuel =
      let m : Entries = join pre (entry info v post) in
      let x : Bytes = encode_entries m (b'e' ∷ []) in
      let (d, ds, more) = encode_entries-head m b'e' [] in
      let short : length s.rest ≡ length (encode_string k (encode w x)) = ap length at in
      let h =
        dictionary_loop-key (HasNoInfo w) f s acc k w (encode w x) x at limit more
          (omega (arith, length-lt-encode w x))
          (λ t e pos.
            get_value-encode w f t x rep.1 e (omega (arith, pos))
              (omega (arith, short, ap length e, length-lt-encode_string k (encode w x)))) in
      let (t, e, marks) =
        dictionary_loop-Marks pre f h.after (insert k w acc) free.2 rep.2 h.rest_is
          (omega (arith, h.position, ap length h.rest_is))
          (omega (
            arith,
            ap length h.rest_is,
            short,
            length-lt-encode w x,
            length-lt-encode_string k (encode w x),
          )) in
      (
        t,
        h.stepped ∙ e,
        record {
          start = omega (arith, marks.start, h.position, ap length h.rest_is);
          stop = omega (arith, marks.stop, h.position, ap length h.rest_is);
        },
      )

-- `parse` at a dictionary's letter.
pub parse-loop :
    (body : Bytes)
    → parse (b'd' ∷ body)
      ≡ dictionary_loop (3 * length body + 5) (move (initial (b'd' ∷ body)) 1 body) end
unfolding parse get_dictionary
parse-loop body =
    ap (λ (f : ℕ). get_dictionary f (initial (b'd' ∷ body)))
      (let fuel : 3 * suc (length body) + 3 ≡ suc (3 * length body + 5) = omega arith in fuel)

slice :
    (p v x c : Bytes) (start len : ℕ)
    → c ≡ p ++ (v ++ x)
    → start + length (v ++ x) ≡ length c
    → start + len + length x ≡ length c
    → take len (drop start c) ≡ v
slice p v x c start len e at stop =
    let size : length c ≡ length p + (length v + length x) =
      ap length e ∙ omega (arith, length-append p (v ++ x), length-append v x) in
    let first : start ≡ length p = omega (arith, length-append v x) in
    let count : len ≡ length v = omega arith in
    ap (λ (n : ℕ). take n (drop start c)) count
    ∙ ap (λ (n : ℕ). take (length v) (drop n c)) first
    ∙ ap (λ (y : Bytes). take (length v) (drop (length p) y)) e
    ∙ ap (take (length v)) (drop-append_length p (v ++ x))
    ∙ take-append_length v x

-- The info section of an encoded torrent is the encoding of the value under "info", byte for byte,
-- provided that no other entry, at any depth, has the key "info".
pub info_section-encode :
    (pre post : Entries) (v : Value)
    → IsRepresentable (dictionary (join pre (entry info v post)))
    → IsInfoFree pre
    → IsInfoFree post
    → HasNoInfo v
    → length (encode (dictionary (join pre (entry info v post))) []) < int_limit
    → (t : State) × (parse (encode (dictionary (join pre (entry info v post))) [])
        ≡ done (join pre (entry info v post)) t)
      × (info_section (encode (dictionary (join pre (entry info v post))) []) t ≡ encode v [])
unfolding info_section encode
info_section-encode pre post v rep free free' plain limit =
    let m : Entries = join pre (entry info v post) in
    let body : Bytes = encode_entries m (b'e' ∷ []) in
    let x : Bytes = encode_entries post (b'e' ∷ []) in
    let s : State = initial (b'd' ∷ body) in
    let start : State = move s 1 body in
    let (t, e, marks) =
      dictionary_loop-Marks v post plain free' pre (3 * length body + 5) start end free rep refl
        (omega arith) (omega arith) in
    let (p, front) = encode_entries-join pre (entry info v post) (b'e' ∷ []) in
    let split : b'd' ∷ body ≡ (b'd' ∷ (p ++ encode_string info [])) ++ (encode v [] ++ x) =
      ap (◌∷◌ b'd') (
        front
        ∙ ap (λ (y : Bytes). p ++ y) (encode_string-append info [] (encode v x))
        ∙ sym (append_assoc p (encode_string info []) (encode v x))
        ∙ ap (λ (y : Bytes). (p ++ encode_string info []) ++ y) (encode-append v x)) in
    let whole : length (encode v x) ≡ length (encode v [] ++ x) = ap length (encode-append v x) in
    (
      t,
      parse-loop body
          ∙ e
          ∙ ap (λ (n : Entries). done n t) (insert_all-end m (IsMap-HasDistinctKeys m rep)),
      slice (b'd' ∷ (p ++ encode_string info [])) (encode v []) x (b'd' ∷ body) t.info_start
          t.info_length split (omega (arith, marks.start, whole)) (omega (arith, marks.stop)),
    )
