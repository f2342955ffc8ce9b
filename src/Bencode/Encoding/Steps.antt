-- ===== src/Bencode/Encoding/Steps.antt =====
-- One step of the parser over an encoding: a value behind its first byte, an item, a key with its
-- value. The recursive reads are hypotheses here.
use uenclient.Common.{ℕ, suc, ◌+◌, ◌≡◌, ap, ◌∷◌, Bytes, ℤ, arith, length}
use uenclient.Bencode.Value.{integer, byte_string, list, dictionary, Items, nil, Entries, end}
use uenclient.Bencode.Parser.{
  State, Outcome, done, refused, next, otherwise, move, opening, get_byte_string, get_integer,
  get_list, get_dictionary, get_value, list_loop, dictionary_loop,
}
use uenclient.Bencode.Encoding.Scan.{Reads}

module _ {ℓ κ} {A : Type ℓ} {B : Type κ} (Q : Type 0) (s : State) (r : Bytes) (a : A)
    (o : Outcome A) where
  pub Reads-next : (f : A → B) → Reads Q s r a o → Reads Q s r (f a) (next o (λ x t. done (f x) t))
  Reads-next f h = record {
    after = h.after;
    returned = rw h.returned;
    rest_is = h.rest_is;
    position = h.position;
    err_is = h.err_is;
    info_start_is = h.info_start_is;
    info_length_is = h.info_length_is;
  }

module _ {ℓ} {A : Type ℓ} (Q : Type 0) (s : State) (r : Bytes) (a : A) where
  pub Reads-otherwise :
      (o : Outcome A) (k : State → Outcome A) → Reads Q s r a o → Reads Q s r a (otherwise o k)
  Reads-otherwise o k h = record {
    after = h.after;
    returned = rw h.returned;
    rest_is = h.rest_is;
    position = h.position;
    err_is = h.err_is;
    info_start_is = h.info_start_is;
    info_length_is = h.info_length_is;
  }

  -- A read from where an opening letter has been passed.
  pub Reads-from :
      (c : ℕ) (cs : Bytes) (o : Outcome A)
      → s.rest ≡ c ∷ cs
      → Reads Q (move s (s.index + 1) cs) r a o
      → Reads Q s r a o
  Reads-from c cs o at h = record {
    after = h.after;
    returned = h.returned;
    rest_is = h.rest_is;
    position = omega (arith, h.position, ap length at);
    err_is = h.err_is;
    info_start_is = h.info_start_is;
    info_length_is = h.info_length_is;
  }

module _ (Q : Type 0) (f : ℕ) (s : State) (r : Bytes) where
  pub integer-step :
      (z : ℤ) → Reads Q s r z (get_integer s) → Reads Q s r (integer z) (get_value (suc f) s)
  unfolding get_value
  integer-step z h = Reads-otherwise Q s r _ _ _ (Reads-next Q s r z _ integer h)

  pub byte_string-step :
      (b : Bytes)
      → get_integer s ≡ refused s
      → Reads Q s r b (get_byte_string s)
      → Reads Q s r (byte_string b) (get_value (suc f) s)
  unfolding get_value
  byte_string-step b i h = rw i (Reads-otherwise Q s r _ _ _ (Reads-next Q s r b _ byte_string h))

  pub list-step :
      (xs : Items)
      → get_integer s ≡ refused s
      → get_byte_string s ≡ refused s
      → Reads Q s r xs (get_list f s)
      → Reads Q s r (list xs) (get_value (suc f) s)
  unfolding get_value
  list-step xs i b h = rw (i, b) (Reads-otherwise Q s r _ _ _ (Reads-next Q s r xs _ list h))

  pub dictionary-step :
      (m : Entries)
      → get_integer s ≡ refused s
      → get_byte_string s ≡ refused s
      → get_list f s ≡ refused s
      → Reads Q s r m (get_dictionary f s)
      → Reads Q s r (dictionary m) (get_value (suc f) s)
  unfolding get_value
  dictionary-step m i b l h = rw (i, b, l) (Reads-next Q s r m _ dictionary h)

  -- A list or a dictionary, from the loop behind its letter.
  pub get_list-step :
      (xs : Items) (cs : Bytes)
      → s.rest ≡ b'l' ∷ cs
      → Reads Q (move s (s.index + 1) cs) r xs (list_loop f (move s (s.index + 1) cs) nil)
      → Reads Q s r xs (get_list (suc f) s)
  unfolding get_value
  get_list-step xs cs at h =
      rw (ap (opening b'l' s (λ t. list_loop f t nil)) at) (Reads-from Q s r xs b'l' cs _ at h)

  pub get_dictionary-step :
      (m : Entries) (cs : Bytes)
      → s.rest ≡ b'd' ∷ cs
      → Reads Q (move s (s.index + 1) cs) r m (dictionary_loop f (move s (s.index + 1) cs) end)
      → Reads Q s r m (get_dictionary (suc f) s)
  unfolding get_value
  get_dictionary-step m cs at h =
      rw (ap (opening b'd' s (λ t. dictionary_loop f t end)) at) (Reads-from Q s r m b'd' cs _ at h)
