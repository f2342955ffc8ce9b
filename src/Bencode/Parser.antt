-- ===== src/Bencode/Parser.antt =====
-- `BencodeParser` of src/bencodeparser.cpp. The member `index` is kept together with `rest`, the
-- part of `content` from `index` on, so that `content.at(index)` is the head of `rest` and
-- `index < contentSize` says that `rest` is not empty.
mod Progress
pub mod Termination
mod Tests
use uenclient.Common.{
  ℕ, zero, suc, ◌+◌, ◌-◌, ◌*◌, ◌^◌, ◌≡◌, Bool, true, false, ◌&&◌, ◌||◌, not, Option, none, some,
  List, [], ◌∷◌, Bytes, codes, same_bytes, ℤ, pos, neg, length, take, drop, is_empty, ltb, leb,
  ◌==◌, if◌then◌else◌,
}
use uenclient.Bencode.Value.{
  Value, integer, byte_string, list, dictionary, Items, nil, Entries, end, append_item, insert,
}

-- The texts that `errString` is set to.
pub data Message : Type 0 where
  no_content : Message
  unexpected_character : ℕ → ℕ → Message
  error_at_index : ℕ → Message

-- The members that a parse changes.
pub record State : Type 0 where
  pub index : ℕ
  pub rest : Bytes
  pub info_start : ℕ
  pub info_length : ℕ
  pub err_string : Option Message

-- How a member function ends: it returns true with its out-parameter set, or false, or it does what
-- C++ leaves undefined: `content.at` past the end, or a signed number that overflows.
pub data Outcome {ℓ} (A : Type ℓ) : Type ℓ where
  done : A → State → Outcome A
  refused : State → Outcome A
  fault : Outcome A
  out_of_fuel : Outcome A

-- What follows a success.
abbrev pub next {ℓ κ} : {A : Type ℓ} {B : Type κ} → Outcome A → (A → State → Outcome B) → Outcome B
next (done a s) k = k a s
next (refused s) k = refused s
next fault k = fault
next out_of_fuel k = out_of_fuel

-- `if (first) … else if (second) …`: the second runs from the state in which the first gave up.
abbrev pub otherwise {ℓ} : {A : Type ℓ} → Outcome A → (State → Outcome A) → Outcome A
otherwise (done a s) k = done a s
otherwise (refused s) k = k s
otherwise fault k = fault
otherwise out_of_fuel k = out_of_fuel

abbrev pub int_limit : ℕ
int_limit = 2 ^ 31

abbrev pub int64_limit : ℕ
int64_limit = 2 ^ 63

abbrev pub move : State → ℕ → Bytes → State
move s i r = record s { index = i; rest = r }

abbrev pub fail : State → Message → State
fail s m = record s { err_string = some m }

abbrev pub is_digit : ℕ → Bool
is_digit c = not (ltb c b'0' || ltb b'9' c)

-- The digit that `c` adds to a number read so far; -1 counts as 0.
abbrev pub shift : Option ℕ → ℕ → ℕ
shift none c = c - b'0'
shift (some n) c = n * 10 + (c - b'0')

-- The loop of `getByteString`, `none` for the size -1.
unfoldable pub scan_size : State → ℕ → Option ℕ → Bytes → Outcome ℕ
scan_size s i none [] = fault
scan_size s i (some n) [] = done n (move s i [])
scan_size s i size (c ∷ cs) =
    let longer = scan_size s (i + 1) (some (shift size c)) cs in
    if is_digit c then if ltb (shift size c) int_limit then longer else fault else elim size [
      | none ↦ refused (move s i (c ∷ cs))
      | some n ↦
          if c == b':'
          then done n (move s (i + 1) cs)
          else refused (fail (move s i (c ∷ cs)) (unexpected_character i c))
    ]

-- `*byteString = content.mid(index, size); index += size`.
unfoldable pub cut : ℕ → State → Outcome Bytes
cut n s =
    if ltb (s.index + n) int_limit
    then done (take n s.rest) (move s (s.index + n) (drop n s.rest))
    else fault

unfoldable pub get_byte_string : State → Outcome Bytes
unfolding scan_size cut
get_byte_string s = next (scan_size s s.index none s.rest) cut

-- `negative ? -num : num`, with num still -1 after a lone sign.
abbrev pub signed : Bool → Option ℕ → ℤ
signed true none = pos 1
signed true (some n) = neg n
signed false none = neg 1
signed false (some n) = pos n

-- The loop of `getInteger`, `none` for the number -1. It is at its first turn if it has neither a
-- sign nor a number; there alone it reads without a test of the index.
unfoldable pub scan_integer : State → ℕ → Bool → Option ℕ → Bytes → Outcome ℤ
scan_integer s i false none [] = fault
scan_integer s i true none [] = done (signed true none) (move s i [])
scan_integer s i negative (some n) [] = done (signed negative (some n)) (move s i [])
scan_integer s i negative num (c ∷ cs) =
    let longer = scan_integer s (i + 1) negative (some (shift num c)) cs in
    let after_sign = scan_integer s (i + 1) true none cs in
    if is_digit c then if ltb (shift num c) int64_limit then longer else fault else elim num [
      | none ↦ if not (c == b'-') || negative then refused (move s i (c ∷ cs)) else after_sign
      | some n ↦
          if c == b'e'
          then done (signed negative (some n)) (move s (i + 1) cs)
          else refused (fail (move s i (c ∷ cs)) (unexpected_character i c))
    ]

unfoldable pub integer_at : State → Bytes → Outcome ℤ
unfolding scan_integer
integer_at s [] = fault
integer_at s (c ∷ cs) = if c == b'i' then scan_integer s (s.index + 1) false none cs else refused s

unfoldable pub get_integer : State → Outcome ℤ
unfolding integer_at
get_integer s = integer_at s s.rest

abbrev pub info : Bytes
info = codes "info"

-- `if (key == "info") infoStart = index`.
abbrev pub mark_start : Bytes → State → State
mark_start k s = if same_bytes k info then record s { info_start = s.index } else s

-- `if (key == "info") infoLength = index - infoStart`; the index has not gone back in between.
abbrev pub mark_length : Bytes → State → State
mark_length k s = if same_bytes k info then record s { info_length = s.index - s.info_start } else s

-- `errString = "error at index …"; return false`.
abbrev pub no_value {ℓ} : {A : Type ℓ} → Outcome A → Outcome A
no_value (refused s) = refused (fail s (error_at_index s.index))
no_value (done a s) = done a s
no_value fault = fault
no_value out_of_fuel = out_of_fuel

-- A loop turn looks at the byte at `index`: past the end it faults, at 'e' the loop ends.
abbrev pub turn {ℓ} : {A : Type ℓ} → State → A → Outcome A → Bytes → Outcome A
turn s acc more [] = fault
turn s acc more (c ∷ cs) = if c == b'e' then done acc (move s (s.index + 1) cs) else more

-- A container starts with its letter.
abbrev pub opening {ℓ} : {A : Type ℓ} → ℕ → State → (State → Outcome A) → Bytes → Outcome A
opening letter s body [] = fault
opening letter s body (c ∷ cs) = if c == letter then body (move s (s.index + 1) cs) else refused s

-- `while (index < contentSize)`.
abbrev pub again {ℓ} : {A : Type ℓ} → State → A → Outcome A → Outcome A
again s acc more = elim s.rest [ [] ↦ done acc s | c ∷ cs ↦ more ]

-- `if (!getByteString(&key)) break;`: a key that is no byte string ends the loop, with success.
abbrev pub keyed {ℓ} : {A : Type ℓ} → Outcome Bytes → A → (Bytes → State → Outcome A) → Outcome A
keyed (done k t) acc more = more k t
keyed (refused t) acc more = done acc t
keyed fault acc more = fault
keyed out_of_fuel acc more = out_of_fuel

unfoldable mutual
  -- The chain of `getInteger`, `getByteString`, `getList` and `getDictionary` that the loops share.
  pub get_value : ℕ → State → Outcome Value
  get_value zero s = out_of_fuel
  get_value (suc f) s = otherwise (next (get_integer s) (λ z t. done (integer z) t)) λ s1.
      otherwise (next (get_byte_string s1) (λ b t. done (byte_string b) t)) λ s2.
        otherwise (next (get_list f s2) (λ xs t. done (list xs) t))
          λ s3. next (get_dictionary f s3) (λ m t. done (dictionary m) t)

  pub get_list : ℕ → State → Outcome Items
  get_list zero s = out_of_fuel
  get_list (suc f) s = opening b'l' s (λ t. list_loop f t nil) s.rest

  pub list_loop : ℕ → State → Items → Outcome Items
  list_loop zero s acc = out_of_fuel
  list_loop (suc f) s acc =
      let more =
        next (no_value (get_value f s))
          (λ v t. let go = list_loop f t (append_item acc v) in again t (append_item acc v) go) in
      turn s acc more s.rest

  pub get_dictionary : ℕ → State → Outcome Entries
  get_dictionary zero s = out_of_fuel
  get_dictionary (suc f) s = opening b'd' s (λ t. dictionary_loop f t end) s.rest

  pub dictionary_loop : ℕ → State → Entries → Outcome Entries
  dictionary_loop zero s acc = out_of_fuel
  dictionary_loop (suc f) s acc =
      let more = keyed (get_byte_string s) acc (λ k t.
        next (no_value (get_value f (mark_start k t))) (λ v u.
          let w = mark_length k u in
          let go = dictionary_loop f w (insert k v acc) in again w (insert k v acc) go)) in
      turn s acc more s.rest

-- The members when `parse` calls `getDictionary`.
abbrev pub initial : Bytes → State
initial content = record {
  index = 0;
  rest = content;
  info_start = 0;
  info_length = 0;
  err_string = none;
}

-- Fuel that suffices for every content.
abbrev pub enough : Bytes → ℕ
enough content = 3 * length content + 3

-- `BencodeParser::parse` of a new parser.
unfoldable pub parse : Bytes → Outcome Entries
parse content =
    if is_empty content
    then refused (fail (initial content) no_content)
    else get_dictionary (enough content) (initial content)

-- `content.mid(infoStart, infoLength)`.
unfoldable pub info_section : Bytes → State → Bytes
info_section content s = take s.info_length (drop s.info_start content)
