-- ===== src/Bencode/Encoding/Truncated.antt =====
-- What the parser of src/bencodeparser.cpp does at contents that end early.
use uenclient.Common.{ℕ, suc, ◌+◌, ◌*◌, ◌<◌, ◌≡◌, refl, ap, ◌∙◌, [], ◌∷◌, Bytes, arith, length}
use uenclient.Bencode.Value.{end}
use uenclient.Bencode.Parser.{
  State, fault, keyed, move, initial, mark_start, get_integer, integer_at, get_value,
  dictionary_loop, parse, int_limit,
}
use uenclient.Bencode.Encoding.{encode_string}
use uenclient.Bencode.Encoding.Scan.{encode_string-Reads}
use uenclient.Bencode.Encoding.Shapes.{encode_string-head}
use uenclient.Bencode.Encoding.Keys.{continue}
use uenclient.Bencode.Encoding.Loops.{turn-more}
use uenclient.Bencode.Encoding.InfoSection.{parse-loop}

get_value-end : (f : ℕ) (s : State) → s.rest ≡ [] → get_value (suc f) s ≡ fault
unfolding get_value get_integer integer_at
get_value-end f s e = rw (ap (integer_at s) e)

dictionary_loop-end_of_key :
    (f : ℕ) (s : State) (k : Bytes)
    → s.rest ≡ encode_string k []
    → s.index + length s.rest < int_limit
    → dictionary_loop (suc (suc f)) s end ≡ fault
unfolding get_value
dictionary_loop-end_of_key f s k at limit =
    let (d, cs, small, head) = encode_string-head k [] in
    let key = encode_string-Reads s [] (Unit {0}) k at limit in
    let left : (mark_start k key.after).rest ≡ [] = ground (arith, key.rest_is) in
    turn-more (Unit {0}) s end _ (at ∙ head) (ground arith)
    ∙ ap (λ o. keyed o end (continue (suc f) end)) key.returned
    ∙ rw (get_value-end f (mark_start k key.after) left)

-- A dictionary that breaks off behind a key makes the parser read past the end of the content,
-- whatever the key is, where it should refuse.
pub parse-end_of_key :
    (k : Bytes)
    → suc (length (encode_string k [])) < int_limit
    → parse (b'd' ∷ encode_string k []) ≡ fault
parse-end_of_key k limit =
    let body : Bytes = encode_string k [] in
    parse-loop body
    ∙ ap (λ (f : ℕ). dictionary_loop f (move (initial (b'd' ∷ body)) 1 body) end)
        (let fuel : 3 * length body + 5 ≡ suc (suc (3 * length body + 3)) = omega arith in fuel)
    ∙ dictionary_loop-end_of_key (3 * length body + 3) (move (initial (b'd' ∷ body)) 1 body) k refl
        (omega arith)
