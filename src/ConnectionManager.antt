-- ===== src/ConnectionManager.antt =====
-- `ConnectionManager` of src/connectionmanager.cpp: the connections of all torrents, and the id that
-- the program gives to its peers.
mod Tests
use uenclient.Common.{
  ℕ, zero, suc, ◌+◌, ◌-◌, ◌/◌, ◌%◌, ◌^◌, ◌≤◌, ◌<◌, ◌≡◌, refl, sym, ap, ◌∙◌, subst, Bool, true,
  false, List, [], ◌∷◌, ◌++◌, Bytes, codes, ltb, if◌then◌else◌, is_empty, length, length-append,
  length-replicate, replicate, arith, Bool-cases, inl, inr,
}
use uenclient.Common.Digits.{hex_before, right_justified, hex_text-length}
use uenclient.Common.Sets

pub record Manager : Type 0 where
  pub connections : List ℕ
  pub id : Bytes

abbrev pub max_connections : ℕ
max_connections = 250

unfoldable pub can_add_connection : Manager → Bool
can_add_connection m = ltb (length m.connections) max_connections

unfoldable pub add_connection : ℕ → Manager → Manager
unfolding Sets.insert
add_connection n m = record m { connections = Sets.insert m.connections n }

unfoldable pub remove_connection : ℕ → Manager → Manager
unfolding Sets.remove
remove_connection n m = record m { connections = Sets.remove m.connections n }

-- `s.sprintf("-QT%04x-", (QT_VERSION % 0xffff00) >> 8)`.
unfoldable pub version_text : ℕ → Bytes
unfolding hex_before right_justified
version_text version =
    codes "-QT"
    ++ (right_justified 4 b'0' (hex_before 4 (version % 0xffff00 / 2 ^ 8) []) ++ codes "-")

-- What is made of the version and the text of the startup time.
unfoldable pub new_id : ℕ → Bytes → Bytes
unfolding version_text
new_id version time = let id = version_text version ++ time in id ++ replicate (20 - length id) b'-'

-- `clientId`, with the id that it returns.
unfoldable pub client_id : ℕ → Bytes → Manager → Manager × Bytes
client_id version time m =
    if is_empty m.id
    then (record m { id = new_id version time }, new_id version time)
    else (m, m.id)

new_id-length : (version : ℕ) (time : Bytes) → length time ≤ 12 → length (new_id version time) ≡ 20
unfolding new_id version_text
new_id-length version time h =
    let hex : Bytes = right_justified 4 b'0' (hex_before 4 (version % 0xffff00 / 2 ^ 8) []) in
    let id : Bytes = (codes "-QT" ++ (hex ++ codes "-")) ++ time in
    omega (
      arith,
      h,
      hex_text-length (version % 0xffff00 / 2 ^ 8) (omega arith) b'0',
      length-append hex (codes "-"),
      length-append (codes "-QT" ++ (hex ++ codes "-")) time,
      length-append id (replicate (20 - length id) b'-'),
      length-replicate {A = ℕ} (20 - length id) b'-',
    )

is_empty_of_length : (b : Bytes) → 0 < length b → is_empty b ≡ false
is_empty_of_length [] h = absurd (omega arith)
is_empty_of_length (c ∷ cs) h = refl

module _ (version : ℕ) (time : Bytes) (m : Manager) where
  -- The id has the twenty bytes that the handshake needs, if the startup time has at most twelve
  -- digits, and every later call returns the same id, whatever the time then.
  pub client_id-length :
      (later : Bytes)
      → length time ≤ 12
      → m.id ≡ []
      → (length (client_id version time m).1 ≡ 20)
        × (client_id version later (client_id version time m).0
            ≡ ((client_id version time m).0, (client_id version time m).1))
  unfolding client_id
  client_id-length later h e =
      let id : Bytes = new_id version time in
      let size : length id ≡ 20 = new_id-length version time h in
      let first : client_id version time m ≡ (record m { id = id }, id) =
        ap (λ (b : Bool). if b then (record m { id = id }, id) else (m, m.id)) (ap is_empty e) in
      let second : client_id version later (record m { id = id }) ≡ (record m { id = id }, id) =
        ap
          (λ (b : Bool).
            if b
            then (record m { id = new_id version later }, new_id version later)
            else (record m { id = id }, id))
          (is_empty_of_length id (omega arith)) in
      (
        ap (λ (p : Manager × Bytes). length p.1) first ∙ size,
        subst (λ (p : Manager × Bytes). client_id version later p.0 ≡ (p.0, p.1)) (sym first)
            second,
      )
