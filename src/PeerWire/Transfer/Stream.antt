-- ===== src/PeerWire/Transfer/Stream.antt =====
-- What `writeToSocket` of src/peerwireclient.cpp sends is a front part of the bytes that wait.
use uenclient.Common.{
  ℕ, zero, suc, ◌+◌, ◌-◌, ◌≤◌, ◌<◌, ◌≡◌, refl, ap, sym, ◌∙◌, not, ◌&&◌, ◌||◌, Option, some,
  Option-cases, List, [], ◌∷◌, ◌++◌, Bytes, pos, negsuc, length, length-append, length-take, take,
  drop, take-append-drop, append_assoc, is_empty, ltb, min, ◌==◌, if◌then◌else◌, arith, Bool-cases,
  inl, inr, ◌⊎◌, take-take,
}
use uenclient.PeerWire.Client.{BlockInfo, Client}
use uenclient.PeerWire.Transfer.{Written, refill, add_first, write_turns, write_to_socket}

abbrev pub blocks : List BlockInfo → Bytes
blocks [] = []
blocks (b ∷ bs) = b.block ++ blocks bs

-- All that is to be sent, in order.
abbrev pub stream : Client → Bytes
stream c = c.outgoing_buffer ++ blocks c.pending_blocks

stream-refill :
    (p : List BlockInfo) (c : Client) → c.pending_blocks ≡ p → stream (refill p c) ≡ stream c
stream-refill [] c e = refl
stream-refill (b ∷ bs) c e = elim (Bool-cases (is_empty c.outgoing_buffer)) [
  | inl h ↦ rw h (append_assoc c.outgoing_buffer b.block (blocks bs) ∙ rw e)
  | inr h ↦ rw h
]

-- What a call has sent: a front part of the stream, at most `bytes` of it, in the order of the
-- stream. The result counts it, or is -1 if nothing could be written.
pub record Sent (bytes : ℕ) (wire : Bytes) (c : Client) (w : Written) : Type 0 where
  pub in_order : w.wire ++ stream w.after ≡ wire ++ stream c
  pub at_most : length w.wire ≤ bytes
  pub counted : (w.result ≡ pos (length w.wire)) ⊎ ((w.result ≡ negsuc 0) × (length w.wire ≡ 0))

-- The state after `n` of the offered bytes have been taken.
abbrev taken : ℕ → Client → Client
taken n c = record c {
  upload_speed_data = add_first n c.upload_speed_data;
  outgoing_buffer = drop n c.outgoing_buffer;
}

module _ (bytes total n : ℕ) (wire : Bytes) (c : Client) where
  abbrev queued : Client
  queued = refill c.pending_blocks c

  abbrev offered : Bytes
  offered = take (min (bytes - total) (length queued.outgoing_buffer)) queued.outgoing_buffer

  stream-taken :
      n ≤ length offered → (wire ++ take n offered) ++ stream (taken n queued) ≡ wire ++ stream c
  stream-taken h =
      let out : Bytes = queued.outgoing_buffer in
      let front : take n offered ≡ take n out =
        take-take n (min (bytes - total) (length out)) out
          (omega (arith, length-take (min (bytes - total) (length out)) out)) in
      append_assoc wire (take n offered) (stream (taken n queued))
      ∙ ap (λ (x : Bytes). wire ++ (x ++ stream (taken n queued))) front
      ∙ ap (λ (x : Bytes). wire ++ x)
          (sym (append_assoc (take n out) (drop n out) (blocks queued.pending_blocks))
            ∙ ap (λ (x : Bytes). x ++ blocks queued.pending_blocks) (take-append-drop n out)
            ∙ stream-refill c.pending_blocks c refl)

  length-taken :
      length wire ≡ total
      → total ≤ bytes
      → n ≤ length offered
      → (length (wire ++ take n offered) ≡ total + n) × (total + n ≤ bytes)
  length-taken size fits h =
      let out : Bytes = queued.outgoing_buffer in
      (
        omega (arith, length-append wire (take n offered), length-take n offered),
        omega (arith, length-take (min (bytes - total) (length out)) out),
      )

module _ (socket_write : ℕ → Bytes → Option ℕ)
    (takes_offered : (i : ℕ) (o : Bytes) (n : ℕ) → socket_write i o ≡ some n → n ≤ length o) where
  write_turns-Sent :
      (f bytes total : ℕ) (wire : Bytes) (c : Client)
      → length wire ≡ total
      → total ≤ bytes
      → bytes - total < f
      → (w : Written) × (write_turns socket_write f bytes total wire c ≡ some w)
        × Sent bytes wire c w
  unfolding write_turns
  write_turns-Sent zero bytes total wire c size fits fuel = absurd (omega arith)
  write_turns-Sent (suc f) bytes total wire c size fits fuel =
      let o : Bytes = offered bytes total 0 wire c in
      let q : Client = queued bytes total 0 wire c in
      let same = stream-refill c.pending_blocks c refl in
      elim (Option-cases (socket_write f o)) [
        | inl e ↦ (
          record { after = q; result = if total == 0 then negsuc 0 else pos total; wire = wire },
          rw (e, write_turns),
          record {
            in_order = ap (λ (x : Bytes). wire ++ x) same;
            at_most = omega arith;
            counted = ground arith;
          },
        )
        | inr (n, e) ↦ elim (Bool-cases (n == 0)) [
          | inl none_taken ↦ (
            record { after = q; result = pos total; wire = wire },
            rw (e, write_turns) (rw none_taken),
            record {
              in_order = ap (λ (x : Bytes). wire ++ x) same;
              at_most = omega arith;
              counted = inl (ap pos (sym size));
            },
          )
          | inr some_taken ↦
              let fit : n ≤ length o = takes_offered f o n e in
              let w' : Bytes = wire ++ take n o in
              let c' : Client = taken n q in
              let (size', fits') = length-taken bytes total n wire c size fits fit in
              let flow = stream-taken bytes total n wire c fit in
              elim (Bool-cases (
                ltb (total + n) bytes
                && (not (is_empty c'.outgoing_buffer) || not (is_empty c'.pending_blocks)))) [
                  | inl more ↦
                      let (w, found, sent) =
                        write_turns-Sent f bytes (total + n) w' c' size' fits' (ground arith) in
                      (
                        w,
                        rw (e, write_turns) (rw (some_taken, more) found),
                        record {
                          in_order = sent.in_order ∙ flow;
                          at_most = sent.at_most;
                          counted = sent.counted;
                        },
                      )
                  | inr over ↦ (
                    record { after = c'; result = pos (total + n); wire = w' },
                    rw (e, write_turns) (rw (some_taken, over)),
                    record {
                      in_order = flow;
                      at_most = omega arith;
                      counted = inl (ap pos (sym size'));
                    },
                  )
                ]
        ]
      ]

  -- A call of `writeToSocket` ends, and what it sends is the front part of the bytes that wait: the
  -- outgoing buffer, then the pending blocks in order. It sends at most `bytes` bytes, returns their
  -- number or -1, and keeps the rest in order. The socket takes no more than it is offered.
  pub write_to_socket-Sent :
      (bytes : ℕ) (c : Client)
      → (w : Written) × (write_to_socket socket_write bytes c ≡ some w) × Sent bytes [] c w
  unfolding write_to_socket
  write_to_socket-Sent bytes c =
      write_turns-Sent (suc bytes) bytes 0 [] c refl (omega arith) (omega arith)
