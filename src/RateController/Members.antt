-- ===== src/RateController/Members.antt =====
-- The members of `RateController`, src/ratecontroller.cpp: its sockets with their read buffers, the
-- limits, and whether a transfer is scheduled.
use uenclient.Common.{
  ℕ, ◌*◌, ◌≡◌, refl, Bool, true, false, List, [], ◌∷◌, All, ◌==◌, if◌then◌else◌, Bool-cases, inl,
  inr,
}

-- A socket is its number and the size of its read buffer. The products of the limit are those of an
-- int that does not overflow.
pub record Controller : Type 0 where
  pub sockets : List (ℕ × ℕ)
  pub down_limit : ℕ
  pub transfer_scheduled : Bool

abbrev pub is_socket : ℕ → List (ℕ × ℕ) → Bool
is_socket n [] = false
is_socket n ((m, b) ∷ ss) = if m == n then true else is_socket n ss

abbrev pub set_buffer : ℕ → ℕ → List (ℕ × ℕ) → List (ℕ × ℕ)
set_buffer n size [] = []
set_buffer n size ((m, b) ∷ ss) =
    let rest = set_buffer n size ss in (m, if m == n then size else b) ∷ rest

abbrev pub set_buffers : ℕ → List (ℕ × ℕ) → List (ℕ × ℕ)
set_buffers size [] = []
set_buffers size ((m, b) ∷ ss) = (m, size) ∷ set_buffers size ss

abbrev pub without_socket : ℕ → List (ℕ × ℕ) → List (ℕ × ℕ)
without_socket n [] = []
without_socket n ((m, b) ∷ ss) =
    let rest = without_socket n ss in if m == n then rest else (m, b) ∷ rest

-- `scheduleTransfer`.
unfoldable pub schedule_transfer : Controller → Controller
schedule_transfer c = record c { transfer_scheduled = true }

-- `addSocket`; the sockets are a set.
unfoldable pub add_socket : ℕ → Controller → Controller
unfolding schedule_transfer
add_socket n c =
    let size = c.down_limit * 4 in
    schedule_transfer (record c {
      sockets =
          if is_socket n c.sockets then set_buffer n size c.sockets else (n, size) ∷ c.sockets;
    })

-- `removeSocket`.
unfoldable pub remove_socket : ℕ → Controller → Controller
remove_socket n c = record c { sockets = without_socket n c.sockets }

-- `setDownloadLimit`.
unfoldable pub set_download_limit : ℕ → Controller → Controller
set_download_limit limit c = record c {
  down_limit = limit;
  sockets = set_buffers (limit * 4) c.sockets;
}

-- Every socket has the read buffer that the limit asks for.
abbrev HaveBuffers : ℕ → List (ℕ × ℕ) → Type 0
HaveBuffers size ss = All (λ (s : ℕ × ℕ). s.1 ≡ size) ss

set_buffer-HaveBuffers :
    (n size : ℕ) (ss : List (ℕ × ℕ)) → HaveBuffers size ss → HaveBuffers size (set_buffer n size ss)
set_buffer-HaveBuffers n size [] h = tt
set_buffer-HaveBuffers n size ((m, b) ∷ ss) h = elim (Bool-cases (m == n)) [
  | inl e ↦ (rw e, set_buffer-HaveBuffers n size ss h.1)
  | inr e ↦ (rw e h.0, set_buffer-HaveBuffers n size ss h.1)
]

without_socket-HaveBuffers :
    (n size : ℕ) (ss : List (ℕ × ℕ)) → HaveBuffers size ss → HaveBuffers size (without_socket n ss)
without_socket-HaveBuffers n size [] h = tt
without_socket-HaveBuffers n size ((m, b) ∷ ss) h = elim (Bool-cases (m == n)) [
  | inl e ↦ rw e (without_socket-HaveBuffers n size ss h.1)
  | inr e ↦ rw e (h.0, without_socket-HaveBuffers n size ss h.1)
]

set_buffers-HaveBuffers : (size : ℕ) (ss : List (ℕ × ℕ)) → HaveBuffers size (set_buffers size ss)
set_buffers-HaveBuffers size [] = tt
set_buffers-HaveBuffers size ((m, b) ∷ ss) = (refl, set_buffers-HaveBuffers size ss)

-- Adding or removing a socket and a new limit leave every socket with a read buffer for four seconds
-- at the limit, if all had one.
pub members-HaveBuffers :
    (n limit : ℕ) (c : Controller)
    → HaveBuffers (c.down_limit * 4) c.sockets
    → HaveBuffers ((add_socket n c).down_limit * 4) (add_socket n c).sockets
      × HaveBuffers ((remove_socket n c).down_limit * 4) (remove_socket n c).sockets
      × HaveBuffers
          ((set_download_limit limit c).down_limit * 4)
          (set_download_limit limit c).sockets
unfolding add_socket remove_socket set_download_limit
members-HaveBuffers n limit c h = (
  elim (Bool-cases (is_socket n c.sockets)) [
    | inl e ↦ rw e (set_buffer-HaveBuffers n (c.down_limit * 4) c.sockets h)
    | inr e ↦ rw e (refl, h)
  ],
  without_socket-HaveBuffers n (c.down_limit * 4) c.sockets h,
  set_buffers-HaveBuffers (limit * 4) c.sockets,
)
