-- ===== src/Server/Sessions.antt =====
-- The sessions of src/server/server.c: free slots and kicked clients.
use pcd.Prelude.{
  ℕ, suc, ◌+◌, ◌≤◌, ◌≡◌, refl, ap, arith, true, false, ◌&&◌, Option, none, some, List, [], ◌∷◌,
  Bytes, All, length, if◌then◌else◌, Bool-cases, inl, inr,
}
use pcd.Job.{Timespec}
use pcd.Server.Clients.{
  ClientType, ClientSession, close_client, behind, add_client, active_fds, count_active, from_ip,
  kick_ip, close_kicked,
}

pub count_active-le : (clients : List ClientSession) → count_active clients ≤ length clients
unfolding count_active
count_active-le [] = omega arith
count_active-le (client ∷ clients) = elim (Bool-cases client.active) [
  | inl active ↦ ground (arith, active, count_active-le clients)
  | inr free ↦ ground (arith, free, count_active-le clients)
]

pub length-active_fds :
    (clients : List ClientSession) → length (active_fds clients) ≡ count_active clients
unfolding active_fds count_active
length-active_fds [] = refl
length-active_fds (client ∷ clients) = elim (Bool-cases client.active) [
  | inl active ↦ rw (active_fds, count_active, active) (ap suc (length-active_fds clients))
  | inr free ↦ rw (active_fds, count_active, free) (length-active_fds clients)
]

-- What an attempt to add a session does.
abbrev pub Admitted : List ClientSession → Option (List ClientSession) → Type 0
Admitted clients none = count_active clients ≡ length clients
Admitted clients (some after) =
    (length after ≡ length clients) × (count_active after ≡ count_active clients + 1)

Admitted-behind :
    (client : ClientSession) (clients : List ClientSession) (r : Option (List ClientSession))
    → client.active ≡ true
    → Admitted clients r
    → Admitted (client ∷ clients) (behind client r)
unfolding count_active
Admitted-behind client clients none active h = rw (count_active, active) (ap suc h)
Admitted-behind client clients (some after) active (size, count) =
    (ap suc size, rw (count_active, active) (omega (arith, count)))

-- A new session takes a slot that was free and no other: the number of slots stays, and there is one
-- active session more. It is refused exactly when every slot is taken.
pub add_client-Admitted :
    (now : Timespec) (clients : List ClientSession) (fd : ℕ) (type : ClientType) (addr_str : Bytes)
    → Admitted clients (add_client now clients fd type addr_str)
unfolding add_client count_active
add_client-Admitted now [] fd type addr_str = refl
add_client-Admitted now (client ∷ clients) fd type addr_str = elim (Bool-cases client.active) [
  | inl active ↦
      simp active
        (Admitted-behind client clients _ active (add_client-Admitted now clients fd type addr_str))
  | inr free ↦ rw (add_client, count_active, free) (refl, omega arith)
]

-- The end of a round, for one session.
abbrev closed : ClientSession → ClientSession
closed client = if client.active && client.kick_requested then close_client client else client

from_ip-closed :
    (ip : Bytes) (client : ClientSession)
    → from_ip ip client ≡ false
    → from_ip ip (closed client) ≡ false
unfolding close_client
from_ip-closed ip client other = elim (Bool-cases client.active) [
  | inl active ↦ elim (Bool-cases client.kick_requested) [
    | inl kicked ↦ simp (active, kicked) refl
    | inr stays ↦ simp (active, stays) (ground (arith, active, other))
  ]
  | inr free ↦ simp free refl
]

from_ip-kicked :
    (ip : Bytes) (client : ClientSession)
    → from_ip ip client ≡ true
    → from_ip ip (closed (record client { kick_requested = true })) ≡ false
unfolding close_client
from_ip-kicked ip client from = elim (Bool-cases client.active) [
  | inl active ↦ simp active refl
  | inr free ↦ absurd (ground (arith, free, from))
]

-- Once an address is blocked and the round is over, no session of a user from it is active.
pub close_kicked-kick_ip :
    (clients : List ClientSession) (ip : Bytes)
    → All (λ client. from_ip ip client ≡ false) (close_kicked (kick_ip clients ip).1)
unfolding close_kicked kick_ip
close_kicked-kick_ip [] ip = tt
close_kicked-kick_ip (client ∷ clients) ip = elim (Bool-cases (from_ip ip client)) [
  | inl from ↦ simp from (from_ip-kicked ip client from, close_kicked-kick_ip clients ip)
  | inr other ↦ simp other (from_ip-closed ip client other, close_kicked-kick_ip clients ip)
]
