-- ===== src/Server/Startup/Held.antt =====
-- The descriptors of the sessions of src/server/server.c while the loop runs and when it ends.
use pcd.Prelude.{
  ℕ, zero, suc, ◌≡◌, subst, arith, Bool, true, false, not, ◌&&◌, ◌||◌, Option, none, some, List, [],
  ◌∷◌, Bytes, get_elem?, set, ◌==◌, Bool-cases, Option-cases, inl, inr,
}
use pcd.Job.{Timespec}
use pcd.Server.Clients.{ClientType, ClientSession, close_client, behind, add_client}
use pcd.Server.Startup.{Startup, opened, closed}
use pcd.Server.Startup.Stages.{is_fd, recorded}
use pcd.Server.Startup.Run.{
  SessionEvent, connects, leaves, close_fd, session_event, serve, close_sessions,
}

-- The session is active and has the descriptor.
abbrev pub has_fd : ℕ → ClientSession → Bool
has_fd x client = client.active && is_fd client.fd x

unfoldable pub holds : ℕ → List ClientSession → Bool
holds x [] = false
holds x (client ∷ clients) = has_fd x client || holds x clients

module _ (x : ℕ) where
  close_fd_lem :
      (client : ClientSession) (fds : ℕ → Bool)
      → close_fd client fds x ≡ (fds x && not (has_fd x client))
  unfolding close_fd
  close_fd_lem client fds = ground arith

  pub close_sessions_lem :
      (clients : List ClientSession) (fds : ℕ → Bool)
      → close_sessions clients fds x ≡ (fds x && not (holds x clients))
  unfolding close_sessions holds
  close_sessions_lem [] fds = ground arith
  close_sessions_lem (client ∷ clients) fds =
      ground (arith, close_sessions_lem clients (close_fd client fds), close_fd_lem client fds)

  -- A session that is added holds its descriptor, and the others hold theirs.
  abbrev Held : ℕ → List ClientSession → Option (List ClientSession) → Type 0
  Held fd clients none = Unit
  Held fd clients (some after) = holds x after ≡ (holds x clients || (x == fd))

  Held-behind :
      (fd : ℕ) (client : ClientSession) (clients : List ClientSession)
      (r : Option (List ClientSession))
      → Held fd clients r
      → Held fd (client ∷ clients) (behind client r)
  unfolding holds
  Held-behind fd client clients none h = tt
  Held-behind fd client clients (some after) h = ground (arith, h)

  add_client-Held :
      (now : Timespec) (clients : List ClientSession) (fd : ℕ) (type : ClientType)
      (addr_str : Bytes)
      → Held fd clients (add_client now clients fd type addr_str)
  unfolding add_client holds
  add_client-Held now [] fd type addr_str = tt
  add_client-Held now (client ∷ clients) fd type addr_str = elim (Bool-cases client.active) [
    | inl active ↦
        simp active (Held-behind fd client clients _ (add_client-Held now clients fd type addr_str))
    | inr free ↦ simp free (ground (arith, free))
  ]

  holds-set :
      (clients : List ClientSession) (slot : ℕ) (client other : ClientSession)
      → get_elem? clients slot ≡ some client
      → holds x clients ≡ true
      → (holds x (set clients slot other) || has_fd x client) ≡ true
  unfolding holds
  holds-set [] slot client other e h = cc
  holds-set (c ∷ clients) zero client other e h = ground (arith, e, h)
  holds-set (c ∷ clients) (suc slot) client other e h = elim (Bool-cases (has_fd x c)) [
    | inl here ↦ ground (arith, here)
    | inr apart ↦ ground (arith, holds-set clients slot client other e (ground (arith, h, apart)))
  ]

  -- If the descriptor is open, the server or a session has it, or it was open before.
  abbrev pub Tracked : Bool → Startup → Type 0
  Tracked before s = s.is_open x ≡ true → ((recorded s x || holds x s.clients) || before) ≡ true

  refused-Tracked :
      (before : Bool) (s : Startup) (fd : ℕ)
      → Tracked before s
      → Tracked before (closed (opened s fd) fd)
  unfolding recorded
  refused-Tracked before s fd tracked e = tracked (ground (arith, e))

  admitted-Tracked :
      (before : Bool) (s : Startup) (fd : ℕ) (clients : List ClientSession)
      → holds x clients ≡ (holds x s.clients || (x == fd))
      → Tracked before s
      → Tracked before (record (opened s fd) { clients = clients })
  unfolding recorded
  admitted-Tracked before s fd clients held tracked e = elim (Bool-cases (x == fd)) [
    | inl same ↦ ground (arith, same, held)
    | inr other ↦ ground (arith, other, held, e, tracked)
  ]

  left-Tracked :
      (before : Bool) (s : Startup) (slot : ℕ) (client other : ClientSession)
      → get_elem? s.clients slot ≡ some client
      → Tracked before s
      → Tracked before
          (record s { clients = set s.clients slot other; is_open = close_fd client s.is_open })
  unfolding recorded
  left-Tracked before s slot client other found tracked e =
      let closing = close_fd_lem client s.is_open in
      elim (Bool-cases (holds x s.clients)) [
        | inl held ↦
            ground (arith, held, closing, e, holds-set s.clients slot client other found held)
        | inr free ↦ ground (arith, free, closing, e, tracked)
      ]

  session_event-Tracked :
      (before : Bool) (event : SessionEvent) (s : Startup)
      → Tracked before s
      → Tracked before (session_event event s)
  unfolding session_event
  session_event-Tracked before (connects fd true now type addr_str) s tracked =
      refused-Tracked before s fd tracked
  session_event-Tracked before (connects fd false now type addr_str) s tracked =
      let added = add_client-Held now s.clients fd type addr_str in
      elim (Option-cases (add_client now s.clients fd type addr_str)) [
        | inl full ↦ rw (session_event, full) (refused-Tracked before s fd tracked)
        | inr (clients, room) ↦
            rw (session_event, room)
              (admitted-Tracked before s fd clients (subst (Held fd s.clients) room added) tracked)
      ]
  session_event-Tracked before (leaves slot) s tracked =
      elim (Option-cases (get_elem? s.clients slot)) [
        | inl missing ↦ rw (session_event, missing) tracked
        | inr (client, found) ↦
            rw (session_event, found)
              (left-Tracked before s slot client (close_client client) found tracked)
      ]

  pub serve-Tracked :
      (before : Bool) (events : List SessionEvent) (s : Startup)
      → Tracked before s
      → Tracked before (serve events s)
  unfolding serve
  serve-Tracked before [] s tracked = tracked
  serve-Tracked before (event ∷ events) s tracked =
      serve-Tracked before events (session_event event s)
        (session_event-Tracked before event s tracked)
