-- ===== src/Server/Startup/Polling.antt =====
-- The array for `poll` of src/server/server.c, in every round of the loop.
use pcd.Prelude.{
  ℕ, zero, suc, ◌+◌, ◌≤◌, ◌≡◌, refl, sym, ◌∙◌, subst, arith, Bool, true, false, not, ◌||◌, Option,
  none, some, List, [], ◌∷◌, Bytes, All, length, length-set, replicate, length-replicate, get_elem?,
  set, Bool-cases, Option-cases, inl, inr,
}
use pcd.Job.{Timespec}
use pcd.Server.Clients.{
  ClientType, ClientSession, max_clients, no_session, close_client, behind, add_client, active_fds,
  count_active,
}
use pcd.Server.Sessions.{Admitted, add_client-Admitted, length-active_fds, count_active-le}
use pcd.Server.Startup.{Startup, StartCalls, is_some, start_steps, run_steps}
use pcd.Server.Startup.Stages.{at_start, complete}
use pcd.Server.Startup.Opened.{WithPipe, Opened, Begun, run_steps-complete, start_steps-LeadsToEnd}
use pcd.Server.Startup.Run.{
  SessionEvent, connects, leaves, session_event, serve, rebuild_pollfds, blank_state,
}

-- The slots of the sessions: 128, and an active session has a descriptor.
has_descriptor : ClientSession → Bool
has_descriptor client = not client.active || is_some client.fd

record Slots (clients : List ClientSession) : Type 0 where
  pub size : length clients ≡ max_clients
  pub valid : All (λ client. has_descriptor client ≡ true) clients

abbrev ValidIf : Option (List ClientSession) → Type 0
ValidIf none = Unit
ValidIf (some clients) = All (λ client. has_descriptor client ≡ true) clients

ValidIf-behind :
    (client : ClientSession) (r : Option (List ClientSession))
    → has_descriptor client ≡ true
    → ValidIf r
    → ValidIf (behind client r)
ValidIf-behind client none h v = tt
ValidIf-behind client (some clients) h v = (h, v)

add_client-ValidIf :
    (now : Timespec) (clients : List ClientSession) (fd : ℕ) (type : ClientType) (addr_str : Bytes)
    → All (λ client. has_descriptor client ≡ true) clients
    → ValidIf (add_client now clients fd type addr_str)
unfolding add_client has_descriptor
add_client-ValidIf now [] fd type addr_str valid = tt
add_client-ValidIf now (client ∷ clients) fd type addr_str (h, valid) =
    elim (Bool-cases client.active) [
      | inl active ↦
          simp active
            (ValidIf-behind client _ h (add_client-ValidIf now clients fd type addr_str valid))
      | inr free ↦ simp free (refl, valid)
    ]

set-valid :
    (clients : List ClientSession) (slot : ℕ) (client : ClientSession)
    → get_elem? clients slot ≡ some client
    → All (λ client. has_descriptor client ≡ true) clients
    → All (λ client. has_descriptor client ≡ true) (set clients slot (close_client client))
unfolding has_descriptor close_client
set-valid [] slot client e valid = tt
set-valid (c ∷ clients) zero client e (h, valid) = (ground (arith, e, h), valid)
set-valid (c ∷ clients) (suc slot) client e (h, valid) = (h, set-valid clients slot client e valid)

-- What an event leaves: the descriptors of the server and sound slots.
record Watchable (s : Startup) : Type 0 where
  pub fds : Opened complete s
  pub slots : Slots s.clients

session_event-Watchable :
    (event : SessionEvent) (s : Startup) → Watchable s → Watchable (session_event event s)
unfolding session_event
session_event-Watchable (connects fd true now type addr_str) s h = record {
  fds = h.fds;
  slots = h.slots;
}
session_event-Watchable (connects fd false now type addr_str) s h =
    let admitted = add_client-Admitted now s.clients fd type addr_str in
    let valid = add_client-ValidIf now s.clients fd type addr_str h.slots.valid in
    elim (Option-cases (add_client now s.clients fd type addr_str)) [
      | inl full ↦ rw (session_event, full) (record { fds = h.fds; slots = h.slots })
      | inr (clients, room) ↦
          rw (session_event, room)
            (record {
              fds = h.fds;
              slots = record {
                size = (subst (Admitted s.clients) room admitted).0 ∙ h.slots.size;
                valid = subst ValidIf room valid;
              };
            })
    ]
session_event-Watchable (leaves slot) s h = elim (Option-cases (get_elem? s.clients slot)) [
  | inl missing ↦ rw (session_event, missing) h
  | inr (client, found) ↦
      rw (session_event, found)
        (record {
          fds = h.fds;
          slots = record {
            size = length-set s.clients slot (close_client client) ∙ h.slots.size;
            valid = set-valid s.clients slot client found h.slots.valid;
          };
        })
]

serve-Watchable :
    (events : List SessionEvent) (s : Startup) → Watchable s → Watchable (serve events s)
unfolding serve
serve-Watchable [] s h = h
serve-Watchable (event ∷ events) s h =
    serve-Watchable events (session_event event s) (session_event-Watchable event s h)

All-active_fds :
    (clients : List ClientSession)
    → All (λ client. has_descriptor client ≡ true) clients
    → All (λ fd. is_some fd ≡ true) (active_fds clients)
unfolding active_fds has_descriptor
All-active_fds [] valid = tt
All-active_fds (client ∷ clients) (h, valid) = elim (Bool-cases client.active) [
  | inl active ↦ rw (active_fds, active) (ground (arith, active, h), All-active_fds clients valid)
  | inr free ↦ rw (active_fds, free) (All-active_fds clients valid)
]

no_session-valid : (n : ℕ) → All (λ client. has_descriptor client ≡ true) (replicate n no_session)
unfolding has_descriptor
no_session-valid zero = tt
no_session-valid (suc n) = (refl, no_session-valid n)

-- The state behind the start.
abbrev pub started_state : StartCalls → (ℕ → Bool) → Bool → Bool × Startup
started_state calls is_open socket_path =
    run_steps (start_steps calls)
      (record (blank_state is_open socket_path) { blocklist_initialized = true })

started_state-Watchable :
    (calls : StartCalls) (is_open : ℕ → Bool) (socket_path : Bool)
    → (started_state calls is_open socket_path).0 ≡ true
    → Watchable (started_state calls is_open socket_path).1
unfolding blank_state
started_state-Watchable calls is_open socket_path started =
    let none_yet = replicate max_clients no_session in
    let s : Startup = record (blank_state is_open socket_path) { blocklist_initialized = true } in
    let begun : Begun none_yet at_start s = record { fds = tt; sessions = refl } in
    let end =
      run_steps-complete none_yet (start_steps calls) at_start s
        (start_steps-LeadsToEnd none_yet calls) begun started in
    let slots : Slots none_yet = record {
      size = length-replicate max_clients no_session;
      valid = no_session-valid max_clients;
    } in
    record { fds = end.fds; slots = subst Slots (sym end.sessions) slots }

-- Once the start has succeeded, and whoever connects and leaves, the array that is given to `poll`
-- stays within its 256 entries: five of them, and one for each active session, and each has a
-- descriptor.
pub rebuild_pollfds_lem :
    (calls : StartCalls) (events : List SessionEvent) (is_open : ℕ → Bool) (socket_path : Bool)
    → (started_state calls is_open socket_path).0 ≡ true
    → let s = serve events (started_state calls is_open socket_path).1 in
      (length (rebuild_pollfds s) ≡ 5 + count_active s.clients)
      × (length (rebuild_pollfds s) ≤ 256)
      × All (λ fd. is_some fd ≡ true) (rebuild_pollfds s)
unfolding rebuild_pollfds
rebuild_pollfds_lem calls events is_open socket_path started =
    let s = serve events (started_state calls is_open socket_path).1 in
    let watchable =
      serve-Watchable events (started_state calls is_open socket_path).1
        (started_state-Watchable calls is_open socket_path started) in
    let local = watchable.fds.0 in
    let admin = watchable.fds.1.0 in
    let user = watchable.fds.1.1.0 in
    let inotify = watchable.fds.1.1.1.0 in
    let pipe : WithPipe s = watchable.fds.1.1.1.1 in
    let size = length-active_fds s.clients in
    (
      omega (arith, size),
      omega (arith, size, count_active-le s.clients, watchable.slots.size),
      (user, (admin, (local, (pipe, (inotify, All-active_fds s.clients watchable.slots.valid))))),
    )
