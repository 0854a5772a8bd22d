-- ===== src/Server/Startup/Released.antt =====
-- What the end of the server of src/server/server.c releases: every descriptor of the start and of
-- the sessions, whichever call fails.
use pcd.Prelude.{
  ℕ, ◌≡◌, refl, sym, ◌∙◌, arith, Bool, true, false, not, ◌&&◌, ◌||◌, Option, none, some, List,
  Bool-cases, inl, inr,
}
use pcd.Server.Startup.{Startup, StartCalls, start_steps, run_steps}
use pcd.Server.Startup.Run.{
  SessionEvent, serve, close_field, close_fds, close_sessions, blank_state, cleanup_server_state,
  server_run,
}
use pcd.Server.Startup.Held.{holds, close_sessions_lem, Tracked, serve-Tracked}
use pcd.Server.Startup.Stages.{
  is_fd, recorded, at_start, Stage, run_steps-tracked, start_steps-Keeps,
}

module _ (x : ℕ) where
  close_field_lem :
      (field : Option ℕ) (s : Startup)
      → (close_field field s).is_open x ≡ (s.is_open x && not (is_fd field x))
  close_field_lem none s = ground arith
  close_field_lem (some fd) s = ground arith

  close_fds_lem :
      (s : Startup) → (close_fds s).is_open x ≡ true → (s.is_open x && not (recorded s x)) ≡ true
  unfolding close_fds recorded
  close_fds_lem s e =
      let s1 = close_field s.listen_fd_user s in
      let s2 = close_field s.listen_fd_admin s1 in
      let s3 = close_field s.listen_fd_unix s2 in
      let s4 = close_field s.pipe_read_fd s3 in
      let s5 = close_field s.pipe_write_fd s4 in
      let left = sym (close_field_lem s.inotify_fd s5) ∙ e in
      let e5 = close_field_lem s.pipe_write_fd s4 in
      let e4 = close_field_lem s.pipe_read_fd s3 in
      let e3 = close_field_lem s.listen_fd_unix s2 in
      let e2 = close_field_lem s.listen_fd_admin s1 in
      let e1 = close_field_lem s.listen_fd_user s in ground (arith, e1, e2, e3, e4, e5, left)

closing :
    (closed_now open_then known was_open : Bool)
    → (open_then ≡ true → (known || was_open) ≡ true)
    → (closed_now ≡ true → (open_then && not known) ≡ true)
    → (closed_now && not was_open) ≡ false
closing false open_then known was_open tracked left = refl
closing true open_then known true tracked left = refl
closing true false known false tracked left = absurd (ground (arith, left refl))
closing true true true false tracked left = absurd (ground (arith, left refl))
closing true true false false tracked left = absurd (ground (arith, tracked refl))

-- Nothing is open that was not open before the start, and nothing stays initialised.
cleanup_server_state-released :
    (x : ℕ) (was_open : Bool) (s : Startup)
    → Tracked x was_open s
    → let after = cleanup_server_state s in
      ((after.is_open x && not was_open) ≡ false)
      × (after.blocklist_initialized ≡ false)
      × (after.jobs_initialized ≡ false)
      × (after.queue_initialized ≡ false)
unfolding cleanup_server_state recorded
cleanup_server_state-released x was_open s tracked =
    let s' : Startup = record s { is_open = close_sessions s.clients s.is_open } in
    let left : (close_fds s').is_open x ≡ true
        → (s.is_open x && not (recorded s x || holds x s.clients)) ≡ true =
      λ e. ground (arith, close_fds_lem x s' e, close_sessions_lem x s.clients s.is_open) in
    (
      closing ((close_fds s').is_open x) (s.is_open x) (recorded s x || holds x s.clients) was_open
          tracked left,
      refl,
      refl,
      refl,
    )

-- Whichever call of the start fails, and also when none does, whoever connects and leaves meanwhile
-- or is connected when the server ends: a descriptor that is open afterwards was open before, and the
-- blocklist, the table and the queue are destroyed.
pub server_run-released :
    (calls : StartCalls) (events : List SessionEvent) (is_open : ℕ → Bool) (socket_path : Bool)
    (x : ℕ)
    → let after = (server_run calls events (blank_state is_open socket_path)).1 in
      ((after.is_open x && not (is_open x)) ≡ false)
      × (after.blocklist_initialized ≡ false)
      × (after.jobs_initialized ≡ false)
      × (after.queue_initialized ≡ false)
unfolding server_run blank_state recorded
server_run-released calls events is_open socket_path x = elim (Bool-cases calls.blocklist) [
  | inr no_blocklist ↦ rw (server_run, no_blocklist) (ground arith, refl, refl, refl)
  | inl begun ↦
      let s : Startup = record (blank_state is_open socket_path) { blocklist_initialized = true } in
      let stage : Stage x (is_open x) at_start s = record {
        tracked = λ e. e;
        unset = (refl, (refl, (refl, (refl, (refl, refl)))));
      } in
      let after = (run_steps (start_steps calls) s).1 in
      let tracked : Tracked x (is_open x) after = λ e. ground (
        arith,
        run_steps-tracked x (is_open x) (start_steps calls) at_start s
            (start_steps-Keeps x (is_open x) calls) stage e,
      ) in
      elim (Bool-cases (run_steps (start_steps calls) s).0) [
        | inl started ↦
            rw (server_run, begun, started)
              (cleanup_server_state-released x (is_open x) (serve events after)
                (serve-Tracked x (is_open x) events after tracked))
        | inr failed ↦
            rw (server_run, begun, failed)
              (cleanup_server_state-released x (is_open x) after tracked)
      ]
]
