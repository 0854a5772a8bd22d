-- ===== src/Server/Startup/Stages.antt =====
-- What the steps of the start leave: every descriptor that they open is in a field of the state.
use pcd.Prelude.{
  ℕ, ◌+◌, ◌≡◌, subst, refl, sym, arith, Bool, true, false, ◌||◌, Option, none, some, List, [], ◌∷◌,
  ◌==◌, Bool-cases, inl, inr,
}
use pcd.Server.Startup.{
  Startup, SocketCalls, StartCalls, Step, create_listen_socket, create_unix_listen_socket,
  jobs_step, queue_step, pipe_step, init_inotify, user_step, admin_step, unix_step, init_workers,
  start_steps, run_steps,
}

abbrev pub is_fd : Option ℕ → ℕ → Bool
is_fd none x = false
is_fd (some fd) x = x == fd

-- A field of the state has the descriptor.
unfoldable pub recorded : Startup → ℕ → Bool
recorded s x =
    is_fd s.listen_fd_user x
    || (is_fd s.listen_fd_admin x
        || (is_fd s.listen_fd_unix x
            || (is_fd s.pipe_read_fd x || (is_fd s.pipe_write_fd x || is_fd s.inotify_fd x))))

-- How far the start has come, by the steps that open descriptors.
pub data Phase : Type 0 where
  at_start with_pipe with_inotify with_user with_admin complete : Phase

-- The fields of the steps to come are still empty.
abbrev pub NoUnix : Startup → Type 0
NoUnix s = s.listen_fd_unix ≡ none

abbrev pub NoAdmin : Startup → Type 0
NoAdmin s = (s.listen_fd_admin ≡ none) × NoUnix s

abbrev pub NoUser : Startup → Type 0
NoUser s = (s.listen_fd_user ≡ none) × NoAdmin s

abbrev pub NoInotify : Startup → Type 0
NoInotify s = (s.inotify_fd ≡ none) × NoUser s

abbrev pub NoPipe : Startup → Type 0
NoPipe s = (s.pipe_read_fd ≡ none) × ((s.pipe_write_fd ≡ none) × NoInotify s)

abbrev pub Unset : Phase → Startup → Type 0
Unset at_start s = NoPipe s
Unset with_pipe s = NoInotify s
Unset with_inotify s = NoUser s
Unset with_user s = NoAdmin s
Unset with_admin s = NoUnix s
Unset complete s = Unit

-- The last steps.
abbrev pub sockets_steps : StartCalls → List Step
sockets_steps calls =
    init_inotify calls.inotify calls.watched
    ∷ user_step calls.user
    ∷ admin_step calls.admin
    ∷ unix_step calls.local_socket
    ∷ init_workers calls.created
    ∷ []

module _ (x : ℕ) (before : Bool) where
  -- If the descriptor is open, it was open before, or the state knows it.
  pub record Stage (n : Phase) (s : Startup) : Type 0 where
    pub tracked : s.is_open x ≡ true → (recorded s x || before) ≡ true
    pub unset : Unset n s

  pipe_step-Stage :
      (calls : Option (ℕ × ℕ)) (s : Startup)
      → Stage at_start s
      → Stage with_pipe (pipe_step calls s).1
  unfolding pipe_step recorded
  pipe_step-Stage none s stage = record { tracked = stage.tracked; unset = stage.unset.1.1 }
  pipe_step-Stage (some (read_fd, write_fd)) s stage =
      let no_read = stage.unset.0 in
      let no_write = stage.unset.1.0 in
      record {
        tracked = λ e. ground (arith, stage.tracked, no_read, no_write, e);
        unset = stage.unset.1.1;
      }

  init_inotify-Stage :
      (fd : Option ℕ) (watched : Bool) (s : Startup)
      → Stage with_pipe s
      → Stage with_inotify (init_inotify fd watched s).1
  unfolding init_inotify recorded
  init_inotify-Stage none watched s stage = record {
    tracked = stage.tracked;
    unset = stage.unset.1;
  }
  init_inotify-Stage (some fd) watched s stage =
      let none_yet = stage.unset.0 in
      record { tracked = λ e. ground (arith, stage.tracked, none_yet, e); unset = stage.unset.1 }

  user_step-Stage :
      (calls : SocketCalls) (s : Startup)
      → Stage with_inotify s
      → Stage with_user (user_step calls s).1
  unfolding user_step recorded create_listen_socket
  user_step-Stage calls s stage =
      let none_yet = stage.unset.0 in
      let no_admin = stage.unset.1.0 in
      let no_unix = stage.unset.1.1 in
      record {
        tracked = λ e. ground (arith, stage.tracked, none_yet, e);
        unset = (ground (arith, no_admin), ground (arith, no_unix));
      }

  admin_step-Stage :
      (calls : SocketCalls) (s : Startup)
      → Stage with_user s
      → Stage with_admin (admin_step calls s).1
  unfolding admin_step recorded create_listen_socket
  admin_step-Stage calls s stage =
      let none_yet = stage.unset.0 in
      let no_unix = stage.unset.1 in
      record {
        tracked = λ e. ground (arith, stage.tracked, none_yet, e);
        unset = ground (arith, no_unix);
      }

  unix_step-Stage :
      (calls : SocketCalls) (s : Startup)
      → Stage with_admin s
      → Stage complete (unix_step calls s).1
  unfolding unix_step recorded create_unix_listen_socket
  unix_step-Stage calls s stage =
      let none_yet = stage.unset in
      record { tracked = λ e. ground (arith, stage.tracked, none_yet, e); unset = tt }

  jobs_step-Stage : (ok : Bool) (s : Startup) → Stage at_start s → Stage at_start (jobs_step ok s).1
  unfolding jobs_step recorded
  jobs_step-Stage ok s stage = record { tracked = stage.tracked; unset = stage.unset }

  queue_step-Stage :
      (ok : Bool) (s : Startup) → Stage at_start s → Stage at_start (queue_step ok s).1
  unfolding queue_step recorded
  queue_step-Stage ok s stage = record { tracked = stage.tracked; unset = stage.unset }

  init_workers-Stage :
      (created : List Bool) (s : Startup)
      → Stage complete s
      → Stage complete (init_workers created s).1
  unfolding init_workers recorded
  init_workers-Stage [] s stage = record { tracked = stage.tracked; unset = tt }
  init_workers-Stage (true ∷ rest) s stage =
      init_workers-Stage rest (record s { threads = s.threads + 1 })
        (record { tracked = stage.tracked; unset = tt })
  init_workers-Stage (false ∷ rest) s stage = stage

  -- What a step leaves, also when it fails, and then the steps behind it.
  abbrev pub Keeps : List Step → Phase → Type 0
  Keeps [] phase = Unit
  Keeps (step ∷ steps) phase =
      (next : Phase) × ((s : Startup) → Stage phase s → Stage next (step s).1) × Keeps steps next

  pub run_steps-tracked :
      (steps : List Step) (phase : Phase) (s : Startup)
      → Keeps steps phase
      → Stage phase s
      → (run_steps steps s).1.is_open x ≡ true
      → (recorded (run_steps steps s).1 x || before) ≡ true
  unfolding run_steps
  run_steps-tracked [] phase s keeps stage e = stage.tracked e
  run_steps-tracked (step ∷ steps) phase s (next, keep, keeps) stage e =
      elim (Bool-cases (step s).0) [
        | inl ok ↦
            let on : run_steps (step ∷ steps) s ≡ run_steps steps (step s).1 =
              rw (run_steps, ok) refl in
            subst (λ (r : Bool × Startup). r.1.is_open x ≡ true → (recorded r.1 x || before) ≡ true)
              (sym on) (run_steps-tracked steps next (step s).1 keeps (keep s stage)) e
        | inr cut ↦
            let stops : run_steps (step ∷ steps) s ≡ (false, (step s).1) =
              rw (run_steps, cut) refl in
            subst (λ (r : Bool × Startup). r.1.is_open x ≡ true → (recorded r.1 x || before) ≡ true)
              (sym stops) (keep s stage).tracked e
      ]

  pub start_steps-Keeps : (calls : StartCalls) → Keeps (start_steps calls) at_start
  unfolding start_steps
  start_steps-Keeps calls =
      let sockets : Keeps (sockets_steps calls) with_pipe = (
        with_inotify,
        init_inotify-Stage calls.inotify calls.watched,
        (
          with_user,
          user_step-Stage calls.user,
          (
            with_admin,
            admin_step-Stage calls.admin,
            (
              complete,
              unix_step-Stage calls.local_socket,
              (complete, init_workers-Stage calls.created, tt),
            ),
          ),
        ),
      ) in
      let first : Keeps (start_steps calls) at_start = (
        at_start,
        (λ s stage. stage),
        (
          at_start,
          (λ s stage. stage),
          (
            at_start,
            (λ s stage. stage),
            (
              at_start,
              jobs_step-Stage calls.jobs,
              (
                at_start,
                queue_step-Stage calls.queue,
                (with_pipe, pipe_step-Stage calls.pipe, (with_pipe, (λ s stage. stage), sockets)),
              ),
            ),
          ),
        ),
      ) in
      first
