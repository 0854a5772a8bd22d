-- ===== src/Server/Startup/Opened.antt =====
-- What a start of src/server/server.c that succeeds has opened.
use pcd.Prelude.{
  ℕ, ◌+◌, ◌≡◌, refl, sym, ap, ◌∙◌, subst, arith, Bool, true, false, Option, none, some, List, [],
  ◌∷◌, Bool-cases, inl, inr,
}
use pcd.Server.Clients.{ClientSession}
use pcd.Server.Startup.{
  Startup, SocketCalls, StartCalls, Step, is_some, create_listen_socket, create_unix_listen_socket,
  check_step, jobs_step, queue_step, pipe_step, init_inotify, user_step, admin_step, unix_step,
  init_workers, start_steps, run_steps,
}
use pcd.Server.Startup.Stages.{
  Phase, at_start, with_pipe, with_inotify, with_user, with_admin, complete, sockets_steps,
}

-- The descriptors that the loop watches and that are there in a phase of the start.
abbrev pub WithPipe : Startup → Type 0
WithPipe s = is_some s.pipe_read_fd ≡ true

abbrev pub WithInotify : Startup → Type 0
WithInotify s = (is_some s.inotify_fd ≡ true) × WithPipe s

abbrev pub WithUser : Startup → Type 0
WithUser s = (is_some s.listen_fd_user ≡ true) × WithInotify s

abbrev pub WithAdmin : Startup → Type 0
WithAdmin s = (is_some s.listen_fd_admin ≡ true) × WithUser s

abbrev pub Opened : Phase → Startup → Type 0
Opened at_start s = Unit
Opened with_pipe s = WithPipe s
Opened with_inotify s = WithInotify s
Opened with_user s = WithUser s
Opened with_admin s = WithAdmin s
Opened complete s = (is_some s.listen_fd_unix ≡ true) × WithAdmin s

module _ (clients : List ClientSession) where
  -- The sessions are those of the beginning.
  pub record Begun (phase : Phase) (s : Startup) : Type 0 where
    pub fds : Opened phase s
    pub sessions : s.clients ≡ clients

  -- A step that succeeds leads from one phase to the next.
  abbrev pub Leads : Phase → Step → Phase → Type 0
  Leads phase step next = (s : Startup) → (step s).0 ≡ true → Begun phase s → Begun next (step s).1

  pipe_step-Leads : (calls : Option (ℕ × ℕ)) → Leads at_start (pipe_step calls) with_pipe
  unfolding pipe_step
  pipe_step-Leads none s ok begun = cc
  pipe_step-Leads (some (read_fd, write_fd)) s ok begun = record {
    fds = refl;
    sessions = begun.sessions;
  }

  init_inotify-Leads :
      (fd : Option ℕ) (watched : Bool) → Leads with_pipe (init_inotify fd watched) with_inotify
  unfolding init_inotify
  init_inotify-Leads none watched s ok begun = cc
  init_inotify-Leads (some fd) watched s ok begun = record {
    fds = (refl, begun.fds);
    sessions = begun.sessions;
  }

  user_step-Leads : (calls : SocketCalls) → Leads with_inotify (user_step calls) with_user
  unfolding user_step create_listen_socket
  user_step-Leads calls s ok begun =
      let inotify = begun.fds.0 in
      let pipe : WithPipe s = begun.fds.1 in
      let same = begun.sessions in
      record {
        fds = (ground (arith, ok), (ground (arith, inotify), ground (arith, pipe)));
        sessions = ground (arith, same);
      }

  admin_step-Leads : (calls : SocketCalls) → Leads with_user (admin_step calls) with_admin
  unfolding admin_step create_listen_socket
  admin_step-Leads calls s ok begun =
      let user = begun.fds.0 in
      let inotify = begun.fds.1.0 in
      let pipe : WithPipe s = begun.fds.1.1 in
      let same = begun.sessions in
      record {
        fds = (
          ground (arith, ok),
          (ground (arith, user), (ground (arith, inotify), ground (arith, pipe))),
        );
        sessions = ground (arith, same);
      }

  unix_step-Leads : (calls : SocketCalls) → Leads with_admin (unix_step calls) complete
  unfolding unix_step create_unix_listen_socket
  unix_step-Leads calls s ok begun =
      let admin = begun.fds.0 in
      let user = begun.fds.1.0 in
      let inotify = begun.fds.1.1.0 in
      let pipe : WithPipe s = begun.fds.1.1.1 in
      let same = begun.sessions in
      record {
        fds = (
          ground (arith, ok),
          (
            ground (arith, admin),
            (ground (arith, user), (ground (arith, inotify), ground (arith, pipe))),
          ),
        );
        sessions = ground (arith, same);
      }

  init_workers-Leads : (created : List Bool) → Leads complete (init_workers created) complete
  unfolding init_workers
  init_workers-Leads [] s ok begun = record { fds = begun.fds; sessions = begun.sessions }
  init_workers-Leads (true ∷ rest) s ok begun =
      init_workers-Leads rest (record s { threads = s.threads + 1 }) ok
        (record { fds = begun.fds; sessions = begun.sessions })
  init_workers-Leads (false ∷ rest) s ok begun = cc

  check_step-Leads : (phase : Phase) (ok : Bool) → Leads phase (check_step ok) phase
  check_step-Leads phase ok s e begun = begun

  jobs_step-Leads : (ok : Bool) → Leads at_start (jobs_step ok) at_start
  unfolding jobs_step
  jobs_step-Leads ok s e begun = record { fds = tt; sessions = begun.sessions }

  queue_step-Leads : (ok : Bool) → Leads at_start (queue_step ok) at_start
  unfolding queue_step
  queue_step-Leads ok s e begun = record { fds = tt; sessions = begun.sessions }

  -- Steps that lead from a phase to the end of the start.
  abbrev pub LeadsToEnd : List Step → Phase → Type 0
  LeadsToEnd [] phase = (s : Startup) → Begun phase s → Begun complete s
  LeadsToEnd (step ∷ steps) phase = (next : Phase) × Leads phase step next × LeadsToEnd steps next

  pub run_steps-complete :
      (steps : List Step) (phase : Phase) (s : Startup)
      → LeadsToEnd steps phase
      → Begun phase s
      → (run_steps steps s).0 ≡ true
      → Begun complete (run_steps steps s).1
  unfolding run_steps
  run_steps-complete [] phase s ends begun ok = ends s begun
  run_steps-complete (step ∷ steps) phase s (next, leads, ends) begun ok =
      elim (Bool-cases (step s).0) [
        | inl done ↦
            let on : run_steps (step ∷ steps) s ≡ run_steps steps (step s).1 =
              rw (run_steps, done) refl in
            subst (λ (r : Bool × Startup). Begun complete r.1) (sym on)
              (run_steps-complete steps next (step s).1 ends (leads s done begun)
                (ap (λ (r : Bool × Startup). r.0) (sym on) ∙ ok))
        | inr cut ↦
            let stops : run_steps (step ∷ steps) s ≡ (false, (step s).1) =
              rw (run_steps, cut) refl in
            let not_ok = ap (λ (r : Bool × Startup). r.0) (sym stops) ∙ ok in cc
      ]

  pub start_steps-LeadsToEnd : (calls : StartCalls) → LeadsToEnd (start_steps calls) at_start
  unfolding start_steps
  start_steps-LeadsToEnd calls =
      let sockets : LeadsToEnd (sockets_steps calls) with_pipe = (
        with_inotify,
        init_inotify-Leads calls.inotify calls.watched,
        (
          with_user,
          user_step-Leads calls.user,
          (
            with_admin,
            admin_step-Leads calls.admin,
            (
              complete,
              unix_step-Leads calls.local_socket,
              (complete, init_workers-Leads calls.created, (λ s begun. begun)),
            ),
          ),
        ),
      ) in
      let first : LeadsToEnd (start_steps calls) at_start = (
        at_start,
        check_step-Leads at_start _,
        (
          at_start,
          check_step-Leads at_start _,
          (
            at_start,
            check_step-Leads at_start _,
            (
              at_start,
              jobs_step-Leads calls.jobs,
              (
                at_start,
                queue_step-Leads calls.queue,
                (
                  with_pipe,
                  pipe_step-Leads calls.pipe,
                  (with_pipe, check_step-Leads with_pipe _, sockets),
                ),
              ),
            ),
          ),
        ),
      ) in
      first
