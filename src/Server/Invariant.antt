-- ===== src/Server/Invariant.antt =====
-- The invariant of the state of src/server/server.c, and the steps that the commands share.

pub mod Users
pub mod Events
use pcd.Prelude.{
  ℕ, zero, suc, ◌+◌, ◌≤◌, ◌<◌, ◌≡◌, refl, sym, ap, ◌∙◌, subst, arith, Bool, true, false, not, ◌&&◌,
  ◌||◌, Option, none, some, List, [], ◌∷◌, Bytes, codes, length, set, get_elem?, ltb, leb,
  if◌then◌else◌, ◌==◌, Bool-cases, Option-cases, inl, inr,
}
use pcd.Net.{Descriptor, write_all}
use pcd.Job.{
  Job, JobTable, JobType, Timespec, job_table_create_job, job_table_find, job_set_stored_path,
  job_set_result, job_set_state, failed,
}
use pcd.Job.Table.{IsValid, IsValid-set, job_table_create_job-IsValid}
use pcd.Queue.{job_queue_push}
use pcd.Storage.{Files, storage_make_upload_path, storage_receive_to_file, max_job_path}
use pcd.Server.Blocklist.{max_blocked_ips}
use pcd.Server.Clients.{ClientSession, max_clients, close_client}
use pcd.Server.Admins.{count_admins, Tamer, length-Tamer, count_admins-Tamer, Tamer-close}
use pcd.Server.State.{
  ServerState, Surroundings, buffer_size, send_responsef, respond, update_job, close_slot,
  enqueue_failed, stored_at, push_job, enqueue_job, receive_png_to_upload, receive_extra_to_file,
  with_job,
}

-- The table of jobs is valid, there are 128 slots for sessions with one administrator at most, and
-- at most 32 addresses are blocked.
pub record Sound (jobs : JobTable) (clients : List ClientSession) (blocklist : List Bytes)
    : Type 0 where
  pub table : IsValid jobs
  pub slots : length clients ≡ max_clients
  pub one_admin : count_admins clients ≤ 1
  pub blocked : length blocklist ≤ max_blocked_ips

abbrev pub IsSound : ServerState → Type 0
IsSound state = Sound state.jobs state.clients state.blocklist

pub Sound-Tamer :
    (jobs : JobTable) (clients after : List ClientSession) (blocklist : List Bytes)
    → Sound jobs clients blocklist
    → Tamer clients after
    → Sound jobs after blocklist
Sound-Tamer jobs clients after blocklist sound tamer = record {
  table = sound.table;
  slots = length-Tamer clients after tamer ∙ sound.slots;
  one_admin = omega (arith, count_admins-Tamer clients after tamer, sound.one_admin);
  blocked = sound.blocked;
}

pub Sound-table :
    (jobs after : JobTable) (clients : List ClientSession) (blocklist : List Bytes)
    → Sound jobs clients blocklist
    → IsValid after
    → Sound after clients blocklist
Sound-table jobs after clients blocklist sound valid = record {
  table = valid;
  slots = sound.slots;
  one_admin = sound.one_admin;
  blocked = sound.blocked;
}

pub respond-IsSound :
    (state : ServerState) (fd : ℕ) (text : Bytes) → IsSound state → IsSound (respond state fd text)
unfolding send_responsef
respond-IsSound state fd text sound = elim (Bool-cases (leb buffer_size (length text))) [
  | inl long ↦ rw (respond, send_responsef, long) sound
  | inr fits ↦ rw (respond, send_responsef, fits) sound
]

pub send_responsef-IsSound :
    (state : ServerState) (fd : ℕ) (text : Bytes)
    → IsSound state
    → IsSound (send_responsef state fd text).1
send_responsef-IsSound = respond-IsSound

pub IsValid-update_job :
    (table : JobTable) (p : ℕ) (change : Job → Job)
    → ((job : Job) → (change job).id ≡ job.id)
    → IsValid table
    → IsValid (update_job table p change)
IsValid-update_job table p change keeps valid = elim (Option-cases (get_elem? table.jobs p)) [
  | inl missing ↦ rw (update_job, missing) valid
  | inr (job, found) ↦
      rw (update_job, found) (IsValid-set table p job (change job) valid found (keeps job))
]

pub close_slot-IsSound :
    (state : ServerState) (slot : ℕ) → IsSound state → IsSound (close_slot state slot)
close_slot-IsSound state slot sound = elim (Option-cases (get_elem? state.clients slot)) [
  | inl missing ↦ rw (close_slot, missing) sound
  | inr (client, found) ↦
      rw (close_slot, found)
        (Sound-Tamer state.jobs state.clients _ state.blocklist sound
          (Tamer-close state.clients slot client found))
]

enqueue_failed-id : (now : Timespec) (job : Job) → (enqueue_failed now job).id ≡ job.id
unfolding job_set_state job_set_result
enqueue_failed-id now job = refl

stored_at-id : (path : Option Bytes) (job : Job) → (stored_at path job).id ≡ job.id
unfolding job_set_stored_path
stored_at-id none job = refl
stored_at-id (some path) job = refl

module _ (env : Surroundings) where
  push_job-IsSound :
      (state : ServerState) (fd p : ℕ) → IsSound state → IsSound (push_job env state fd p)
  unfolding push_job
  push_job-IsSound state fd p sound = elim (Bool-cases (job_queue_push env.node p state.queue).0) [
    | inl pushed ↦ rw (push_job, pushed) (respond-IsSound _ fd _ sound)
    | inr refused ↦
        rw (push_job, refused)
          (respond-IsSound _ fd _ (
            Sound-table state.jobs _ state.clients state.blocklist sound (
              IsValid-update_job state.jobs p (enqueue_failed env.now) (enqueue_failed-id env.now)
                sound.table)))
  ]

  pub enqueue_job-IsSound :
      (state : ServerState) (fd : ℕ) (addr_str : Bytes) (type : JobType)
      (payload input_path stored_path : Option Bytes)
      → IsSound state
      → IsSound (enqueue_job env state fd addr_str type payload input_path stored_path)
  unfolding enqueue_job
  enqueue_job-IsSound state fd addr_str type payload input_path stored_path sound =
      let created =
        job_table_create_job env.ready env.now state.jobs fd (some addr_str) type payload
          input_path in
      elim (Option-cases created.0) [
        | inl refused ↦ rw (enqueue_job, refused) (respond-IsSound state fd _ sound)
        | inr (p, made) ↦
            rw (enqueue_job, made)
              (push_job-IsSound _ fd p (
                Sound-table state.jobs _ state.clients state.blocklist sound (
                  IsValid-update_job created.1 p (stored_at stored_path) (stored_at-id stored_path)
                    (job_table_create_job-IsValid env.now fd (some addr_str) type payload input_path
                      env.ready state.jobs sound.table))))
      ]

  pub receive_png_to_upload-IsSound :
      (state : ServerState) (fd png_size : ℕ)
      → IsSound state
      → IsSound (receive_png_to_upload env state fd png_size).1
  unfolding receive_png_to_upload
  receive_png_to_upload-IsSound state fd png_size sound =
      elim (Bool-cases ((png_size == 0) || ltb env.max_upload_bytes png_size)) [
        | inl refused ↦ rw (receive_png_to_upload, refused) (respond-IsSound state fd _ sound)
        | inr taken ↦
            elim (Option-cases
              (storage_make_upload_path env.dirs state.jobs.next_id (codes "png") max_job_path)) [
                | inl long ↦
                    rw (receive_png_to_upload, taken, long) (respond-IsSound state fd _ sound)
                | inr (path, built) ↦
                    elim (Bool-cases
                      (storage_receive_to_file env.disk path (state.connections fd) state.files
                        png_size).0) [
                          | inl received ↦ rw (receive_png_to_upload, taken, built, received) sound
                          | inr broken ↦
                              rw (receive_png_to_upload, taken, built, broken)
                                (respond-IsSound _ fd _ sound)
                        ]
              ]
      ]

  pub receive_extra_to_file-IsSound :
      (state : ServerState) (fd size limit : ℕ) (label : Bytes) (job_seq : ℕ) (suffix : Bytes)
      → IsSound state
      → IsSound (receive_extra_to_file env state fd size limit label job_seq suffix).1
  unfolding receive_extra_to_file
  receive_extra_to_file-IsSound state fd size limit label job_seq suffix sound =
      elim (Bool-cases (ltb limit size)) [
        | inl large ↦ rw (receive_extra_to_file, large) (respond-IsSound state fd _ sound)
        | inr fits ↦
            elim (Option-cases (storage_make_upload_path env.dirs job_seq suffix max_job_path)) [
              | inl long ↦ rw (receive_extra_to_file, fits, long) (respond-IsSound state fd _ sound)
              | inr (path, built) ↦ elim (Bool-cases (size == 0)) [
                | inl nothing ↦ elim (Bool-cases (env.disk.can_open path)) [
                  | inr shut ↦
                      rw (receive_extra_to_file, fits, built, nothing, shut)
                        (respond-IsSound state fd _ sound)
                  | inl opened ↦ elim (Bool-cases (env.disk.can_close path)) [
                    | inl closed ↦
                        rw (receive_extra_to_file, fits, built, nothing, opened, closed) sound
                    | inr unclosed ↦
                        rw (receive_extra_to_file, fits, built, nothing, opened, unclosed)
                          (respond-IsSound _ fd _ sound)
                  ]
                ]
                | inr bytes ↦
                    elim (Bool-cases
                      (storage_receive_to_file env.disk path (state.connections fd) state.files
                        size).0) [
                          | inl received ↦
                              rw (receive_extra_to_file, fits, built, bytes, received) sound
                          | inr broken ↦
                              rw (receive_extra_to_file, fits, built, bytes, broken)
                                (respond-IsSound _ fd _ sound)
                        ]
              ]
            ]
      ]

pub with_job-IsSound :
    (state : ServerState) (fd job_id : ℕ) (next : ℕ → Job → ServerState)
    → IsSound state
    → ((p : ℕ) (job : Job) → get_elem? state.jobs.jobs p ≡ some job → IsSound (next p job))
    → IsSound (with_job state fd job_id next)
with_job-IsSound state fd job_id next sound later =
    elim (Option-cases (job_table_find state.jobs job_id)) [
      | inl unknown ↦ rw (with_job, unknown) (respond-IsSound state fd _ sound)
      | inr (p, known) ↦ elim (Option-cases (get_elem? state.jobs.jobs p)) [
        | inl missing ↦ rw (with_job, known, missing) sound
        | inr (job, found) ↦ rw (with_job, known, found) (later p job found)
      ]
    ]
