-- ===== src/Job/Report.antt =====
-- The operations of src/server/job.c over the whole table: the counts of `job_table_collect_stats`,
-- the lists of `job_table_format_list` and `job_table_format_history`, and
-- `job_table_cancel_by_owner`.
use pcd.Prelude.{
  ℕ, ◌+◌, ◌-◌, ◌<◌, ◌≡◌, refl, ◌∙◌, arith, true, ◌&&◌, Option, none, some, List, [], ◌∷◌, ◌++◌,
  Bytes, codes, length, length-take, leb, ◌==◌, if◌then◌else◌, snprintf, decimal, Bool-cases, inl,
  inr,
}
use pcd.Job.{
  Job, JobTable, JobState, queued, running, done, failed, canceled, is_active, job_state_to_string,
  job_type_to_string,
}

-- `job_stats_t` but for the average duration.
pub record JobStats : Type 0 where
  pub total : ℕ
  pub queued : ℕ
  pub running : ℕ
  pub done : ℕ
  pub failed : ℕ
  pub canceled : ℕ

unfoldable pub count_state : JobState → JobStats → JobStats
count_state queued stats = record stats { queued = stats.queued + 1 }
count_state running stats = record stats { running = stats.running + 1 }
count_state done stats = record stats { done = stats.done + 1 }
count_state failed stats = record stats { failed = stats.failed + 1 }
count_state canceled stats = record stats { canceled = stats.canceled + 1 }

unfoldable pub count_states : List Job → JobStats → JobStats
count_states [] stats = stats
count_states (job ∷ jobs) stats = count_states jobs (count_state job.state stats)

unfoldable pub job_table_collect_stats : JobTable → JobStats
job_table_collect_stats table = count_states table.jobs (record {
  total = length table.jobs;
  queued = 0;
  running = 0;
  done = 0;
  failed = 0;
  canceled = 0;
})

abbrev counted : JobStats → ℕ
counted stats = stats.queued + stats.running + stats.done + stats.failed + stats.canceled

counted-count_state :
    (state : JobState) (stats : JobStats) → counted (count_state state stats) ≡ counted stats + 1
unfolding count_state
counted-count_state queued stats = omega arith
counted-count_state running stats = omega arith
counted-count_state done stats = omega arith
counted-count_state failed stats = omega arith
counted-count_state canceled stats = omega arith

total-count_state :
    (state : JobState) (stats : JobStats) → (count_state state stats).total ≡ stats.total
unfolding count_state
total-count_state queued stats = refl
total-count_state running stats = refl
total-count_state done stats = refl
total-count_state failed stats = refl
total-count_state canceled stats = refl

count_states_lem :
    (jobs : List Job) (stats : JobStats)
    → (counted (count_states jobs stats) ≡ counted stats + length jobs)
      × ((count_states jobs stats).total ≡ stats.total)
unfolding count_states
count_states_lem [] stats = (omega arith, refl)
count_states_lem (job ∷ jobs) stats =
    let (sum, total) = count_states_lem jobs (count_state job.state stats) in
    (
      omega (arith, sum, counted-count_state job.state stats),
      total ∙ total-count_state job.state stats,
    )

-- The five counts of the statistics add up to the total, the number of jobs in the table.
pub job_table_collect_stats_lem :
    (table : JobTable)
    → let stats = job_table_collect_stats table in
      (stats.queued + stats.running + stats.done + stats.failed + stats.canceled ≡ stats.total)
      × (stats.total ≡ length table.jobs)
unfolding job_table_collect_stats
job_table_collect_stats_lem table =
    let start : JobStats = record {
      total = length table.jobs;
      queued = 0;
      running = 0;
      done = 0;
      failed = 0;
      canceled = 0;
    } in
    let (sum, total) = count_states_lem table.jobs start in (omega (arith, sum, total), total)

-- `item[256]`.
unfoldable pub list_item : Job → Bytes
list_item job = snprintf 256 (
    codes "id="
    ++ (decimal job.id
        ++ (codes ",type="
            ++ (job_type_to_string job.type
                ++ (codes ",state="
                    ++ (job_state_to_string job.state ++ (codes ",ip=" ++ job.owner_ip)))))))

-- The buffer after an item: a separator stands between items.
unfoldable pub joined : Bytes → Bytes → Bytes
joined [] item = item
joined buffer item = buffer ++ (b';' ∷ item)

-- `used + extra_sep + item_len + 1U`.
abbrev pub room_needed : Bytes → Bytes → ℕ
room_needed buffer item = length (joined buffer item) + 1

unfoldable pub list_items : ℕ → List Job → Bytes → Bytes
unfolding list_item joined
list_items buffer_size [] buffer = buffer
list_items buffer_size (job ∷ jobs) buffer =
    let rest = list_items buffer_size jobs (joined buffer (list_item job)) in
    if leb buffer_size (room_needed buffer (list_item job)) then buffer else rest

-- `none` for -1.
unfoldable pub job_table_format_list : JobTable → ℕ → Option Bytes
job_table_format_list table buffer_size =
    if buffer_size == 0
    then none
    else if length table.jobs == 0
    then some (snprintf buffer_size (codes "empty"))
    else some (list_items buffer_size table.jobs [])

list_items-lt :
    (buffer_size : ℕ) (jobs : List Job) (buffer : Bytes)
    → length buffer < buffer_size
    → length (list_items buffer_size jobs buffer) < buffer_size
unfolding list_items
list_items-lt buffer_size [] buffer h = h
list_items-lt buffer_size (job ∷ jobs) buffer h =
    elim (Bool-cases (leb buffer_size (room_needed buffer (list_item job)))) [
      | inl full ↦ simp full h
      | inr room ↦
          simp room (list_items-lt buffer_size jobs (joined buffer (list_item job)) (ground arith))
    ]

pub snprintf-lt : (size : ℕ) (text : Bytes) → 0 < size → length (snprintf size text) < size
snprintf-lt size text h = omega (arith, length-take (size - 1) text)

-- The list of jobs fits its buffer with the terminator, whatever the buffer's size and the number
-- of jobs; only a buffer of size 0 is refused.
pub job_table_format_list-lt :
    (table : JobTable) (buffer_size : ℕ)
    → 0 < buffer_size
    → (list : Bytes) × (job_table_format_list table buffer_size ≡ some list)
      × (length list < buffer_size)
unfolding job_table_format_list
job_table_format_list-lt table buffer_size h = elim (Bool-cases (length table.jobs == 0)) [
  | inl no_jobs ↦ (
    snprintf buffer_size (codes "empty"),
    ground arith,
    snprintf-lt buffer_size (codes "empty") h,
  )
  | inr jobs ↦ (
    list_items buffer_size table.jobs [],
    ground arith,
    list_items-lt buffer_size table.jobs [] h,
  )
]

-- The loop of `job_table_cancel_by_owner`: the jobs, and how many were asked to stop.
unfoldable pub cancel_owned : ℕ → List Job → List Job × ℕ
cancel_owned owner_fd [] = ([], 0)
cancel_owned owner_fd (job ∷ jobs) =
    let (rest, count) = cancel_owned owner_fd jobs in
    if (job.owner_fd == owner_fd) && is_active job.state
    then (record job { cancel_requested = true } ∷ rest, count + 1)
    else (job ∷ rest, count)

unfoldable pub job_table_cancel_by_owner : JobTable → ℕ → ℕ × JobTable
unfolding cancel_owned
job_table_cancel_by_owner table owner_fd =
    let (jobs, count) = cancel_owned owner_fd table.jobs in (count, record table { jobs = jobs })
