-- ===== src/Job/Table.antt =====
-- The job table of src/server/job.c: numbering and lookup.
use pcd.Prelude.{
  zero, sym, ap, ◌∙◌, length-set, get_elem?, set, ℕ, suc, ◌+◌, ◌-◌, ◌≤◌, ◌<◌, ◌≡◌, refl, arith,
  Bool, ◌||◌, ◌&&◌, Option, none, some, List, [], ◌∷◌, ◌++◌, Bytes, length, length-append, ltb,
  ◌==◌, if◌then◌else◌, Bool-cases, inl, inr,
}
use pcd.Job.{
  Job, JobTable, JobType, Timespec, max_jobs, new_job, job_table_init, job_table_create_job,
  job_table_find, find_from,
}

-- The identifiers are `first`, `first + 1`, ….
unfoldable pub Numbered : ℕ → List Job → Type 0
Numbered first [] = Unit
Numbered first (job ∷ jobs) = (job.id ≡ first) × Numbered (suc first) jobs

pub record IsValid (table : JobTable) : Type 0 where
  pub numbered : Numbered 1 table.jobs
  pub next : table.next_id ≡ length table.jobs + 1
  pub bounded : length table.jobs ≤ max_jobs

pub job_table_init-IsValid : IsValid job_table_init
unfolding job_table_init Numbered
job_table_init-IsValid = record { numbered = tt; next = refl; bounded = omega arith }

Numbered-push :
    (first : ℕ) (jobs : List Job) (job : Job)
    → Numbered first jobs
    → job.id ≡ first + length jobs
    → Numbered first (jobs ++ (job ∷ []))
unfolding Numbered
Numbered-push first [] job numbered e = (omega (arith, e), tt)
Numbered-push first (other ∷ jobs) job (here, numbered) e =
    (here, Numbered-push (suc first) jobs job numbered (omega (arith, e)))

module _ (now : Timespec) (owner_fd : ℕ) (owner_ip : Option Bytes) (type : JobType)
    (payload input_path : Option Bytes) where
  -- Creating a job, whether it succeeds or not, keeps the table valid: identifiers are given in
  -- order from 1, each once, and there are at most 1024 jobs.
  pub job_table_create_job-IsValid :
      (ready : Bool) (table : JobTable)
      → IsValid table
      → IsValid (job_table_create_job ready now table owner_fd owner_ip type payload input_path).1
  unfolding job_table_create_job new_job
  job_table_create_job-IsValid ready table valid =
      elim (Bool-cases (ready && ltb (length table.jobs) max_jobs)) [
        | inr refused ↦ simp refused valid
        | inl accepted ↦
            let small : length table.jobs < max_jobs = ground arith in
            simp accepted (record {
              numbered =
                  Numbered-push 1 table.jobs
                    (new_job table.next_id now owner_fd owner_ip type payload input_path)
                    valid.numbered (omega (arith, valid.next));
              next = omega (
                arith,
                valid.next,
                length-append table.jobs
                    (new_job table.next_id now owner_fd owner_ip type payload input_path ∷ []),
              );
              bounded = omega (
                arith,
                length-append table.jobs
                    (new_job table.next_id now owner_fd owner_ip type payload input_path ∷ []),
              );
            })
      ]

find_from-Numbered :
    (i first : ℕ) (jobs : List Job) (job_id : ℕ)
    → Numbered first jobs
    → first ≤ job_id
    → find_from i jobs job_id
      ≡ (if ltb job_id (first + length jobs) then some (i + (job_id - first)) else none)
unfolding Numbered find_from
find_from-Numbered i first [] job_id numbered le = ground arith
find_from-Numbered i first (job ∷ jobs) job_id (here, numbered) le =
    elim (Bool-cases (job.id == job_id)) [
      | inl found ↦ ground arith
      | inr other ↦
          ground (arith, find_from-Numbered (suc i) (suc first) jobs job_id numbered (ground arith))
    ]

-- In a valid table a lookup finds exactly the identifiers from 1 to the number of jobs, and the
-- job with identifier `n` at position `n - 1`.
pub job_table_find_lem :
    (table : JobTable) (job_id : ℕ)
    → IsValid table
    → job_table_find table job_id
      ≡ (if (job_id == 0) || ltb (length table.jobs) job_id then none else some (job_id - 1))
unfolding job_table_find
job_table_find_lem table job_id valid = elim (Bool-cases (job_id == 0)) [
  | inl zero_id ↦ ground arith
  | inr positive ↦
      ground (arith, find_from-Numbered 0 1 table.jobs job_id valid.numbered (ground arith))
]

Numbered-set :
    (first : ℕ) (jobs : List Job) (p : ℕ) (job after : Job)
    → Numbered first jobs
    → get_elem? jobs p ≡ some job
    → after.id ≡ job.id
    → Numbered first (set jobs p after)
unfolding Numbered
Numbered-set first [] p job after numbered e same = tt
Numbered-set first (j ∷ jobs) zero job after (here, numbered) e same = (cc, numbered)
Numbered-set first (j ∷ jobs) (suc p) job after (here, numbered) e same =
    (here, Numbered-set (suc first) jobs p job after numbered e same)

-- A job that is replaced by one with its number.
pub IsValid-set :
    (table : JobTable) (p : ℕ) (job after : Job)
    → IsValid table
    → get_elem? table.jobs p ≡ some job
    → after.id ≡ job.id
    → IsValid (record table { jobs = set table.jobs p after })
IsValid-set table p job after valid e same = record {
  numbered = Numbered-set 1 table.jobs p job after valid.numbered e same;
  next = valid.next ∙ ap (λ (n : ℕ). n + 1) (sym (length-set table.jobs p after));
  bounded = omega (arith, valid.bounded, length-set table.jobs p after);
}
