-- ===== src/Job/Cancel.antt =====
-- What `job_table_cancel_by_owner` of src/server/job.c does to the table. No other part of the
-- program calls it yet.
use pcd.Prelude.{
  ℕ, zero, suc, ◌+◌, ◌≡◌, refl, ap, arith, Bool, true, false, ◌&&◌, some, List, [], ◌∷◌, length,
  get_elem?, ◌==◌, if◌then◌else◌, Bool-cases, inl, inr,
}
use pcd.Job.{Job, JobTable, is_active}
use pcd.Job.Table.{Numbered, IsValid}
use pcd.Job.Report.{cancel_owned, job_table_cancel_by_owner}

-- A queued or running job of this client.
abbrev pub owned : ℕ → Job → Bool
owned owner_fd job = (job.owner_fd == owner_fd) && is_active job.state

-- How many there are.
unfoldable pub count_owned : ℕ → List Job → ℕ
count_owned owner_fd [] = 0
count_owned owner_fd (job ∷ jobs) =
    (if owned owner_fd job then 1 else 0) + count_owned owner_fd jobs

cancel_yes :
    (owner_fd : ℕ) (job : Job) (jobs : List Job)
    → owned owner_fd job ≡ true
    → cancel_owned owner_fd (job ∷ jobs) ≡ (
      record job { cancel_requested = true } ∷ (cancel_owned owner_fd jobs).0,
      (cancel_owned owner_fd jobs).1 + 1,
    )
unfolding cancel_owned
cancel_yes owner_fd job jobs mine = simp mine

cancel_no :
    (owner_fd : ℕ) (job : Job) (jobs : List Job)
    → owned owner_fd job ≡ false
    → cancel_owned owner_fd (job ∷ jobs)
      ≡ (job ∷ (cancel_owned owner_fd jobs).0, (cancel_owned owner_fd jobs).1)
unfolding cancel_owned
cancel_no owner_fd job jobs other = simp other

cancel_owned-get_elem? :
    (owner_fd : ℕ) (jobs : List Job) (p : ℕ) (job : Job)
    → get_elem? jobs p ≡ some job
    → get_elem? (cancel_owned owner_fd jobs).0 p
      ≡ some (if owned owner_fd job then record job { cancel_requested = true } else job)
cancel_owned-get_elem? owner_fd [] p job e = cc
cancel_owned-get_elem? owner_fd (first ∷ jobs) zero job e =
    elim (Bool-cases (owned owner_fd first)) [
      | inl mine ↦ rw (cancel_yes owner_fd first jobs mine) (ground (arith, e, mine))
      | inr other ↦ rw (cancel_no owner_fd first jobs other) (ground (arith, e, other))
    ]
cancel_owned-get_elem? owner_fd (first ∷ jobs) (suc p) job e =
    elim (Bool-cases (owned owner_fd first)) [
      | inl mine ↦
          rw (cancel_yes owner_fd first jobs mine) (cancel_owned-get_elem? owner_fd jobs p job e)
      | inr other ↦
          rw (cancel_no owner_fd first jobs other) (cancel_owned-get_elem? owner_fd jobs p job e)
    ]

cancel_owned-count :
    (owner_fd : ℕ) (jobs : List Job) → (cancel_owned owner_fd jobs).1 ≡ count_owned owner_fd jobs
unfolding cancel_owned count_owned
cancel_owned-count owner_fd [] = refl
cancel_owned-count owner_fd (job ∷ jobs) = elim (Bool-cases (owned owner_fd job)) [
  | inl mine ↦
      rw (cancel_yes owner_fd job jobs mine, mine) (omega (arith, cancel_owned-count owner_fd jobs))
  | inr other ↦
      rw (cancel_no owner_fd job jobs other, other)
        (omega (arith, cancel_owned-count owner_fd jobs))
]

cancel_owned-Numbered :
    (owner_fd first : ℕ) (jobs : List Job)
    → Numbered first jobs
    → Numbered first (cancel_owned owner_fd jobs).0
unfolding Numbered cancel_owned
cancel_owned-Numbered owner_fd first [] numbered = tt
cancel_owned-Numbered owner_fd first (job ∷ jobs) (here, numbered) =
    elim (Bool-cases (owned owner_fd job)) [
      | inl mine ↦
          rw (cancel_yes owner_fd job jobs mine)
            (here, cancel_owned-Numbered owner_fd (suc first) jobs numbered)
      | inr other ↦
          rw (cancel_no owner_fd job jobs other)
            (here, cancel_owned-Numbered owner_fd (suc first) jobs numbered)
    ]

length-cancel_owned :
    (owner_fd : ℕ) (jobs : List Job) → length (cancel_owned owner_fd jobs).0 ≡ length jobs
unfolding cancel_owned
length-cancel_owned owner_fd [] = refl
length-cancel_owned owner_fd (job ∷ jobs) = elim (Bool-cases (owned owner_fd job)) [
  | inl mine ↦ rw (cancel_yes owner_fd job jobs mine) (ap suc (length-cancel_owned owner_fd jobs))
  | inr other ↦ rw (cancel_no owner_fd job jobs other) (ap suc (length-cancel_owned owner_fd jobs))
]

-- In a valid table, `job_table_cancel_by_owner` asks each queued or running job of the owner to stop,
-- wherever it stands, and leaves every other job and the rest of these as they are; it reports how
-- many it asked, there are no more jobs than before, and the table stays valid.
pub job_table_cancel_by_owner_lem :
    (table : JobTable) (owner_fd p : ℕ) (job : Job)
    → IsValid table
    → get_elem? table.jobs p ≡ some job
    → (get_elem? (job_table_cancel_by_owner table owner_fd).1.jobs p
        ≡ some (if owned owner_fd job then record job { cancel_requested = true } else job))
      × ((job_table_cancel_by_owner table owner_fd).0 ≡ count_owned owner_fd table.jobs)
      × (length (job_table_cancel_by_owner table owner_fd).1.jobs ≡ length table.jobs)
      × IsValid (job_table_cancel_by_owner table owner_fd).1
unfolding job_table_cancel_by_owner
job_table_cancel_by_owner_lem table owner_fd p job valid found =
    let same = length-cancel_owned owner_fd table.jobs in
    (
      cancel_owned-get_elem? owner_fd table.jobs p job found,
      cancel_owned-count owner_fd table.jobs,
      same,
      record {
        numbered = cancel_owned-Numbered owner_fd 1 table.jobs valid.numbered;
        next = omega (arith, valid.next, same);
        bounded = omega (arith, valid.bounded, same);
      },
    )
