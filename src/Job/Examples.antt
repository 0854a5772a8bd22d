-- ===== src/Job/Examples.antt =====
-- Tests of the model of src/server/job.c, and its theorems at concrete inputs.
use mathlib.Core.List.{Sublistᴰ}
use pcd.Prelude.{
  ◌<◌, ◌≡◌, ◌||◌, ◌+◌, ◌⊎◌, refl, arith, true, false, none, some, List, All, Bytes, codes, length,
  map, ◌≤◌, decimal, get_elem?, ltb, ◌==◌, ◌-◌, if◌then◌else◌,
}
use pcd.Job.{
  Job, JobTable, Timespec, encode_text, decode, job_table_init, job_table_create_job,
  job_table_find, job_set_state, done, new_job, is_active, job_type_to_string, job_state_to_string,
}
use pcd.Job.Table.{
  IsValid, job_table_init-IsValid, job_table_create_job-IsValid, job_table_find_lem,
}
use pcd.Job.Report.{
  job_table_format_list, job_table_format_list-lt, job_table_cancel_by_owner, list_items,
}
use pcd.Job.History.{job_table_format_history}
use pcd.Job.Recent.{history_text, listing, latest, job_table_format_history_lem}
use pcd.Job.Cancel.{owned, count_owned, job_table_cancel_by_owner_lem}

abbrev one_job : JobTable
one_job =
    (job_table_create_job true (5, 0) job_table_init 9 (some (codes "10.0.0.1")) encode_text
      (some (codes "hello")) none).1

one_job-IsValid : IsValid one_job
one_job-IsValid =
    job_table_create_job-IsValid (5, 0) 9 (some (codes "10.0.0.1")) encode_text
      (some (codes "hello")) none true job_table_init job_table_init-IsValid

job_table_create_job-IsValid_example :
    IsValid (job_table_create_job true (6, 0) one_job 9 none decode none none).1
job_table_create_job-IsValid_example =
    job_table_create_job-IsValid (6, 0) 9 none decode none none true one_job one_job-IsValid

job_table_find_lem_example :
    job_table_find one_job 1
    ≡ (if (1 == 0) || ltb (length one_job.jobs) 1 then none else some (1 - 1))
job_table_find_lem_example = job_table_find_lem one_job 1 one_job-IsValid

job_table_format_list-lt_example :
    (list : Bytes) × (job_table_format_list one_job 64 ≡ some list) × (length list < 64)
job_table_format_list-lt_example = job_table_format_list-lt one_job 64 (omega arith)

abbrev first_job : Job
first_job = new_job 1 (5, 0) 9 (some (codes "10.0.0.1")) encode_text (some (codes "hello")) none

first_found : get_elem? one_job.jobs 0 ≡ some first_job
unfolding job_table_create_job job_table_init new_job
first_found = refl

job_table_cancel_by_owner_lem_example :
    (get_elem? (job_table_cancel_by_owner one_job 9).1.jobs 0
      ≡ some
          (if owned 9 first_job then record first_job { cancel_requested = true } else first_job))
    × ((job_table_cancel_by_owner one_job 9).0 ≡ count_owned 9 one_job.jobs)
    × (length (job_table_cancel_by_owner one_job 9).1.jobs ≡ length one_job.jobs)
    × IsValid (job_table_cancel_by_owner one_job 9).1
job_table_cancel_by_owner_lem_example =
    job_table_cancel_by_owner_lem one_job 9 0 first_job one_job-IsValid first_found

lists_the_job :
    job_table_format_list one_job 4096
    ≡ some (codes "id=1,type=ENCODE_TEXT,state=QUEUED,ip=10.0.0.1")
unfolding job_table_format_list job_table_create_job job_table_init new_job list_items decimal
    job_type_to_string job_state_to_string
lists_the_job = refl

cancels_one : (job_table_cancel_by_owner one_job 9).0 ≡ 1
unfolding job_table_cancel_by_owner job_table_create_job job_table_init new_job is_active
cancels_one = refl

abbrev done_job : JobTable
done_job = record {
  jobs = map (λ (job : Job). job_set_state (7, 0) job done) one_job.jobs;
  next_id = 2;
}

abbrev took : Timespec → Timespec → Bytes
took start end = codes "2000.0"

job_table_format_history_lem_example :
    (list : Bytes) × (chosen : List Job) × (job_table_format_history took done_job 4096 5
      ≡ some list)
    × (length list < 4096)
    × (list ≡ history_text took 4096 chosen)
    × (length chosen ≤ 5)
    × Sublistᴰ chosen done_job.jobs
    × All (λ job. is_active job.state ≡ false) chosen
    × ((4096 ≤ length (listing took (latest 5 done_job.jobs)) + 1)
        ⊎ (chosen ≡ latest 5 done_job.jobs))
job_table_format_history_lem_example =
    job_table_format_history_lem took done_job 4096 5 (omega arith)
