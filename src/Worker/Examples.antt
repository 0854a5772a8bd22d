-- ===== src/Worker/Examples.antt =====
-- Tests of the model of src/server/worker.c, and its theorems at concrete inputs.
use pcd.Prelude.{
  replicate, bytes_eq, if◌then◌else◌, ◌==◌, ◌≡◌, refl, arith, true, false, none, some, [], ◌∷◌,
  ◌++◌, codes, get_elem?, set, ◌+◌, decimal,
}
use pcd.Job.{
  Job, done, text, decode, encode_text, job_set_stored_path, job_table_init, job_table_create_job,
  new_job, job_request_cancel, is_active, job_set_state, job_set_result, canceled,
}
use pcd.Job.History.{job_get_payload}
use pcd.Job.Table.{IsValid, job_table_init-IsValid, job_table_create_job-IsValid}
use pcd.Queue.{job_queue_init, job_queue_push, store, set_next}
use pcd.Queue.Cells.{Chain, Distinct, last_address}
use pcd.Queue.Refinement.{Implements}
use pcd.Queue.Represents.{Represents}
use pcd.Storage.{default_dirs}
use pcd.Stego.Toy.{toy, toy_png, toy-IsLibpng, toy-HasMemory}
use pcd.Stego.{Image, rgb}
use pcd.Worker.RoundTrip.{stored_path, process_decode_job-encode_text}
use pcd.Stego.{image_data_bit_capacity, data_channels, embed_bits}
use pcd.Stego.Png.{png_load_rgb_or_rgba, load_pixels, transforms, png_save_rgb_or_rgba, update_file}
use pcd.Stego.Container.{stored_name, container_body, build_container, write_be16, write_be32}
use pcd.Stego.Codec.{stego_encode_text, encode_common, encode_image}
use pcd.Job.{job_set_output_path, job_set_result_meta}
use pcd.Job.History.{job_get_input_path, job_get_stored_path}
use pcd.Storage.{Files, storage_make_result_path, get_file_size_bytes}
use pcd.Worker.{
  max_text_bytes, end_encoding, read_text_file, process_encode_text_job, process_decode_job,
  Setting, observe, end_job, text_steps, end_text, process_text_job, process_job, settle, run_job,
}
use pcd.Worker.Outcome.{IsOver}
use pcd.Worker.Thread.{Shared, worked, worker_round, worker_round_lem}

abbrev pub toy_setting : Setting
toy_setting = record {
  platform = toy;
  get_channels = λ info. 3;
  disk = record {
    can_open = λ path. true;
    can_store = λ path n. true;
    can_close = λ path. true;
    can_read = λ path. true;
  };
  bytes_read = λ path. 1000;
  bytes_written = λ path. 1000;
  dirs = default_dirs;
  worker_index = 2;
  started = (6, 0);
  finished = (7, 0);
}

abbrev text_job : Job
text_job = new_job 1 (5, 0) 9 (some (codes "10.0.0.1")) text (some (codes "hello")) none

abbrev one_job : Shared
one_job = record {
  queue = (job_queue_push (some 10) 0 (job_queue_init (λ a. none))).1;
  table =
      (job_table_create_job true (5, 0) job_table_init 9 (some (codes "10.0.0.1")) text
        (some (codes "hello")) none).1;
  files = λ path. none;
  events = [];
}

one_job-Represents : Represents one_job.queue ((10, 0) ∷ [])
unfolding job_queue_push job_queue_init store set_next Chain Distinct last_address
one_job-Represents = record { chain = (refl, none, refl, refl); tail = refl; distinct = (tt, tt) }

one_job-Implements : Implements one_job.queue (record { jobs = 0 ∷ []; stopped = false })
unfolding Implements job_queue_push job_queue_init
one_job-Implements = ((10, 0) ∷ [], one_job-Represents, refl, refl)

one_job-IsValid : IsValid one_job.table
one_job-IsValid =
    job_table_create_job-IsValid (5, 0) 9 (some (codes "10.0.0.1")) text (some (codes "hello")) none
      true job_table_init job_table_init-IsValid

found_job : get_elem? one_job.table.jobs 0 ≡ some text_job
unfolding job_table_create_job job_table_init new_job
found_job = refl

worker_round_lem_example :
    (after : Shared) × (job' : Job) × (worker_round toy_setting true (λ n. false) one_job
      ≡ worked after)
    × (get_elem? after.table.jobs 0 ≡ some job')
    × (after.table ≡ record one_job.table { jobs = set one_job.table.jobs 0 job' })
    × IsOver text_job job'
    × Implements after.queue (record { jobs = []; stopped = false })
    × IsValid after.table
    × (after.events ≡ [] ++ (record { job_id = text_job.id; state = job'.state } ∷ []))
worker_round_lem_example =
    worker_round_lem toy_setting (λ n. false) one_job 0 [] text_job one_job-Implements
      one_job-IsValid found_job

text_result :
    (run_job toy_setting (λ n. false) (λ path. none) text_job).0.result
    ≡ codes "processed_by_worker_2: hello"
unfolding run_job observe process_job process_text_job text_steps end_text settle end_job
    job_set_state job_set_result new_job job_get_payload decimal
text_result = refl

-- A request before the third step.
text_stopped : (run_job toy_setting (λ n. n == 3) (λ path. none) text_job).0.state ≡ canceled
unfolding run_job observe process_job process_text_job text_steps end_text settle end_job
    job_set_state job_set_result new_job job_get_payload job_request_cancel is_active decimal
text_stopped = refl

abbrev carrier : Image
carrier = record {
  width = 10;
  height = 7;
  bit_depth = 8;
  color_type = rgb;
  channels = 3;
  rows = replicate 7 (replicate 30 200);
}

abbrev disk_files : Files
disk_files path =
    if bytes_eq path (codes "in.png")
    then some (toy_png carrier)
    else if bytes_eq path (codes "t")
    then some (codes "secret")
    else none

abbrev encoder : Job
encoder =
    job_set_stored_path (new_job 1 (5, 0) 9 none encode_text none (some (codes "in.png")))
      (codes "t")

abbrev decoder : Job
decoder = new_job 2 (5, 0) 9 none decode none (some (codes "storage/results/job_1.png"))

encoder_reads :
    read_text_file toy_setting disk_files (stored_path encoder) (max_text_bytes + 1)
    ≡ some (codes "secret")
unfolding read_text_file bytes_eq new_job job_set_stored_path job_get_stored_path
encoder_reads = refl

encoder_ends :
    ((process_encode_text_job toy_setting false disk_files encoder).1.0.state ≡ done)
    × (decoder.input_path
        ≡ (process_encode_text_job toy_setting false disk_files encoder).1.0.output_path)
unfolding process_encode_text_job storage_make_result_path decimal default_dirs read_text_file
    observe end_encoding end_job job_set_state job_set_result job_set_output_path
    job_set_result_meta job_get_input_path job_get_stored_path get_file_size_bytes stego_encode_text
    encode_common png_load_rgb_or_rgba load_pixels transforms encode_image build_container
    stored_name container_body write_be16 write_be32 image_data_bit_capacity data_channels
    embed_bits png_save_rgb_or_rgba update_file bytes_eq toy new_job job_set_stored_path
encoder_ends = (refl, refl)

decoder_path :
    storage_make_result_path default_dirs decoder.id (codes "txt") 512
    ≡ some (codes "storage/results/job_2.txt")
unfolding storage_make_result_path default_dirs decimal new_job
decoder_path = refl

decoder_free : (observe false decoder).cancel_requested ≡ false
unfolding observe new_job
decoder_free = refl

process_decode_job-encode_text_example :
    let (found, files') =
      (process_decode_job toy_setting false
        (process_encode_text_job toy_setting false disk_files encoder).1.1
        decoder).1 in
    (found.state ≡ done)
    × (found.output_path ≡ codes "storage/results/job_2.txt")
    × (files' (codes "storage/results/job_2.txt") ≡ some (codes "secret"))
process_decode_job-encode_text_example =
    process_decode_job-encode_text toy_setting false false disk_files encoder decoder
      (codes "secret") (codes "storage/results/job_2.txt") toy-IsLibpng toy-HasMemory (omega arith)
      encoder_reads encoder_ends.0 encoder_ends.1 decoder_free decoder_path refl refl (omega arith)
