-- ===== src/Worker/RoundTrip.antt =====
-- A text through two jobs of src/server/worker.c: hidden by one, found again by the other.
use pcd.Prelude.{
  ℕ, ◌+◌, ◌≤◌, ◌<◌, ◌≡◌, refl, sym, ap, ◌∙◌, subst, arith, Bool, true, false, some, Bytes, codes,
  length, length-take, take, take_all, bytes_eq_refl, inl, inr, Bool-cases, Option-cases, ltb,
  ltb→lt, ◌==◌, snprintf,
}
use pcd.Job.{
  Job, JobState, done, failed, canceled, job_set_state, job_set_result, job_set_output_path,
  job_set_result_meta,
}
use pcd.Job.History.{job_get_input_path, job_get_stored_path}
use pcd.Stego.{Result, ok}
use pcd.Stego.Pixels.{IsBytes}
use pcd.Stego.Codec.{stego_encode_text, stego_decode}
use pcd.Stego.Codec.Loading.{IsLibpng, HasMemory}
use pcd.Stego.Codec.Transfer.{Result-cases, stego_decode-encode_text}
use pcd.Storage.{
  StorageDirs, Files, put_file, storage_make_result_path, max_job_path, job_file_text,
}
use pcd.Worker.{
  Setting, buffer, observe, max_text_bytes, end_job, read_text_file, end_encoding,
  process_encode_text_job, write_text_to_file, write_result, end_decoding, process_decode_job,
}

abbrev pub stored_path : Job → Bytes
stored_path job = buffer (job_get_stored_path job max_job_path)

failed_done : Path JobState failed done → ⊥
failed_done e = ground (arith, e)

canceled_done : Path JobState canceled done → ⊥
canceled_done e = ground (arith, e)

result_path-lt :
    (dirs : StorageDirs) (job_id : ℕ) (suffix path : Bytes)
    → storage_make_result_path dirs job_id suffix max_job_path ≡ some path
    → length path < max_job_path
unfolding storage_make_result_path
result_path-lt dirs job_id suffix path built =
    elim (Bool-cases (ltb (length (job_file_text dirs.results job_id suffix)) max_job_path)) [
      | inr long ↦ absurd (ground (arith, long, built))
      | inl fits ↦
          let same : job_file_text dirs.results job_id suffix ≡ path =
            ground (arith, fits, built) in
          subst (λ (p : Bytes). length p < max_job_path) same (ltb→lt _ _ fits)
    ]

module _ (s : Setting) where
  -- A job that ended as done hid the text in a file at its output path.
  encode_text_done :
      (arrives : Bool) (files : Files) (job : Job) (text : Bytes)
      → read_text_file s files (stored_path job) (max_text_bytes + 1) ≡ some text
      → (process_encode_text_job s arrives files job).1.0.state ≡ done
      → (out_path : Bytes) × (storage_make_result_path s.dirs job.id (codes "png") max_job_path
          ≡ some out_path)
        × (stego_encode_text s.platform files
              (buffer (job_get_input_path job max_job_path))
              out_path
              text
            ≡ (ok tt, (process_encode_text_job s arrives files job).1.1))
        × ((process_encode_text_job s arrives files job).1.0.output_path ≡ snprintf 512 out_path)
  unfolding process_encode_text_job end_encoding end_job job_set_state job_set_result
      job_set_output_path job_set_result_meta
  encode_text_done arrives files job text read ended =
      elim (Option-cases (storage_make_result_path s.dirs job.id (codes "png") max_job_path)) [
        | inl long ↦ absurd (failed_done (sym (rw (process_encode_text_job, long) refl) ∙ ended))
        | inr (out_path, built) ↦ elim (Bool-cases (observe arrives job).cancel_requested) [
          | inl asked ↦
              absurd (
                canceled_done (sym (rw (process_encode_text_job, built, read, asked) refl) ∙ ended))
          | inr free ↦
              elim (Result-cases
                (stego_encode_text s.platform files (buffer (job_get_input_path job max_job_path))
                  out_path text).0) [
                    | inr (rc, bad) ↦ absurd (
                        failed_done (
                          sym (
                            rw (process_encode_text_job, built, read, free, end_encoding, bad) refl)
                          ∙ ended))
                    | inl (u, good) ↦
                        let answer =
                          stego_encode_text s.platform files
                            (buffer (job_get_input_path job max_job_path)) out_path text in
                        let written : (process_encode_text_job s arrives files job).1.1 ≡ answer.1 =
                          rw (process_encode_text_job, built, read, free, end_encoding, good)
                            refl in
                        (
                          out_path,
                          built,
                          ap (λ (r : Result (Unit {0})). (r, answer.1)) good
                              ∙ ap (λ (f : Files). (ok tt, f)) (sym written),
                          rw (process_encode_text_job, built, read, free, end_encoding, good) refl,
                        )
                  ]
        ]
      ]

  length-read :
      (files : Files) (path text : Bytes)
      → read_text_file s files path (max_text_bytes + 1) ≡ some text
      → length text ≤ max_text_bytes
  unfolding read_text_file
  length-read files path text read = elim (Option-cases (files path)) [
    | inl missing ↦ absurd (ground (arith, missing, read))
    | inr (contents, found) ↦
        let same : take (s.bytes_read path) (take max_text_bytes contents) ≡ text =
          ground (arith, found, read) in
        subst (λ (t : Bytes). length t ≤ max_text_bytes) same
          (omega (
            arith,
            length-take (s.bytes_read path) (take max_text_bytes contents),
            length-take max_text_bytes contents,
          ))
  ]

  input_path-whole :
      (job : Job) (path : Bytes)
      → length path < max_job_path
      → job.input_path ≡ snprintf 512 path
      → buffer (job_get_input_path job max_job_path) ≡ path
  unfolding job_get_input_path
  input_path-whole job path short same =
      let whole : take 511 path ≡ path = take_all 511 path (omega (arith, short)) in
      ap (take 511) (same ∙ whole) ∙ whole

  -- A text of bytes that one job hid in an image is what a later job finds in it: when the first
  -- job is done, the second reads the file that the first wrote, is not asked to stop, and can
  -- write its result, it is done too and its output file holds the text. The text is what the
  -- first job read, and libpng is lossless with memory at hand.
  pub process_decode_job-encode_text :
      (arrives arrives' : Bool) (files : Files) (job later : Job) (text out_path : Bytes)
      → IsLibpng s.platform
      → HasMemory s.platform
      → IsBytes text
      → read_text_file s files (stored_path job) (max_text_bytes + 1) ≡ some text
      → (process_encode_text_job s arrives files job).1.0.state ≡ done
      → later.input_path ≡ (process_encode_text_job s arrives files job).1.0.output_path
      → (observe arrives' later).cancel_requested ≡ false
      → storage_make_result_path s.dirs later.id (codes "txt") max_job_path ≡ some out_path
      → s.disk.can_open out_path ≡ true
      → s.disk.can_close out_path ≡ true
      → length text ≤ s.bytes_written out_path
      → let (found, files') =
          (process_decode_job s arrives'
            (process_encode_text_job s arrives files job).1.1
            later).1 in
        (found.state ≡ done) × (found.output_path ≡ out_path) × (files' out_path ≡ some text)
  unfolding process_decode_job write_result write_text_to_file end_decoding end_job job_set_state
      job_set_result job_set_output_path job_set_result_meta put_file
  process_decode_job-encode_text arrives arrives' files job later text out_path lib memory bytes
        read ended same free built opens closes room =
      let (png_path, png_built, encoded, output) =
        encode_text_done arrives files job text read ended in
      let files' = (process_encode_text_job s arrives files job).1.1 in
      let from =
        input_path-whole later png_path
          (result_path-lt s.dirs job.id (codes "png") png_path png_built) (same ∙ output) in
      let decoded =
        ap (stego_decode s.platform files') from
        ∙ stego_decode-encode_text s.platform files files'
            (buffer (job_get_input_path job max_job_path)) png_path text lib memory bytes
            (omega (arith, length-read files (stored_path job) text read)) encoded in
      let whole : take (s.bytes_written out_path) text ≡ text =
        take_all (s.bytes_written out_path) text room in
      let complete : (length text == length text) ≡ true = ground arith in
      let short = result_path-lt s.dirs later.id (codes "txt") out_path built in
      (
        rw
            (
              process_decode_job, free, decoded, built, end_decoding, write_result,
              write_text_to_file, opens, whole, complete, closes,
            )
            refl,
        rw
            (
              process_decode_job, free, decoded, built, end_decoding, write_result,
              write_text_to_file, opens, whole, complete, closes,
            )
            (take_all 511 out_path (omega (arith, short))),
        rw
            (
              process_decode_job, free, decoded, built, end_decoding, write_result,
              write_text_to_file, opens, whole, complete, closes,
            )
            (rw (put_file, bytes_eq_refl out_path) refl),
      )
