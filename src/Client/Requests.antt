-- ===== src/Client/Requests.antt =====
-- What src/client/main.c writes for a command: the line, and the files behind it.
use pcd.Prelude.{
  ℕ, zero, suc, ◌+◌, ◌*◌, ◌<◌, ◌≡◌, refl, sym, ap, ◌∙◌, arith, true, Option, some, ◌++◌,
  append_assoc, Bytes, length, length-append, length-drop, length-take, take, drop, take_all,
  take-append-drop, ltb, ltb→lt, ltb_false→le, Bool-cases, inl, inr, subst, if◌then◌else◌,
}
use pcd.Net.{Descriptor, chunk_size, write_all}
use pcd.Net.Left.{CanWrite, CanWrite-le, write_all-CanWrite}
use pcd.Storage.{send_rounds}
use pcd.Client.Session.{
  ClientState, Client, ◌>>◌, LocalDisk, send_bytes, send_line, send_chunks, send_file_bytes,
}

-- The text has been written and nothing read; calls for `more` bytes are left.
pub record Sent (before after : Descriptor) (text : Bytes) (more : ℕ) : Type 0 where
  pub output : after.output ≡ before.output ++ text
  pub input : after.input ≡ before.input
  pub reads : after.reads ≡ before.reads
  pub ready : CanWrite after more

pub write_all-Sent :
    (fd : Descriptor) (text : Bytes) (more : ℕ)
    → CanWrite fd (length text + more)
    → ((write_all fd text).0 ≡ some (length text)) × Sent fd (write_all fd text).1 text more
unfolding write_all
write_all-Sent fd text more can =
    let (count, output, ready) = write_all-CanWrite fd text more can in
    (count, record { output = output; input = refl; reads = refl; ready = ready })

pub Sent-append :
    (a b c : Descriptor) (x y : Bytes) (more : ℕ)
    → Sent a b x (length y + more)
    → Sent b c y more
    → Sent a c (x ++ y) more
Sent-append a b c x y more first second = record {
  output = second.output ∙ ap (λ (o : Bytes). o ++ y) first.output ∙ append_assoc a.output x y;
  input = second.input ∙ first.input;
  reads = second.reads ∙ first.reads;
  ready = second.ready;
}

chunk_step :
    (fuel total : ℕ) (fd : Descriptor) (contents : Bytes)
    → (write_all fd (take chunk_size contents)).0 ≡ some total
    → send_chunks (suc fuel) true fd contents ≡ (
        if ltb (length (take chunk_size contents)) chunk_size
        then (some tt, (write_all fd (take chunk_size contents)).1)
        else send_chunks fuel true
            (write_all fd (take chunk_size contents)).1
            (drop chunk_size contents))
unfolding send_chunks
chunk_step fuel total fd contents w =
    elim (Bool-cases (ltb (length (take chunk_size contents)) chunk_size)) [
      | inl short ↦ rw (send_chunks, w, short) refl
      | inr full ↦ rw (send_chunks, w, full) refl
    ]

send_chunks-Sent :
    (fuel : ℕ) (fd : Descriptor) (contents : Bytes) (more : ℕ)
    → length contents < fuel * chunk_size
    → CanWrite fd (length contents + more)
    → ((send_chunks fuel true fd contents).0 ≡ some tt)
      × Sent fd (send_chunks fuel true fd contents).1 contents more
send_chunks-Sent zero fd contents more fuel_ok can = absurd (omega arith)
send_chunks-Sent (suc fuel) fd contents more fuel_ok can =
    let part = take chunk_size contents in
    let left = drop chunk_size contents in
    let cut = take-append-drop chunk_size contents in
    let sizes : length part + (length left + more) ≡ length contents + more =
      omega (arith, length-append part left, ap (length {A = ℕ}) cut) in
    let (count, wrote) =
      write_all-Sent fd part (length left + more) (subst (CanWrite fd) (sym sizes) can) in
    rw (chunk_step fuel (length part) fd contents count)
      (elim (Bool-cases (ltb (length part) chunk_size)) [
        | inl short ↦
            let whole : part ≡ contents = take_all chunk_size contents (
              omega
                (arith, length-take chunk_size contents, ltb→lt (length part) chunk_size short)) in
            rw short (
              refl,
              record {
                output = wrote.output ∙ ap (◌++◌ fd.output) whole;
                input = wrote.input;
                reads = wrote.reads;
                ready =
                    CanWrite-le (write_all fd part).1 more (length left + more) wrote.ready
                      (omega arith);
              },
            )
        | inr full ↦
            let (done, sent) =
              send_chunks-Sent fuel (write_all fd part).1 left more
                (omega (
                  arith,
                  length-drop chunk_size contents,
                  length-take chunk_size contents,
                  ltb_false→le (length part) chunk_size full,
                  fuel_ok,
                ))
                wrote.ready in
            rw full (
              done,
              subst
                  (λ (t : Bytes).
                    Sent fd (send_chunks fuel true (write_all fd part).1 left).1 t more)
                  cut
                  (Sent-append fd (write_all fd part).1
                    (send_chunks fuel true (write_all fd part).1 left).1 part left more wrote sent),
            )
      ])

-- A step that ends well, has written the text, and leaves the files alone.
pub record Wrote (s : ClientState) (result : Option (Unit {0}) × ClientState) (text : Bytes)
    (more : ℕ) : Type 0 where
  pub done : result.0 ≡ some tt
  pub sent : Sent s.connection result.1.connection text more
  pub files : result.1.files ≡ s.files

pub send_bytes-Wrote :
    (s : ClientState) (text : Bytes) (more : ℕ)
    → CanWrite s.connection (length text + more)
    → Wrote s (send_bytes text s) text more
unfolding send_bytes
send_bytes-Wrote s text more can =
    let (count, sent) = write_all-Sent s.connection text more can in
    record { done = rw (send_bytes, count) refl; sent = sent; files = refl }

pub send_line-Wrote :
    (s : ClientState) (text : Bytes) (more : ℕ)
    → CanWrite s.connection (length text + more)
    → Wrote s (send_line text s) text more
unfolding send_line
send_line-Wrote s text more can = send_bytes-Wrote s text more can

send_file_bytes_lem :
    (disk : LocalDisk) (s : ClientState) (path contents : Bytes)
    → s.files path ≡ some contents
    → disk.can_seek path ≡ true
    → disk.can_read path ≡ true
    → send_file_bytes disk path s ≡ (
      (send_chunks (send_rounds contents) true s.connection contents).0,
      record s { connection = (send_chunks (send_rounds contents) true s.connection contents).1 },
    )
unfolding send_file_bytes
send_file_bytes_lem disk s path contents found seeks reads =
    rw (send_file_bytes, found, seeks, reads) refl

pub send_file_bytes-Wrote :
    (disk : LocalDisk) (s : ClientState) (path contents : Bytes) (more : ℕ)
    → s.files path ≡ some contents
    → disk.can_seek path ≡ true
    → disk.can_read path ≡ true
    → CanWrite s.connection (length contents + more)
    → Wrote s (send_file_bytes disk path s) contents more
send_file_bytes-Wrote disk s path contents more found seeks reads can =
    let (done, sent) =
      send_chunks-Sent (send_rounds contents) s.connection contents more (omega arith) can in
    rw (send_file_bytes_lem disk s path contents found seeks reads)
      (record { done = done; sent = sent; files = refl })

-- A step that has written is followed by the next one.
pub Wrote-append :
    (s : ClientState) (first next : Client (Unit {0})) (x y : Bytes) (more : ℕ)
    → Wrote s (first s) x (length y + more)
    → (Wrote (first s).1 (next (first s).1) y more)
    → Wrote s ((first >> next) s) (x ++ y) more
Wrote-append s first next x y more a b =
    let on : (first >> next) s ≡ next (first s).1 = rw a.done refl in
    subst (λ (r : Option (Unit {0}) × ClientState). Wrote s r (x ++ y) more) (sym on)
      (record {
        done = b.done;
        sent =
            Sent-append s.connection (first s).1.connection (next (first s).1).1.connection x y more
              a.sent b.sent;
        files = b.files ∙ a.files;
      })
