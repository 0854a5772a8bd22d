-- ===== src/Job/Recent.antt =====
-- What `job_table_format_history` of src/server/job.c lists: which jobs, how many, and as what text.
use mathlib.Core.List.{Sublistᴰ}
use pcd.Prelude.{
  ℕ, suc, ◌+◌, ◌-◌, ◌≤◌, ◌<◌, ◌≡◌, refl, sym, ap, ◌∙◌, arith, true, false, not, ◌&&◌, some, List,
  [], ◌∷◌, ◌++◌, All, Bytes, codes, length, length-append, length-drop, drop, ltb, ltb→lt,
  ltb_false→le, ◌⊎◌, ◌==◌, if◌then◌else◌, snprintf, Bool-cases, inl, inr,
}
use pcd.Job.{Job, JobTable, Timespec, is_active}
use pcd.Job.Report.{joined, room_needed, snprintf-lt}
use pcd.Job.History.{history_item, history_items, job_table_format_history}

-- The jobs that are over, in the order of the table.
unfoldable pub finished : List Job → List Job
finished [] = []
finished (job ∷ jobs) = let rest = finished jobs in if is_active job.state then rest else job ∷ rest

-- The last `n` of them.
unfoldable pub latest : ℕ → List Job → List Job
latest n jobs = drop (length (finished jobs) - n) (finished jobs)

drop_last :
    (n : ℕ) (job : Job) (jobs : List Job)
    → drop (suc (length jobs) - n) (job ∷ jobs) ≡ (
        if ltb (length (drop (length jobs - n) jobs)) n
        then job ∷ drop (length jobs - n) jobs
        else drop (length jobs - n) jobs)
drop_last n job jobs = elim (Bool-cases (ltb (length jobs) n)) [
  | inl few ↦
      let all : suc (length jobs) - n ≡ 0 = ground arith in
      let rest : length jobs - n ≡ 0 = ground arith in rw (all, rest, few) refl
  | inr many ↦
      let behind : suc (length jobs) - n ≡ suc (length jobs - n) = ground arith in
      let full : ltb (length (drop (length jobs - n) jobs)) n ≡ false =
        ground (arith, length-drop (length jobs - n) jobs, many) in
      rw (behind, full) refl
]

latest-active :
    (n : ℕ) (job : Job) (newer : List Job)
    → is_active job.state ≡ true
    → latest n (job ∷ newer) ≡ latest n newer
unfolding latest finished
latest-active n job newer active = simp active

latest-over :
    (n : ℕ) (job : Job) (newer : List Job)
    → is_active job.state ≡ false
    → latest n (job ∷ newer)
      ≡ (if ltb (length (latest n newer)) n then job ∷ latest n newer else latest n newer)
unfolding latest finished
latest-over n job newer over = simp over (drop_last n job (finished newer))

module _ (duration : Timespec → Timespec → Bytes) where
  -- The items of jobs in the order of the table, the newest first, with a separator between two.
  unfoldable pub listing : List Job → Bytes
  listing [] = []
  listing (job ∷ []) = history_item duration job
  listing (job ∷ newer) = listing newer ++ (b';' ∷ history_item duration job)

  begins_with_i : (job : Job) → (rest : Bytes) × (history_item duration job ≡ b'i' ∷ rest)
  unfolding history_item
  begins_with_i job = (_, refl)

  joined-item : (x : ℕ) (xs item : Bytes) → joined (x ∷ xs) item ≡ (x ∷ xs) ++ (b';' ∷ item)
  unfolding joined
  joined-item x xs item = refl

  some_text :
      (job : Job) (jobs : List Job) → (x : ℕ) × (xs : Bytes) × (listing (job ∷ jobs) ≡ x ∷ xs)
  unfolding listing
  some_text job [] = let (rest, e) = begins_with_i job in (b'i', rest, e)
  some_text job (other ∷ jobs) =
      let (x, xs, e) = some_text other jobs in
      (x, xs ++ (b';' ∷ history_item duration job), rw e refl)

  joined-listing :
      (job : Job) (jobs : List Job)
      → joined (listing jobs) (history_item duration job) ≡ listing (job ∷ jobs)
  unfolding listing joined
  joined-listing job [] = refl
  joined-listing job (other ∷ jobs) =
      let (x, xs, e) = some_text other jobs in rw e (joined-item x xs (history_item duration job))

  length-listing-le :
      (job : Job) (jobs : List Job) → length (listing jobs) ≤ length (listing (job ∷ jobs))
  unfolding listing
  length-listing-le job [] = omega arith
  length-listing-le job (other ∷ jobs) =
      omega (arith, length-append (listing (other ∷ jobs)) (b';' ∷ history_item duration job))

  -- What the loop has listed: a choice among the jobs that are over, as many as were asked for at
  -- most, and all that were asked for where they fit.
  pub record Listed (buffer_size max_items : ℕ) (jobs chosen : List Job) (answer : Bytes × ℕ)
      : Type 0 where
    pub listed : answer.0 ≡ listing chosen
    pub counted : answer.1 ≡ length chosen
    pub few : length chosen ≤ max_items
    pub short : length answer.0 < buffer_size
    pub among : Sublistᴰ chosen jobs
    pub over : All (λ job. is_active job.state ≡ false) chosen
    pub complete :
        length (listing (latest max_items jobs)) + 1 < buffer_size → chosen ≡ latest max_items jobs

  length-listing-latest :
      (n : ℕ) (job : Job) (newer : List Job)
      → length (listing (latest n newer)) ≤ length (listing (latest n (job ∷ newer)))
  length-listing-latest n job newer = elim (Bool-cases (is_active job.state)) [
    | inl active ↦ omega (arith, ap (λ l. length (listing l)) (latest-active n job newer active))
    | inr over ↦ elim (Bool-cases (ltb (length (latest n newer)) n)) [
      | inl room ↦ rw (latest-over n job newer over, room) (length-listing-le job (latest n newer))
      | inr full ↦ rw (latest-over n job newer over, full) (omega arith)
    ]
  ]

  module _ (buffer_size n : ℕ) (job : Job) (newer chosen : List Job) (buffer : Bytes) (emitted : ℕ)
      (h : Listed buffer_size n newer chosen (buffer, emitted)) where
    chosen-latest :
        length (listing (latest n (job ∷ newer))) + 1 < buffer_size → chosen ≡ latest n newer
    chosen-latest fit = h.complete (omega (arith, fit, length-listing-latest n job newer))

    Listed-taken :
        ltb emitted n ≡ true
        → is_active job.state ≡ false
        → ltb (room_needed buffer (history_item duration job)) buffer_size ≡ true
        → Listed buffer_size n
            (job ∷ newer)
            (job ∷ chosen)
            (joined buffer (history_item duration job), emitted + 1)
    Listed-taken left over room = record {
      listed =
          ap (λ (b : Bytes). joined b (history_item duration job)) h.listed
          ∙ joined-listing job chosen;
      counted = omega (arith, h.counted);
      few = ground (arith, h.counted, left);
      short = ground (arith, room);
      among = Sublistᴰ.cons-cons refl h.among;
      over = (over, h.over);
      complete = λ fit.
          let same = chosen-latest fit in
          let more : ltb (length (latest n newer)) n ≡ true = rw (← same, ← h.counted) left in
          rw (latest-over n job newer over, more) (ap (◌∷◌ job) same);
    }

    -- A job that is not listed is queued or running, or enough are, or it has no room.
    Listed-skipped :
        (ltb emitted n
            && (not (is_active job.state)
                && ltb (room_needed buffer (history_item duration job)) buffer_size))
          ≡ false
        → Listed buffer_size n (job ∷ newer) chosen (buffer, emitted)
    Listed-skipped skipped = record {
      listed = h.listed;
      counted = h.counted;
      few = h.few;
      short = h.short;
      among = Sublistᴰ.cons h.among;
      over = h.over;
      complete = λ fit. elim (Bool-cases (is_active job.state)) [
        | inl active ↦ chosen-latest fit ∙ sym (latest-active n job newer active)
        | inr over ↦ elim (Bool-cases (ltb (length (latest n newer)) n)) [
          | inr full ↦ rw (latest-over n job newer over, full) (chosen-latest fit)
          | inl more ↦ absurd (no_room fit over more)
        ]
      ];
    }
      where
        no_room :
            length (listing (latest n (job ∷ newer))) + 1 < buffer_size
            → is_active job.state ≡ false
            → ltb (length (latest n newer)) n ≡ true
            → ⊥
        no_room fit over more =
            let same = chosen-latest fit in
            let longer : latest n (job ∷ newer) ≡ job ∷ chosen =
              rw (latest-over n job newer over, more) (ap (◌∷◌ job) (sym same)) in
            let size : length (joined buffer (history_item duration job))
                ≡ length (listing (latest n (job ∷ newer))) =
              rw (h.listed, longer) (ap (length {A = ℕ}) (joined-listing job chosen)) in
            let left : emitted < n =
              omega (arith, h.counted, ap (length {A = Job}) same, ltb→lt _ _ more) in
            ground (arith, skipped, over, size, fit, left)

  history_items-Listed :
      (buffer_size n : ℕ) (jobs : List Job)
      → 0 < buffer_size
      → (chosen : List Job) × Listed buffer_size n jobs chosen
          (history_items duration buffer_size n jobs)
  unfolding history_items latest finished listing
  history_items-Listed buffer_size n [] positive = (
    [],
    record {
      listed = refl;
      counted = refl;
      few = omega arith;
      short = positive;
      among = Sublistᴰ.slnil;
      over = tt;
      complete = λ fit. ground arith;
    },
  )
  history_items-Listed buffer_size n (job ∷ newer) positive =
      let (chosen, h) = history_items-Listed buffer_size n newer positive in
      let (buffer, emitted) = history_items duration buffer_size n newer in
      elim (Bool-cases (
        ltb emitted n
        && (not (is_active job.state)
            && ltb (room_needed buffer (history_item duration job)) buffer_size))) [
              | inl taken ↦ simp taken (
                job ∷ chosen,
                Listed-taken buffer_size n job newer chosen buffer emitted h (ground arith)
                    (ground arith) (ground arith),
              )
              | inr skipped ↦
                  simp skipped
                    (chosen, Listed-skipped buffer_size n job newer chosen buffer emitted h skipped)
            ]

  -- The text of the history: `empty`, cut to the buffer, or the items of the jobs.
  unfoldable pub history_text : ℕ → List Job → Bytes
  history_text buffer_size [] = snprintf buffer_size (codes "empty")
  history_text buffer_size (job ∷ jobs) = listing (job ∷ jobs)

  history_text-chosen :
      (buffer_size : ℕ) (chosen : List Job) (buffer : Bytes) (emitted : ℕ)
      → buffer ≡ listing chosen
      → emitted ≡ length chosen
      → (if emitted == 0 then snprintf buffer_size (codes "empty") else buffer)
        ≡ history_text buffer_size chosen
  unfolding history_text
  history_text-chosen buffer_size [] buffer emitted listed counted = ground arith
  history_text-chosen buffer_size (job ∷ jobs) buffer emitted listed counted =
      let some_items : (emitted == 0) ≡ false = ground (arith, counted) in rw some_items listed

  history_text-lt :
      (buffer_size n : ℕ) (jobs chosen : List Job) (answer : Bytes × ℕ)
      → Listed buffer_size n jobs chosen answer
      → 0 < buffer_size
      → length (history_text buffer_size chosen) < buffer_size
  unfolding history_text
  history_text-lt buffer_size n jobs [] answer h positive =
      snprintf-lt buffer_size (codes "empty") positive
  history_text-lt buffer_size n jobs (job ∷ chosen) answer h positive =
      omega (arith, h.short, ap (length {A = ℕ}) h.listed)

  -- The history fits its buffer with the terminator, for every size of the buffer but 0 and every
  -- number of jobs, and it is the items of some of the jobs of the table, the newest first, or
  -- `empty` for none: these are jobs that are done, failed or canceled, as many as were asked for
  -- at most, and where the items of the newest that were asked for fit they are exactly those.
  pub job_table_format_history_lem :
      (table : JobTable) (buffer_size max_items : ℕ)
      → 0 < buffer_size
      → (list : Bytes) × (chosen : List Job) × (job_table_format_history duration table buffer_size
            max_items
          ≡ some list)
        × (length list < buffer_size)
        × (list ≡ history_text buffer_size chosen)
        × (length chosen ≤ max_items)
        × Sublistᴰ chosen table.jobs
        × All (λ job. is_active job.state ≡ false) chosen
        × ((buffer_size ≤ length (listing (latest max_items table.jobs)) + 1)
            ⊎ (chosen ≡ latest max_items table.jobs))
  unfolding job_table_format_history
  job_table_format_history_lem table buffer_size max_items positive =
      let answer = history_items duration buffer_size max_items table.jobs in
      let (chosen, h) = history_items-Listed buffer_size max_items table.jobs positive in
      let sized : (buffer_size == 0) ≡ false = ground (arith, positive) in
      let text = history_text-chosen buffer_size chosen answer.0 answer.1 h.listed h.counted in
      (
        history_text buffer_size chosen,
        chosen,
        rw sized (ap some text),
        history_text-lt buffer_size max_items table.jobs chosen answer h positive,
        refl,
        h.few,
        h.among,
        h.over,
        all_or_full (length (listing (latest max_items table.jobs)) + 1) buffer_size h.complete,
      )
    where
      all_or_full : {P : Type 0} (used size : ℕ) → (used < size → P) → (size ≤ used) ⊎ P
      all_or_full used size fits = elim (Bool-cases (ltb used size)) [
        | inl room ↦ inr (fits (ltb→lt used size room))
        | inr full ↦ inl (ltb_false→le used size full)
      ]
