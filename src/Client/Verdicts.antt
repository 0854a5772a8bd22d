-- ===== src/Client/Verdicts.antt =====
-- What src/client/main.c reads in an answer of src/server/server.c to STATUS.
use pcd.Prelude.{
  ℕ, ◌≤◌, ◌<◌, ◌≡◌, ◌≢◌, refl, ap, ◌∙◌, arith, true, false, [], ◌∷◌, ◌++◌, append_assoc, Bytes, All,
  All-append, codes, decimal, length, length-append, length-decimal, ◌==◌, ◌⊎◌, inl, inr, IsDigit,
  digits-decimal,
}
use pcd.Protocol.{starts_with}
use pcd.Job.{JobState, queued, running, done, failed, canceled, job_state_to_string}
use pcd.Client.{behind_first}
use pcd.Client.Lines.{Plain, is_plain, is_plain-Plain, number-Plain}
use pcd.Client.Session.{Verdict, succeeded, gave_up, pending, mentions, verdict}

-- What the client makes of a state.
unfoldable pub verdict_of : JobState → Verdict
verdict_of queued = pending
verdict_of running = pending
verdict_of done = succeeded
verdict_of failed = gave_up
verdict_of canceled = gave_up

-- The first occurrence of a word is not in a text without the word's first letter.
behind_first-append :
    (letter : ℕ) (word xs ys : Bytes)
    → All (λ ch. ch ≢ letter) xs
    → behind_first (xs ++ ys) (letter ∷ word) ≡ behind_first ys (letter ∷ word)
unfolding behind_first starts_with
behind_first-append letter word [] ys other = refl
behind_first-append letter word (ch ∷ xs) ys (one, other) =
    let differs : (ch == letter) ≡ false = ground (arith, one) in
    rw (behind_first, starts_with, differs) (behind_first-append letter word xs ys other)

-- The answer up to the state.
abbrev pub named_job : ℕ → Bytes
named_job job_id = codes "STATUS " ++ decimal job_id

-- An answer to STATUS without its newline.
abbrev pub answer_text : ℕ → JobState → Bytes
answer_text job_id state = named_job job_id ++ (codes " " ++ job_state_to_string state)

-- Before C or behind F.
abbrev pub Outside : ℕ → Type 0
Outside ch = (ch < 67) ⊎ (70 < ch)

Outside-other :
    (letter : ℕ) (text : Bytes)
    → 67 ≤ letter
    → letter ≤ 70
    → All Outside text
    → All (λ ch. ch ≢ letter) text
Outside-other letter [] low high outside = tt
Outside-other letter (ch ∷ text) low high (one, outside) = (
  λ same. elim one [ inl below ↦ absurd (omega arith) | inr above ↦ absurd (omega arith) ],
  Outside-other letter text low high outside,
)

digits-Outside : (text : Bytes) → All IsDigit text → All Outside text
digits-Outside [] digits = tt
digits-Outside (ch ∷ text) ((low, high), digits) = (inl (omega arith), digits-Outside text digits)

named_job-Outside : (job_id : ℕ) → All Outside (named_job job_id)
named_job-Outside job_id =
    All-append Outside (codes "STATUS ") (decimal job_id)
      (
        inr (omega arith),
        (
          inr (omega arith),
          (
            inl (omega arith),
            (inr (omega arith), (inr (omega arith), (inr (omega arith), (inl (omega arith), tt)))),
          ),
        ),
      )
      (digits-Outside (decimal job_id) (digits-decimal job_id))

named_job-verdict : (job_id : ℕ) (tail : Bytes) → verdict (named_job job_id ++ tail) ≡ verdict tail
unfolding verdict mentions
named_job-verdict job_id tail =
    let outside = named_job-Outside job_id in
    let name = named_job job_id in
    let no_d =
      behind_first-append b'D' (codes "ONE") name tail
        (Outside-other b'D' name (omega arith) (omega arith) outside) in
    let no_f =
      behind_first-append b'F' (codes "AILED") name tail
        (Outside-other b'F' name (omega arith) (omega arith) outside) in
    let no_c =
      behind_first-append b'C' (codes "ANCELED") name tail
        (Outside-other b'C' name (omega arith) (omega arith) outside) in
    rw (verdict, mentions, no_d, no_f, no_c) refl

state-verdict :
    (state : JobState)
    → verdict (codes " " ++ (job_state_to_string state ++ (b'\n' ∷ []))) ≡ verdict_of state
unfolding verdict mentions behind_first starts_with job_state_to_string verdict_of
state-verdict queued = refl
state-verdict running = refl
state-verdict done = refl
state-verdict failed = refl
state-verdict canceled = refl

pub answer_text-verdict :
    (job_id : ℕ) (state : JobState)
    → verdict (answer_text job_id state ++ (b'\n' ∷ [])) ≡ verdict_of state
answer_text-verdict job_id state =
    ap verdict
      (append_assoc (named_job job_id) (codes " " ++ job_state_to_string state) (b'\n' ∷ []))
    ∙ named_job-verdict job_id (codes " " ++ (job_state_to_string state ++ (b'\n' ∷ [])))
    ∙ state-verdict state

plain_state : (state : JobState) → is_plain (codes " " ++ job_state_to_string state) ≡ true
unfolding is_plain job_state_to_string
plain_state queued = refl
plain_state running = refl
plain_state done = refl
plain_state failed = refl
plain_state canceled = refl

pub answer_text-Plain : (job_id : ℕ) (state : JobState) → All Plain (answer_text job_id state)
unfolding is_plain
answer_text-Plain job_id state =
    All-append Plain (named_job job_id) (codes " " ++ job_state_to_string state)
      (All-append Plain (codes "STATUS ") (decimal job_id) (is_plain-Plain (codes "STATUS ") refl)
        (number-Plain job_id))
      (is_plain-Plain (codes " " ++ job_state_to_string state) (plain_state state))

short_name : (job_id : ℕ) (name : Bytes) → length name ≤ 9 → length (named_job job_id ++ name) ≤ 40
short_name job_id name short = omega (
  arith,
  length-append (named_job job_id) name,
  length-append (codes "STATUS ") (decimal job_id),
  length-decimal job_id,
  short,
)

pub length-answer_text : (job_id : ℕ) (state : JobState) → length (answer_text job_id state) ≤ 40
unfolding job_state_to_string
length-answer_text job_id queued = short_name job_id (codes " QUEUED") (omega arith)
length-answer_text job_id running = short_name job_id (codes " RUNNING") (omega arith)
length-answer_text job_id done = short_name job_id (codes " DONE") (omega arith)
length-answer_text job_id failed = short_name job_id (codes " FAILED") (omega arith)
length-answer_text job_id canceled = short_name job_id (codes " CANCELED") (omega arith)
