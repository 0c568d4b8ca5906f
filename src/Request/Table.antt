-- ===== src/Request/Table.antt =====
-- Which slots `make_request` takes, and when it waits.
use linux_0_11_learning.Base.{
  ℕ, zero, suc, ◌<◌, ◌*◌, ◌≡◌, refl, inl, inr, ◌∙◌, Bool, true, false, none, some, List, arith,
  ◌==◌, not, if◌then◌else◌, Bool-cases, Option-cases,
}
use linux_0_11_learning.Request.{
  Request, Buffer, Command, read_cmd, write_cmd, reada, writea, is_ahead, rw_of, slots_for,
  find_empty, Made, skipped, waits_for_buffer, waits_for_request, made, add_request, take_request,
  make_request, fill, no_work,
}

find_empty-free :
    (n : ℕ) (used : ℕ → Bool) (i : ℕ)
    → find_empty n used ≡ some i
    → (i < n) × (used i ≡ false) × ((j : ℕ) → i < j → j < n → used j ≡ true)
unfolding find_empty
find_empty-free zero used i e = cc
find_empty-free (suc n) used i e = elim (Bool-cases (used n)) [
  | inl busy ↦
      let (lt, free, last) = find_empty-free n used i (ground arith) in
      (
        omega arith,
        free,
        λ j lo hi. elim (Bool-cases (j == n)) [
          | inl top ↦ ground arith
          | inr under ↦ last j lo (ground arith)
        ],
      )
  | inr free ↦
      let same : n ≡ i = ground arith in
      (omega arith, ground arith, λ j lo hi. absurd (omega arith))
]

find_empty-none :
    (n : ℕ) (used : ℕ → Bool) (j : ℕ) → find_empty n used ≡ none → j < n → used j ≡ true
unfolding find_empty
find_empty-none zero used j e h = absurd (omega arith)
find_empty-none (suc n) used j e h = elim (Bool-cases (used n)) [
  | inl busy ↦ elim (Bool-cases (j == n)) [
    | inl top ↦ ground arith
    | inr under ↦ find_empty-none n used j (ground arith) (ground arith)
  ]
  | inr free ↦ absurd (ground arith)
]

-- How many of the 32 slots, from the first, are for the command: a write gets none of the last third.
abbrev pub limit : Command → ℕ
limit read_cmd = 32
limit reada = 32
limit write_cmd = 21
limit writea = 21

-- A clean buffer is not written, and one that is up to date not read.
abbrev pub idle : Command → Buffer → Bool
idle read_cmd bh = bh.b_uptodate
idle reada bh = bh.b_uptodate
idle write_cmd bh = not bh.b_dirt
idle writea bh = not bh.b_dirt

abbrev pub command_code : Command → ℕ
command_code read_cmd = 0
command_code reada = 0
command_code write_cmd = 1
command_code writea = 1

-- The request for the two sectors of the buffer's block.
abbrev pub wanted : (slot : ℕ) → Command → Buffer → Request
wanted slot cmd bh = record {
  slot = slot;
  dev = bh.b_dev;
  cmd = command_code cmd;
  sector = 2 * bh.b_blocknr;
  nr_sectors = 2;
  bh = bh.number;
}

slots_for-limit : (cmd : Command) → slots_for (rw_of cmd) ≡ limit cmd
slots_for-limit read_cmd = refl
slots_for-limit reada = refl
slots_for-limit write_cmd = refl
slots_for-limit writea = refl

no_work-idle : (cmd : Command) (bh : Buffer) → no_work (rw_of cmd) bh ≡ idle cmd bh
no_work-idle read_cmd bh = ground arith
no_work-idle reada bh = ground arith
no_work-idle write_cmd bh = ground arith
no_work-idle writea bh = ground arith

fill-wanted :
    (slot : ℕ) (cmd : Command) (bh : Buffer) → fill slot (rw_of cmd) bh ≡ wanted slot cmd bh
fill-wanted slot cmd bh =
    let twice : bh.b_blocknr * 2 ≡ 2 * bh.b_blocknr = omega arith in
    let code : rw_of cmd ≡ command_code cmd = code_of cmd in rw (twice, code) refl
  where
    code_of : (cmd : Command) → rw_of cmd ≡ command_code cmd
    code_of read_cmd = refl
    code_of reada = refl
    code_of write_cmd = refl
    code_of writea = refl

-- The outcomes of a pass of `make_request`.
pub data Outcome (cmd : Command) (bh : Buffer) (used : ℕ → Bool) (queue : List Request)
    : Made → Type 0 where
  -- A locked buffer: read-ahead gives up, the others wait.
  locked_ahead : bh.b_lock ≡ true → is_ahead cmd ≡ true → Outcome cmd bh used queue (skipped bh)
  locked_waits :
      bh.b_lock ≡ true → is_ahead cmd ≡ false → Outcome cmd bh used queue waits_for_buffer
  -- A clean buffer is not written, and one that is up to date not read.
  nothing_to_do : bh.b_lock ≡ false → idle cmd bh ≡ true → Outcome cmd bh used queue (skipped bh)
  -- All slots for the command are in use.
  full_ahead :
      bh.b_lock ≡ false
      → is_ahead cmd ≡ true
      → ((j : ℕ) → j < limit cmd → used j ≡ true)
      → Outcome cmd bh used queue (skipped bh)
  full_waits :
      bh.b_lock ≡ false
      → is_ahead cmd ≡ false
      → ((j : ℕ) → j < limit cmd → used j ≡ true)
      → Outcome cmd bh used queue (waits_for_request (record bh { b_lock = true }))
  -- The request is in the list, in a free slot; the buffer is locked and counts as clean.
  queued :
      (slot : ℕ)
      → bh.b_lock ≡ false
      → idle cmd bh ≡ false
      → used slot ≡ false
      → slot < limit cmd
      → Outcome cmd bh used queue (
          made
            (record bh { b_lock = true; b_dirt = false })
            (wanted slot cmd bh)
            (add_request (wanted slot cmd bh) queue).0
            (add_request (wanted slot cmd bh) queue).1)

unlock_same : (bh : Buffer) → bh.b_lock ≡ false → record bh { b_lock = false } ≡ bh
unlock_same bh e = ground arith

take_request-Outcome :
    (cmd : Command) (bh : Buffer) (used : ℕ → Bool) (queue : List Request)
    → bh.b_lock ≡ false
    → no_work (rw_of cmd) bh ≡ false
    → Outcome cmd bh used queue (take_request cmd (record bh { b_lock = true }) used queue)
unfolding take_request
take_request-Outcome cmd bh used queue free work =
    elim (Option-cases (find_empty (slots_for (rw_of cmd)) used)) [
      | inl full ↦ elim (Bool-cases (is_ahead cmd)) [
        | inl ahead ↦
            rw (full, take_request, ahead, unlock_same bh free)
              (Outcome.full_ahead free ahead
                (λ j h. find_empty-none _ used j full (rw (slots_for-limit cmd) h)))
        | inr plain ↦
            rw (full, take_request, plain)
              (Outcome.full_waits free plain
                (λ j h. find_empty-none _ used j full (rw (slots_for-limit cmd) h)))
      ]
      | inr (slot, found) ↦
          let (lt, empty, last) = find_empty-free _ used slot found in
          let lt' : slot < limit cmd = rw (slots_for-limit cmd) at lt in
          let idle_ : idle cmd bh ≡ false = rw (no_work-idle cmd bh) at work in
          rw (found, take_request, fill-wanted slot cmd bh)
            (Outcome.queued slot free idle_ empty lt')
    ]

module _ (cmd : Command) (bh : Buffer) (used : ℕ → Bool) (queue : List Request) where
  make_request-locked :
      bh.b_lock ≡ true
      → make_request cmd bh used queue ≡ (if is_ahead cmd then skipped bh else waits_for_buffer)
  unfolding make_request
  make_request-locked locked = ground arith

  make_request-idle :
      bh.b_lock ≡ false
      → no_work (rw_of cmd) bh ≡ true
      → make_request cmd bh used queue ≡ skipped bh
  unfolding make_request
  make_request-idle free idle = rw (free, idle)

  make_request-take :
      bh.b_lock ≡ false
      → no_work (rw_of cmd) bh ≡ false
      → make_request cmd bh used queue ≡ take_request cmd (record bh { b_lock = true }) used queue
  unfolding make_request
  make_request-take free work = ground arith

  -- A pass of `make_request` queues a request for the two sectors of the buffer's block in a slot that
  -- was free, for a write none of the last third; or there is nothing to write or to read; or the
  -- buffer is locked or all those slots are in use, where a command that is ahead gives up and the
  -- others wait.
  pub make_request-Outcome : Outcome cmd bh used queue (make_request cmd bh used queue)
  make_request-Outcome = elim (Bool-cases bh.b_lock) [
    | inl locked ↦ elim (Bool-cases (is_ahead cmd)) [
      | inl ahead ↦
          let e : make_request cmd bh used queue ≡ skipped bh =
            make_request-locked locked ∙ rw ahead in
          rw e (Outcome.locked_ahead locked ahead)
      | inr plain ↦
          let e : make_request cmd bh used queue ≡ waits_for_buffer =
            make_request-locked locked ∙ rw plain in
          rw e (Outcome.locked_waits locked plain)
    ]
    | inr free ↦ elim (Bool-cases (no_work (rw_of cmd) bh)) [
      | inl quiet ↦
          rw (make_request-idle free quiet)
            (Outcome.nothing_to_do free (rw (no_work-idle cmd bh) at quiet))
      | inr work ↦
          rw (make_request-take free work) (take_request-Outcome cmd bh used queue free work)
    ]
  ]
