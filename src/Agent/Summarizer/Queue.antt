-- ===== src/Agent/Summarizer/Queue.antt =====
-- Enqueue, the worker's loop and the end of runJob: each part under one lock, or one send or receive, is
-- a step.
use ideate.Common.{
  ℕ, suc, ◌+◌, ◌≤◌, ◌<◌, Bool, true, false, ◌||◌, ◌≡◌, refl, Option, none, some, List, [], ◌∷◌,
  ◌++◌, arith, ltb, length, length-append, if◌then◌else◌,
}
use ideate.Text.{Text, text_eq, is_empty}
use ideate.Text.Laws.{text_eq_iff}
use ideate.Model.Session.{orchestrator_slug}

-- The capacity of the channel
abbrev pub queue_size : ℕ
queue_size = 64

-- `marked`: the slugs of the calls of Enqueue between the mark and the send; `refused`: those of the calls
-- whose send failed, up to the delete; `running`: those of the workers.
pub record Jobs : Type 0 where
  pub pending : Text → Bool
  pub marked : List Text
  pub refused : List Text
  pub queue : List Text
  pub running : List Text

-- The fields of New
abbrev pub no_jobs : Jobs
no_jobs = record { pending = λ slug. false; marked = []; refused = []; queue = []; running = [] }

abbrev pub set_pending : Text → Bool → (Text → Bool) → Text → Bool
set_pending slug b pending other = if text_eq slug other then b else pending other

abbrev pub remove_one : Text → List Text → List Text
remove_one slug [] = []
remove_one slug (s ∷ l) = let rest = remove_one slug l in if text_eq s slug then l else s ∷ rest

-- Enqueue up to the send: `none` if it goes on, or what it returns.
unfoldable pub enqueue_mark : Text → Jobs → Option Bool × Jobs
enqueue_mark slug j =
    if is_empty slug || text_eq slug orchestrator_slug
    then (some false, j)
    else if j.pending slug
    then (some true, j)
    else (none, record j { pending = set_pending slug true j.pending; marked = slug ∷ j.marked })

-- The select of Enqueue, and what it returns
unfoldable pub enqueue_send : Text → Jobs → Bool × Jobs
enqueue_send slug j =
    if ltb (length j.queue) queue_size
    then (true, record j { marked = remove_one slug j.marked; queue = j.queue ++ slug ∷ [] })
    else (false, record j { marked = remove_one slug j.marked; refused = slug ∷ j.refused })

-- The delete of Enqueue after a send that failed
unfoldable pub enqueue_drop : Text → Jobs → Jobs
enqueue_drop slug j = record j {
  refused = remove_one slug j.refused;
  pending = set_pending slug false j.pending;
}

-- Enqueue of a single caller
unfoldable pub enqueue : Text → Jobs → Bool × Jobs
enqueue slug j =
    let (done, j') = enqueue_mark slug j in
    elim done [
      | some b ↦ (b, j')
      | none ↦
          let (sent, j'') = enqueue_send slug j' in
          if sent then (true, j'') else (false, enqueue_drop slug j'')
    ]

-- The receive of workerLoop
unfoldable pub take_job : Jobs → Jobs
take_job j = elim j.queue [
  | [] ↦ j
  | slug ∷ rest ↦ record j { queue = rest; running = slug ∷ j.running }
]

-- The deferred end of runJob
unfoldable pub finish_job : Text → Jobs → Jobs
finish_job slug j = record j {
  running = remove_one slug j.running;
  pending = set_pending slug false j.pending;
}

abbrev pub count : Text → List Text → ℕ
count x [] = 0
count x (s ∷ l) = if text_eq s x then suc (count x l) else count x l

-- What a goroutine can do next.
pub data Step (j : Jobs) : Jobs → Type 0 where
  mark : (slug : Text) → Step j (enqueue_mark slug j).1
  send : (slug : Text) → 0 < count slug j.marked → Step j (enqueue_send slug j).1
  drop : (slug : Text) → 0 < count slug j.refused → Step j (enqueue_drop slug j)
  take : Step j (take_job j)
  finish : (slug : Text) → 0 < count slug j.running → Step j (finish_job slug j)

pub data Reached : Jobs → Type 0 where
  start : Reached no_jobs
  next : {j k : Jobs} → Reached j → Step j k → Reached k

abbrev pub bit : Bool → ℕ
bit true = 1
bit false = 0

-- A slug is pending exactly if it is in one place: a call that has marked it, one whose send failed, the queue
-- or a worker; and it is in no two. The queue is within its size.
pub record IsCoalesced (j : Jobs) : Type 0 where
  pub placed :
      (x : Text)
      → count x j.marked + count x j.refused + count x j.queue + count x j.running
        ≡ bit (j.pending x)
  pub fits : length j.queue ≤ queue_size

count-append : (x : Text) (l m : List Text) → count x (l ++ m) ≡ count x l + count x m
count-append x [] m = omega arith
count-append x (s ∷ l) m = ground (arith, count-append x l m)

count-remove_one :
    (x slug : Text) (l : List Text)
    → 0 < count slug l
    → count x l
      ≡ (if text_eq slug x then suc (count x (remove_one slug l)) else count x (remove_one slug l))
count-remove_one x slug [] h = absurd (omega arith)
count-remove_one x slug (s ∷ l) h =
    ground
      (arith, count-remove_one x slug l, text_eq_iff s slug, text_eq_iff s x, text_eq_iff slug x)

mark-IsCoalesced : (j : Jobs) (slug : Text) → IsCoalesced j → IsCoalesced (enqueue_mark slug j).1
unfolding enqueue_mark
mark-IsCoalesced j slug c = record {
  placed = λ x. ground (arith, c.placed x, c.placed slug, text_eq_iff slug x);
  fits = ground (arith, c.fits);
}

send-IsCoalesced :
    (j : Jobs) (slug : Text)
    → 0 < count slug j.marked
    → IsCoalesced j
    → IsCoalesced (enqueue_send slug j).1
unfolding enqueue_send
send-IsCoalesced j slug h c = record {
  placed = λ x. ground (
    arith,
    c.placed x,
    c.placed slug,
    text_eq_iff slug x,
    count-remove_one x slug j.marked h,
    count-append x j.queue (slug ∷ []),
  );
  fits = ground (arith, c.fits, length-append j.queue (slug ∷ []));
}

drop-IsCoalesced :
    (j : Jobs) (slug : Text)
    → 0 < count slug j.refused
    → IsCoalesced j
    → IsCoalesced (enqueue_drop slug j)
unfolding enqueue_drop
drop-IsCoalesced j slug h c = record {
  placed = λ x. ground (arith, c.placed x, text_eq_iff slug x, count-remove_one x slug j.refused h);
  fits = c.fits;
}

take-IsCoalesced : (j : Jobs) → IsCoalesced j → IsCoalesced (take_job j)
unfolding take_job
take-IsCoalesced j c = record {
  placed = λ x. ground (arith, c.placed x);
  fits = ground (arith, c.fits);
}

finish-IsCoalesced :
    (j : Jobs) (slug : Text)
    → 0 < count slug j.running
    → IsCoalesced j
    → IsCoalesced (finish_job slug j)
unfolding finish_job
finish-IsCoalesced j slug h c = record {
  placed = λ x. ground (arith, c.placed x, text_eq_iff slug x, count-remove_one x slug j.running h);
  fits = c.fits;
}

-- However the calls of Enqueue and the workers interleave, a slug is pending exactly if one call is about
-- to send it, or to drop it as its send failed, or it is in the queue, or a worker runs it, and it is never in two of these places or
-- twice in one; the queue holds at most 64.
pub Reached-IsCoalesced : {j : Jobs} → Reached j → IsCoalesced j
Reached-IsCoalesced start = record { placed = λ x. refl; fits = omega arith }
Reached-IsCoalesced (next {j} r (mark slug)) = mark-IsCoalesced j slug (Reached-IsCoalesced r)
Reached-IsCoalesced (next {j} r (send slug h)) = send-IsCoalesced j slug h (Reached-IsCoalesced r)
Reached-IsCoalesced (next {j} r (drop slug h)) = drop-IsCoalesced j slug h (Reached-IsCoalesced r)
Reached-IsCoalesced (next {j} r take) = take-IsCoalesced j (Reached-IsCoalesced r)
Reached-IsCoalesced (next {j} r (finish slug h)) =
    finish-IsCoalesced j slug h (Reached-IsCoalesced r)
