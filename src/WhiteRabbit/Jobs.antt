-- ===== src/WhiteRabbit/Jobs.antt =====
-- core/cat/looking_glass/white_rabbit.py: what the jobs are after a call.
use cat_forked.Prelude.{
  ℕ, ◌+◌, ◌/◌, ◌≡◌, refl, sym, ap, ◌∙◌, inl, inr, String, Bool, true, false, Option, none, some, [],
  ◌∷◌, Dict, is_some, arith, leb, ◌==◌, eq_iff, ==_refl, if◌then◌else◌, Bool-cases, Option-cases,
}
use mathlib.Core.Path.{subst}
use cat_forked.WhiteRabbit.{
  date, Job, without_run, Scheduler, JobInfo, info_of, Delay, timedelta, get_job, pause_job,
  remove_job, schedule_job, schedule_chat_message, id_or, answered,
}
use cat_forked.WhiteRabbit.Names.{date_id, chat_id}

-- The next run of what `get_job` answers.
abbrev pub next_of : Option JobInfo → Option ℕ
next_of none = none
next_of (some job) = job.next_run

-- `get_job` after `pause_job`
abbrev pub paused : Option JobInfo → Option JobInfo
paused none = none
paused (some job) = some (record job { next_run = none })

info_of-without_run :
    {J : Type 0} (o : Option (Job J)) → info_of (without_run o) ≡ paused (info_of o)
info_of-without_run none = refl
info_of-without_run (some job) = refl

info_of-if :
    {J : Type 0} (c : Bool) (a b : Option (Job J))
    → info_of (if c then a else b) ≡ (if c then info_of a else info_of b)
info_of-if true a b = refl
info_of-if false a b = refl

next_of-is_some :
    {J : Type 0} (o : Option (Job J)) (at : ℕ) → next_of (info_of o) ≡ some at → is_some o ≡ true
next_of-is_some none at h = absurd (ground arith)
next_of-is_some (some job) at h = refl

is_some-info_of : {J : Type 0} (o : Option (Job J)) → is_some (info_of o) ≡ is_some o
is_some-info_of none = refl
is_some-info_of (some job) = refl

module _ {J : Type 0} (scheduler : Scheduler J) where
  -- A job that the scheduler takes for a date.
  dated :
      (job : J) (at : ℕ) (id : String) (kwargs : Dict String) (s : scheduler.State) (other : String)
      → (scheduler.add_job job (date at) id kwargs s).0 ≡ true
      → let s' = (scheduler.add_job job (date at) id kwargs s).1 in
        (next_of (get_job scheduler id s') ≡ some at)
        × (get_job scheduler other s'
            ≡ (if id == other then get_job scheduler id s' else get_job scheduler other s))
  unfolding get_job
  dated job at id kwargs s other taken = elim (Option-cases (scheduler.job_of id s)) [
    | inr (old, there) ↦
        let e =
          ap (λ (r : Bool × scheduler.State). r.0)
            (scheduler.add_job-known job (date at) id kwargs s (rw there refl)) in
        absurd (ground arith)
    | inl free ↦
        let new = scheduler.add_job-new job (date at) id kwargs s id free in
        let e : scheduler.job_of id (scheduler.add_job job (date at) id kwargs s).1
            ≡ some (scheduler.entry job (date at) id kwargs s) =
          new.1 ∙ rw (==_refl id) refl in
        let next = (scheduler.entry-date job at id kwargs s).1 in
        (
          rw e next,
          rw e (
              ap info_of (scheduler.add_job-new job (date at) id kwargs s other free).1
              ∙ info_of-if (id == other) (some (scheduler.entry job (date at) id kwargs s))
                  (scheduler.job_of other s)),
        )
  ]

  answered-some :
      (job_id id : String) (out : Bool × scheduler.State)
      → (answered scheduler job_id out).0 ≡ some id
      → (out.0 ≡ true) × (job_id ≡ id) × ((answered scheduler job_id out).1 ≡ out.1)
  answered-some job_id id (true, s) h = (refl, ground arith, refl)
  answered-some job_id id (false, s) h = absurd (ground arith)

  answered_taken :
      (id : String) (out : Bool × scheduler.State)
      → out.0 ≡ true
      → answered scheduler id out ≡ (some id, out.1)
  answered_taken id (true, s) h = refl
  answered_taken id (false, s) h = absurd (ground arith)

  -- The outcome of a job that is taken for a date under an id.
  abbrev Dated : ℕ → String → String → scheduler.State → scheduler.State → Type 0
  Dated at id other s s' =
      (next_of (get_job scheduler id s') ≡ some at)
      × (get_job scheduler other s'
          ≡ (if id == other then get_job scheduler id s' else get_job scheduler other s))

  answered-Dated :
      (job : J) (at : ℕ) (job_id id : String) (kwargs : Dict String) (s : scheduler.State)
      (other : String)
      → let out = answered scheduler job_id (scheduler.add_job job (date at) job_id kwargs s) in
        out.0 ≡ some id → Dated at id other s out.1
  answered-Dated job at job_id id kwargs s other h =
      let (taken, same, state) =
        answered-some job_id id (scheduler.add_job job (date at) job_id kwargs s) h in
      subst
        (λ (i : String).
          Dated at i other s
            (answered scheduler job_id (scheduler.add_job job (date at) job_id kwargs s)).1)
        same (rw state (dated job at job_id kwargs s other taken))

  -- A job that is scheduled without an error has its next run when the clock of the host shows, read as UTC,
  -- at the time of the call, plus the delay; it is listed so under the id that is returned, and every other
  -- job is as it was.
  pub schedule_job-get_job :
      (strftime : ℕ → String) (str : ℕ → String) (today : ℕ → ℕ) (job : J) (job_id : Option String)
      (delay : Delay) (kwargs : Dict String) (now : ℕ) (s : scheduler.State) (id other : String)
      → let (reply, s') = schedule_job scheduler strftime str today job job_id delay kwargs now s in
        reply ≡ some id
        → (next_of (get_job scheduler id s') ≡ some (today now + timedelta delay))
          × (get_job scheduler other s'
              ≡ (if id == other then get_job scheduler id s' else get_job scheduler other s))
  unfolding schedule_job
  schedule_job-get_job strftime str today job job_id delay kwargs now s id other answered =
      let at = today now + timedelta delay in
      let jid = id_or scheduler job_id (date_id (scheduler.name_of job) (strftime at)) in
      elim (Bool-cases (scheduler.callable job)) [
        | inr not_callable ↦ absurd (ground arith)
        | inl is_callable ↦
            rw is_callable (answered-Dated job at jid id kwargs s other (ground arith))
      ]

  -- A job for a date in the store, after the scheduler has run what is due.
  taken-process_jobs :
      (job : J) (at now : ℕ) (id : String) (kwargs : Dict String) (s : scheduler.State)
      → (scheduler.add_job job (date at) id kwargs s).0 ≡ true
      → let e = scheduler.entry job (date at) id kwargs s in
        (e.next_run_time ≡ some at)
        × (scheduler.job_of id
              (scheduler.process_jobs now (scheduler.add_job job (date at) id kwargs s).1)
            ≡ (if leb at now then none else some e))
  taken-process_jobs job at now id kwargs s taken = elim (Option-cases (scheduler.job_of id s)) [
    | inr (old, there) ↦
        let e =
          ap (λ (r : Bool × scheduler.State). r.0)
            (scheduler.add_job-known job (date at) id kwargs s (rw there refl)) in
        absurd (ground arith)
    | inl free ↦
        let e = scheduler.entry job (date at) id kwargs s in
        let s' = (scheduler.add_job job (date at) id kwargs s).1 in
        let laws = scheduler.entry-date job at id kwargs s in
        (
          laws.1,
          scheduler.process_jobs-date id now at e s'
              ((scheduler.add_job-new job (date at) id kwargs s id free).1 ∙ rw (==_refl id) refl)
              laws.4 laws.1,
        )
  ]

  -- A call for a date under an id, where the store has a job that waits for `at` or none.
  second :
      (job : J) (at at' : ℕ) (waits : Bool) (id : String) (kwargs : Dict String) (first : Job J)
      (s : scheduler.State)
      → first.next_run_time ≡ some at
      → scheduler.job_of id s ≡ (if waits then none else some first)
      → let (reply, s') = answered scheduler id (scheduler.add_job job (date at') id kwargs s) in
        (reply ≡ (if waits then some id else none))
        × (next_of (get_job scheduler id s') ≡ some (if waits then at' else at))
  unfolding get_job
  second job at at' true id kwargs first s next free =
      let (taken, there) = scheduler.add_job-new job (date at') id kwargs s id free in
      rw (answered_taken id (scheduler.add_job job (date at') id kwargs s) taken)
        (refl, rw there (rw (==_refl id) (scheduler.entry-date job at' id kwargs s).1))
  second job at at' false id kwargs first s next there =
      rw (scheduler.add_job-known job (date at') id kwargs s (rw there refl)) (refl, rw there next)

  -- Where a chat message was scheduled, one that is to be sent in the same second, by the clock of
  -- the host, gets the same id, whoever schedules it. Where the scheduler has run what was due
  -- before this second call, the call is taken if the first message was due by then, and its own
  -- time is the next run; otherwise it raises, and the first message is still the one that waits.
  pub schedule_chat_message-same_second :
      (strftime : ℕ → String) (str : ℕ → String) (today : ℕ → ℕ)
      → ((t u : ℕ) → t / 1000000 ≡ u / 1000000 → strftime t ≡ strftime u)
      → (content content' : String) (send send' : J) (delay delay' : Delay) (now later now' : ℕ)
        (s : scheduler.State) (id : String)
      → let (reply, s₁) =
          schedule_chat_message scheduler strftime str today content send delay now s in
        let at = today now + timedelta delay in
        let at' = today now' + timedelta delay' in
        let (reply', s₂) =
          schedule_chat_message scheduler strftime str today content' send' delay' now'
            (scheduler.process_jobs later s₁) in
        reply ≡ some id
        → at / 1000000 ≡ at' / 1000000
        → (reply' ≡ (if leb at later then some id else none))
          × (next_of (get_job scheduler id s₂) ≡ some (if leb at later then at' else at))
  unfolding schedule_chat_message
  schedule_chat_message-same_second strftime str today to_second content content' send send' delay
        delay' now later now' s id returned same =
      let at = today now + timedelta delay in
      let at' = today now' + timedelta delay' in
      let jid = chat_id (strftime at) in
      let kwargs : Dict String = ("content", content) ∷ ("msg_type", "chat") ∷ [] in
      let kwargs' : Dict String = ("content", content') ∷ ("msg_type", "chat") ∷ [] in
      let (taken, is_id, state) =
        answered-some jid id (scheduler.add_job send (date at) jid kwargs s) returned in
      let (next, there) = taken-process_jobs send at later jid kwargs s taken in
      let first = scheduler.entry send (date at) jid kwargs s in
      let s₁ = scheduler.process_jobs later (scheduler.add_job send (date at) jid kwargs s).1 in
      rw state (
        rw (sym (to_second at at' same))
          (rw (sym is_id) (second send' at at' (leb at later) jid kwargs' first s₁ next there)))

  unchanged_pause :
      (id other : String) (s : scheduler.State)
      → scheduler.job_of id s ≡ none
      → let before = get_job scheduler other s in
        before ≡ (if id == other then paused before else before)
  unfolding get_job
  unchanged_pause id other s missing =
      ground (arith, eq_iff id other, ap (λ (i : String). scheduler.job_of i s))

  unchanged_remove :
      (id other : String) (s : scheduler.State)
      → scheduler.job_of id s ≡ none
      → let before = get_job scheduler other s in before ≡ (if id == other then none else before)
  unfolding get_job
  unchanged_remove id other s missing =
      ground (arith, eq_iff id other, ap (λ (i : String). scheduler.job_of i s))

  -- `pause_job` and `remove_job` answer whether there is such a job; then a paused job has no next run, a
  -- removed one is gone, and every other job is as it was.
  pub pause_job-remove_job :
      (id other : String) (s : scheduler.State)
      → let (paused_it, s₁) = pause_job scheduler id s in
        let (removed_it, s₂) = remove_job scheduler id s in
        let known = is_some (get_job scheduler id s) in
        let before = get_job scheduler other s in
        (paused_it ≡ known)
        × (removed_it ≡ known)
        × (get_job scheduler other s₁ ≡ (if id == other then paused before else before))
        × (get_job scheduler other s₂ ≡ (if id == other then none else before))
  unfolding pause_job remove_job get_job
  pause_job-remove_job id other s = elim (Option-cases (scheduler.job_of id s)) [
    | inl missing ↦ rw (scheduler.pause_unknown id s missing) (
        rw (scheduler.remove_unknown id s missing) (
          rw missing
            (refl, refl, unchanged_pause id other s missing, unchanged_remove id other s missing)))
    | inr (job, there) ↦
        let known : is_some (scheduler.job_of id s) ≡ true = rw there refl in
        let pause = scheduler.pause_known id s other known in
        let remove = scheduler.remove_known id s other known in
        (
          pause.0 ∙ sym (is_some-info_of (scheduler.job_of id s) ∙ known),
          remove.0 ∙ sym (is_some-info_of (scheduler.job_of id s) ∙ known),
          ap info_of pause.1
              ∙ info_of-if (id == other) (without_run (scheduler.job_of other s))
                  (scheduler.job_of other s)
              ∙ rw (info_of-without_run (scheduler.job_of other s)) refl,
          ap info_of remove.1 ∙ info_of-if (id == other) none (scheduler.job_of other s),
        )
  ]
