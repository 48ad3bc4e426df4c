-- ===== src/WhiteRabbit.antt =====
-- core/cat/looking_glass/white_rabbit.py: jobs that run later. APScheduler is a parameter, with its
-- documented laws; `J` is the type of what is given as a job. Times are in microseconds. An instant is a
-- number, and so is what a clock shows, read as if it were UTC.
pub mod Jobs
mod Tests
use cat_forked.Prelude.{
  ℕ, ◌+◌, ◌*◌, ◌/◌, ◌≡◌, String, Bool, true, false, not, Option, none, some, List, [], ◌∷◌, map,
  Dict, is_some, ◌==◌, leb, if◌then◌else◌,
}
use Names.{date_id, interval_id, cron_id, chat_id}
pub mod Names

-- The fields of a cron expression that are given.
pub record Cron : Type 0 where
  pub year : Option String
  pub month : Option String
  pub day : Option String
  pub week : Option String
  pub day_of_week : Option String
  pub hour : Option String
  pub minute : Option String
  pub second : Option String

pub record Interval : Type 0 where
  pub days : ℕ
  pub hours : ℕ
  pub minutes : ℕ
  pub seconds : ℕ

pub data Trigger : Type 0 where
  date : ℕ → Trigger
  interval : Option ℕ → Option ℕ → Interval → Trigger
  cron : Option ℕ → Option ℕ → Cron → Trigger

-- A job of the store; one that is paused has no next run.
pub record Job (J : Type 0) : Type 0 where
  pub id : String
  pub name : String
  pub next_run_time : Option ℕ
  pub function : J
  pub trigger : Trigger
  pub kwargs : Dict String

abbrev pub without_run : {J : Type 0} → Option (Job J) → Option (Job J)
without_run none = none
without_run (some job) = some (record job { next_run_time = none })

-- The scheduler: a call that raises gives `false`. `entry` is the job that is stored for a function.
pub record Scheduler (J : Type 0) : Type 1 where
  pub State : Type 0
  pub callable : J → Bool
  pub name_of : J → String
  pub job_of : String → State → Option (Job J)
  pub jobs : State → List (Job J)
  pub entry : J → Trigger → String → Dict String → State → Job J
  pub add_job : J → Trigger → String → Dict String → State → Bool × State
  pub pause : String → State → Bool × State
  pub resume : String → State → Bool × State
  pub remove : String → State → Bool × State
  -- The thread of the scheduler runs what is due at an instant; a job for a date runs once and is gone.
  pub process_jobs : ℕ → State → State
  pub entry-date :
      (job : J) (t : ℕ) (id : String) (kwargs : Dict String) (s : State)
      → let e = entry job (date t) id kwargs s in
        (e.id ≡ id)
        × (e.next_run_time ≡ some t)
        × (e.function ≡ job)
        × (e.kwargs ≡ kwargs)
        × (e.trigger ≡ date t)
  -- `ConflictingIdError`
  pub add_job-known :
      (job : J) (t : Trigger) (id : String) (kwargs : Dict String) (s : State)
      → is_some (job_of id s) ≡ true
      → add_job job t id kwargs s ≡ (false, s)
  pub add_job-new :
      (job : J) (t : Trigger) (id : String) (kwargs : Dict String) (s : State) (other : String)
      → job_of id s ≡ none
      → ((add_job job t id kwargs s).0 ≡ true)
        × (job_of other (add_job job t id kwargs s).1
            ≡ (if id == other then some (entry job t id kwargs s) else job_of other s))
  -- `JobLookupError`
  pub pause_unknown : (id : String) (s : State) → job_of id s ≡ none → pause id s ≡ (false, s)
  pub pause_known :
      (id : String) (s : State) (other : String)
      → is_some (job_of id s) ≡ true
      → ((pause id s).0 ≡ true)
        × (job_of other (pause id s).1
            ≡ (if id == other then without_run (job_of other s) else job_of other s))
  pub remove_unknown : (id : String) (s : State) → job_of id s ≡ none → remove id s ≡ (false, s)
  pub remove_known :
      (id : String) (s : State) (other : String)
      → is_some (job_of id s) ≡ true
      → ((remove id s).0 ≡ true)
        × (job_of other (remove id s).1 ≡ (if id == other then none else job_of other s))
  pub process_jobs-date :
      (id : String) (now t : ℕ) (job : Job J) (s : State)
      → job_of id s ≡ some job
      → job.trigger ≡ date t
      → job.next_run_time ≡ some t
      → job_of id (process_jobs now s) ≡ (if leb t now then none else some job)

-- What `get_job` answers.
pub record JobInfo : Type 0 where
  pub id : String
  pub name : String
  pub next_run : Option ℕ

abbrev pub info : {J : Type 0} → Job J → JobInfo
info job = record { id = job.id; name = job.name; next_run = job.next_run_time }

abbrev pub info_of : {J : Type 0} → Option (Job J) → Option JobInfo
info_of none = none
info_of (some job) = some (info job)

pub record Delay : Type 0 where
  pub days : ℕ
  pub hours : ℕ
  pub minutes : ℕ
  pub seconds : ℕ
  pub milliseconds : ℕ
  pub microseconds : ℕ

-- `timedelta(...)`
abbrev pub timedelta : Delay → ℕ
timedelta d =
    d.microseconds
    + 1000 * d.milliseconds
    + 1000000 * (d.seconds + 60 * d.minutes + 3600 * d.hours + 86400 * d.days)

module _ {J : Type 0} (scheduler : Scheduler J) where
  unfoldable pub get_job : String → scheduler.State → Option JobInfo
  get_job job_id s = info_of (scheduler.job_of job_id s)

  unfoldable pub get_jobs : scheduler.State → List JobInfo
  get_jobs s = map info (scheduler.jobs s)

  unfoldable pub pause_job : String → scheduler.State → Bool × scheduler.State
  pause_job job_id s = scheduler.pause job_id s

  unfoldable pub resume_job : String → scheduler.State → Bool × scheduler.State
  resume_job job_id s = scheduler.resume job_id s

  unfoldable pub remove_job : String → scheduler.State → Bool × scheduler.State
  remove_job job_id s = scheduler.remove job_id s

  -- `if job_id is None`
  abbrev pub id_or : Option String → String → String
  id_or none generated = generated
  id_or (some job_id) generated = job_id

  -- The id where the scheduler takes the job; `none` is an exception.
  abbrev pub answered : String → Bool × scheduler.State → Option String × scheduler.State
  answered job_id (true, s) = (some job_id, s)
  answered job_id (false, s) = (none, s)

  abbrev pub added :
      J → Trigger → String → Dict String → scheduler.State → Option String × scheduler.State
  added job trigger job_id kwargs s =
      if not (scheduler.callable job)
      then (none, s)
      else answered job_id (scheduler.add_job job trigger job_id kwargs s)

  -- `strftime` writes a time to the second, and `str` a number. `today` is what the clock of the host shows
  -- at an instant, in the host's zone and without naming it; the scheduler reads such a time as UTC.
  module _ (strftime : ℕ → String) (str : ℕ → String) (today : ℕ → ℕ) where
    unfoldable pub schedule_job :
        J
        → Option String
        → Delay
        → Dict String
        → ℕ
        → scheduler.State
        → Option String × scheduler.State
    schedule_job job job_id delay kwargs now s =
        let schedule = today now + timedelta delay in
        added job (date schedule)
          (id_or job_id (date_id (scheduler.name_of job) (strftime schedule))) kwargs s

    unfoldable pub schedule_interval_job :
        J
        → Option String
        → Option ℕ
        → Option ℕ
        → Interval
        → Dict String
        → scheduler.State
        → Option String × scheduler.State
    schedule_interval_job job job_id start_date end_date every kwargs s =
        added job (interval start_date end_date every)
          (id_or job_id (
            interval_id (scheduler.name_of job) (str every.days) (str every.hours)
              (str every.minutes) (str every.seconds)))
          kwargs s

    unfoldable pub schedule_cron_job :
        J
        → Option String
        → Option ℕ
        → Option ℕ
        → Cron
        → Dict String
        → scheduler.State
        → Option String × scheduler.State
    schedule_cron_job job job_id start_date end_date fields kwargs s =
        added job (cron start_date end_date fields) (id_or job_id (cron_id (scheduler.name_of job)))
          kwargs s

    -- `send_ws_message` is the method of the user's cat.
    unfoldable pub schedule_chat_message :
        String → J → Delay → ℕ → scheduler.State → Option String × scheduler.State
    schedule_chat_message content send_ws_message delay now s =
        let schedule = today now + timedelta delay in
        let job_id = chat_id (strftime schedule) in
        answered job_id (
          scheduler.add_job send_ws_message (date schedule) job_id
            (("content", content) ∷ ("msg_type", "chat") ∷ []) s)
