-- ===== src/WhiteRabbit/Tests.antt =====
-- Runs on a scheduler whose store is a function of the id.
use cat_forked.Prelude.{
  ℕ, zero, suc, ◌/◌, ◌≡◌, refl, ap, String, Bool, true, false, Option, none, some, [], Dict,
  is_some, arith, ◌==◌, eq_iff, ◌∙◌, ◌+◌, leb, if◌then◌else◌,
}
use cat_forked.WhiteRabbit.{
  Trigger, date, Job, without_run, Scheduler, Delay, get_job, pause_job, remove_job, schedule_job,
  schedule_chat_message,
}
use cat_forked.WhiteRabbit.Jobs.{
  next_of, paused, schedule_job-get_job, schedule_chat_message-same_second, pause_job-remove_job,
}

abbrev Store : Type 0
Store = String → Option (Job String)

abbrev run_of : Trigger → Option ℕ
run_of (date t) = some t
run_of _ = none

abbrev new_job : String → Trigger → String → Dict String → Job String
new_job job t id kwargs = record {
  id = id;
  name = job;
  next_run_time = run_of t;
  function = job;
  trigger = t;
  kwargs = kwargs;
}

abbrev with : String → Option (Job String) → Store → Store
with id o s = λ other. if id == other then o else s other

abbrev add : Option (Job String) → Job String → Store → Bool × Store
add none new s = (true, with new.id (some new) s)
add (some old) new s = (false, s)

abbrev change : Option (Job String) → Option (Job String) → String → Store → Bool × Store
change none o id s = (false, s)
change (some old) o id s = (true, with id o s)

add-known :
    (o : Option (Job String)) (new : Job String) (s : Store)
    → is_some o ≡ true
    → add o new s ≡ (false, s)
add-known none new s h = absurd (ground arith)
add-known (some old) new s h = refl

add-new :
    (o : Option (Job String)) (new : Job String) (s : Store) (other : String)
    → o ≡ none
    → ((add o new s).0 ≡ true)
      × ((add o new s).1 other ≡ (if new.id == other then some new else s other))
add-new none new s other h = (refl, refl)
add-new (some old) new s other h = absurd (ground arith)

change_unknown :
    (o p : Option (Job String)) (id : String) (s : Store) → o ≡ none → change o p id s ≡ (false, s)
change_unknown none p id s h = refl
change_unknown (some old) p id s h = absurd (ground arith)

change_known :
    (o p : Option (Job String)) (id : String) (s : Store) (other : String)
    → is_some o ≡ true
    → ((change o p id s).0 ≡ true)
      × ((change o p id s).1 other ≡ (if id == other then p else s other))
change_known none p id s other h = absurd (ground arith)
change_known (some old) p id s other h = (refl, refl)

pause_at :
    (id other : String) (s : Store)
    → (if id == other then without_run (s id) else s other)
      ≡ (if id == other then without_run (s other) else s other)
pause_at id other s = ground (arith, eq_iff id other, ap (λ (i : String). s i))

-- A job for a date that is due is gone.
abbrev unless_due : ℕ → Option ℕ → Job String → Option (Job String)
unless_due now none job = some job
unless_due now (some t) job = if leb t now then none else some job

abbrev after_run : ℕ → Option (Job String) → Option (Job String)
after_run now none = none
after_run now (some job) = unless_due now job.next_run_time job

after_run-date :
    (now t : ℕ) (job : Job String) (o : Option (Job String))
    → o ≡ some job
    → job.next_run_time ≡ some t
    → after_run now o ≡ (if leb t now then none else some job)
after_run-date now t job o e next = rw e (ap (λ (n : Option ℕ). unless_due now n job) next)

abbrev scheduler : Scheduler String
scheduler = record {
  State = Store;
  callable = λ j. true;
  name_of = λ j. j;
  job_of = λ id s. s id;
  jobs = λ s. [];
  entry = λ j t id kwargs s. new_job j t id kwargs;
  add_job = λ j t id kwargs s. add (s id) (new_job j t id kwargs) s;
  pause = λ id s. change (s id) (without_run (s id)) id s;
  resume = λ id s. change (s id) (s id) id s;
  remove = λ id s. change (s id) none id s;
  process_jobs = λ now s. λ id. after_run now (s id);
  process_jobs-date = λ id now t job s e trigger next. after_run-date now t job (s id) e next;
  entry-date = λ j t id kwargs s. (refl, refl, refl, refl, refl);
  add_job-known = λ j t id kwargs s h. add-known (s id) (new_job j t id kwargs) s h;
  add_job-new = λ j t id kwargs s other h. add-new (s id) (new_job j t id kwargs) s other h;
  pause_unknown = λ id s h. change_unknown (s id) (without_run (s id)) id s h;
  pause_known = λ id s other h.
      let c = change_known (s id) (without_run (s id)) id s other h in
      (c.0, c.1 ∙ pause_at id other s);
  remove_unknown = λ id s h. change_unknown (s id) none id s h;
  remove_known = λ id s other h. change_known (s id) none id s other h;
}

abbrev ticks : ℕ → String
ticks zero = ""
ticks (suc n) = String.◌∷◌ "|" (ticks n)

abbrev to_second : ℕ → String
to_second t = ticks (t / 1000000)

-- The clock of a host two seconds ahead of UTC.
abbrev ahead : ℕ → ℕ
ahead t = t + 2000000

abbrev soon : Delay
soon = record { days = 0; hours = 0; minutes = 0; seconds = 3; milliseconds = 0; microseconds = 5 }

abbrev empty : Store
empty id = none

schedule_job-get_job_example :
    let s' =
      (schedule_job scheduler to_second to_second ahead "wake"
        (some "alarm")
        soon
        []
        1000
        empty).1 in
    (next_of (get_job scheduler "alarm" s') ≡ some 5001005)
    × (get_job scheduler "other" s' ≡ (
        if "alarm" == "other"
        then get_job scheduler "alarm" s'
        else get_job scheduler "other" empty))
unfolding schedule_job
schedule_job-get_job_example =
    schedule_job-get_job scheduler to_second to_second ahead "wake" (some "alarm") soon [] 1000
      empty "alarm" "other" refl

-- Two users, a tenth of a second apart; the first message has not been sent by then.
schedule_chat_message-same_second_example :
    let s₁ =
      (schedule_chat_message scheduler to_second to_second ahead "tea" "anna" soon 1000 empty).1 in
    let (reply', s₂) =
      schedule_chat_message scheduler to_second to_second ahead "cake" "bob" soon 101000
        (scheduler.process_jobs 100000 s₁) in
    (reply' ≡ (if leb 5001005 100000 then some "send_ws_message-|||||" else none))
    × (next_of (get_job scheduler "send_ws_message-|||||" s₂)
        ≡ some (if leb 5001005 100000 then 5101005 else 5001005))
unfolding schedule_chat_message
schedule_chat_message-same_second_example =
    schedule_chat_message-same_second scheduler to_second to_second ahead (λ t u e. ap ticks e)
      "tea" "cake" "anna" "bob" soon soon 1000 100000 101000 empty "send_ws_message-|||||" refl refl

pause_job-remove_job_runs :
    let s = with "alarm" (some (new_job "wake" (date 5) "alarm" [])) empty in
    let (paused_it, s₁) = pause_job scheduler "alarm" s in
    let (removed_it, s₂) = remove_job scheduler "alarm" s in
    let known = is_some (get_job scheduler "alarm" s) in
    let before = get_job scheduler "alarm" s in
    (paused_it ≡ known)
    × (removed_it ≡ known)
    × (get_job scheduler "alarm" s₁ ≡ (if "alarm" == "alarm" then paused before else before))
    × (get_job scheduler "alarm" s₂ ≡ (if "alarm" == "alarm" then none else before))
pause_job-remove_job_runs =
    pause_job-remove_job scheduler "alarm" "alarm"
      (with "alarm" (some (new_job "wake" (date 5) "alarm" [])) empty)
