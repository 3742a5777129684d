-- ===== src/Runner/Examples.antt =====
-- A weekly item that is generated on an AMD device.
use littleorbit.Prelude.{◌≡◌, refl, true, false, not, ◌&&◌, if◌then◌else◌, some, List, [], ◌∷◌}
use littleorbit.Queue.{AiWorkItem, AiWorkLease, WorkKind}
use littleorbit.Queue.Releases.{any_holds}
use littleorbit.Queue.{
  heartbeat_work, complete_work, retry_work, lease_is_current, require_current_lease, find_item,
}
use littleorbit.Runner.Work.{
  Course, Generated, gives, ai_run_is_finished, run_generation_horizon, claim_ai_run, find_run,
  claim_row, horizon_of, finish_horizon,
}
use littleorbit.Runner.Work.Horizon.{run_generation_horizon_once}
use littleorbit.GpuLock.{acquired}
use littleorbit.Runner.{Settings, Probe, Ending, Events, run_lease}
use littleorbit.Runner.Endings.{is_proved, left, run_lease_ends, run_lease-lock}
use littleorbit.Runner.Completed.{is_passed, is_ready, run_lease_completes}

abbrev lease : AiWorkLease
lease = record { id = 4; kind = WorkKind.weekly_generation; scheduled_at = 100; token = 77 }

abbrev settings : Settings
settings = record {
  is_amd = true;
  verify_idle_processes = true;
  stale_after = 900;
  retry_after = 600;
}

abbrev beats : List AiWorkItem → List AiWorkItem
beats items = (heartbeat_work lease 210 items).1

abbrev events : Events
events = record {
  ending = Ending.timed_out;
  probe = Probe.unproved;
  heartbeat_done = false;
  during = beats;
  completed_at = 300;
  retried_at = 301;
}

abbrev items : List AiWorkItem
items =
    record {
      id = 4;
      kind = WorkKind.weekly_generation;
      scheduled_at = 100;
      next_attempt_at = some 100;
      attempt_count = 1;
      lease_token = some 77;
      heartbeat_at = some 200;
    }
    ∷ []

run_lease_ends_example :
    any_holds lease (run_lease settings events lease items acquired).items ≡ false
run_lease_ends_example = run_lease_ends settings events lease items refl

run_lease-lock_example :
    (left (run_lease settings events lease items acquired)).locked
    ≡ true && not (is_proved Probe.unproved)
run_lease-lock_example = run_lease-lock settings events lease items

-- The work finishes on an idle device, with the row still under the lease.
abbrev proper : Events
proper = record events { ending = Ending.finished; probe = Probe.proved }

run_lease_completes_example :
    (is_passed (run_lease settings proper lease items acquired).answer
      ≡ is_ready proper && (complete_work lease 300 (beats items)).0)
    × ((run_lease settings proper lease items acquired).items ≡ (
        if is_ready proper
        then (complete_work lease 300 (beats items)).1
        else (retry_work lease 301 600 (beats items)).1))
run_lease_completes_example = run_lease_completes settings proper lease items refl

abbrev course : Course
course = record {
  at_start = items;
  at_check = items;
  at_finish = items;
  started_at = 210;
  finished_at = 250;
}

abbrev generated : Generated
generated =
    gives
      (record {
        generated_days = 6;
        fallback_days = 1;
        existing_days = 0;
        context_stale_sources = 0;
      })
      (record {
        generated_days = 7;
        fallback_days = 0;
        existing_days = 0;
        context_stale_sources = 2;
      })

run_generation_horizon_once_example :
    (ai_run_is_finished 738_001 (run_generation_horizon 738_001 lease course generated []).1 ≡ true)
    × ((run_generation_horizon 738_001
          (record lease { token = 5 })
          course
          Generated.raises
          (run_generation_horizon 738_001 lease course generated []).1).1
        ≡ (run_generation_horizon 738_001 lease course generated []).1)
unfolding require_current_lease lease_is_current find_item run_generation_horizon claim_ai_run
    find_run claim_row horizon_of finish_horizon
run_generation_horizon_once_example =
    run_generation_horizon_once 738_001 lease course generated [] (record lease { token = 5 })
      course Generated.raises refl refl
