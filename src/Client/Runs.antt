-- ===== src/Client/Runs.antt =====
-- A run of the queue: a message is pushed, looked for and handed out.
use txmlconnector.Common.{true, false, ◌<◌, ◌≤◌, min, All, get_or, arith, ◌≡◌, refl, [], ◌∷◌}
use txmlconnector.Client.Reconnect.{
  ReconnectConfig, normalize_reconnect_config, no_client, session, Round, supervise,
  run_with_reconnect,
}
use txmlconnector.Client.Reconnect.Delays.{IsBetween, run_with_reconnect-IsBetween}
use txmlconnector.Client.Reconnect.Growth.{IsFailing, doubled, run_with_reconnect_grows}
use txmlconnector.Common.{refl, [], ◌∷◌}
use txmlconnector.Client.Queue.Steps.{
  System, Reachable, start, step, pushes, enters, looks, IsSound, Reachable-IsSound, started,
  pushed, locking, waiting,
}

-- The consumer enters and waits, then a message comes.
abbrev entered : System
entered = record started { consumer = locking }

abbrev asleep : System
asleep = record started { consumer = waiting }

asleep-Reachable : Reachable (pushed (65 ∷ []) asleep)
asleep-Reachable =
    step asleep (pushed (65 ∷ []) asleep)
      (step entered asleep (step started entered start (enters started refl)) (looks entered refl))
      (pushes (65 ∷ []) asleep)

Reachable-IsSound_example : IsSound (pushed (65 ∷ []) asleep)
Reachable-IsSound_example = Reachable-IsSound asleep-Reachable

abbrev quick : ReconnectConfig
quick = record { retry_min = 2; retry_max = 9; session_stable_after = 50; disconnect_timeout = 0 }

-- A session that fails behind three nanoseconds.
abbrev failing : Round
failing = record {
  ended = false;
  attempt = session true 3;
  ended_after = false;
  ended_waiting = false;
}

abbrev no_maker : Round
no_maker = record { ended = false; attempt = no_client; ended_after = false; ended_waiting = false }

run_with_reconnect-IsBetween_example :
    (0 < (normalize_reconnect_config quick).retry_min)
    × All
        (IsBetween (normalize_reconnect_config quick))
        (run_with_reconnect quick (failing ∷ no_maker ∷ [])).waits
run_with_reconnect-IsBetween_example = run_with_reconnect-IsBetween quick (failing ∷ no_maker ∷ [])

failing-IsFailing : IsFailing (normalize_reconnect_config quick) failing
unfolding normalize_reconnect_config
failing-IsFailing = record {
  begun = refl;
  failed = (refl, omega arith);
  not_ended_after = refl;
  not_cut_off = refl;
}

no_maker-IsFailing : IsFailing (normalize_reconnect_config quick) no_maker
no_maker-IsFailing = record {
  begun = refl;
  failed = tt;
  not_ended_after = refl;
  not_cut_off = refl;
}

run_with_reconnect_grows_example :
    min
      (doubled 1 (normalize_reconnect_config quick).retry_min)
      (normalize_reconnect_config quick).retry_max
    ≤ get_or (run_with_reconnect quick (failing ∷ no_maker ∷ [])).waits 1 0
run_with_reconnect_grows_example =
    run_with_reconnect_grows quick (failing ∷ no_maker ∷ []) 1
      (failing-IsFailing, (no_maker-IsFailing, tt)) (omega arith)

-- Delays that grow to the greatest and stay there; a stable session resets them.
quick_waits :
    run_with_reconnect quick (
      failing
      ∷ no_maker
      ∷ failing
      ∷ no_maker
      ∷ record failing { attempt = session true 60 }
      ∷ failing
      ∷ [])
    ≡ record { waits = 2 ∷ 4 ∷ 9 ∷ 9 ∷ 2 ∷ 4 ∷ []; returned = false }
unfolding run_with_reconnect supervise normalize_reconnect_config
quick_waits = refl
