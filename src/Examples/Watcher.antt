-- ===== src/Examples/Watcher.antt =====
-- Rounds of the update watcher (honker-core/src/lib.rs).
use honker.Watcher.{
  run_poll_loop, locked, fresh, same, refused, subscribe, failed, Answers, Query, Poll, version,
  reopened, no_subscribers, start_poll,
}
use honker.Watcher.Wakes.{run_poll_loop_wakes, AllHeard}
use honker.Base.{◌≡◌, refl, true, false, some, List, [], ◌∷◌}

abbrev two_subscribers : Poll
two_subscribers = start_poll (reopened (some 3)) (subscribe (subscribe no_subscribers).1).1.channels

abbrev asked : Query → Answers
asked q = record { query = q; reopen = refused; identity = same }

abbrev one_commit : List Answers
one_commit = asked (version 3) ∷ asked locked ∷ asked (version 4) ∷ asked (version 4) ∷ []

run_poll_loop_wakes_example : AllHeard (run_poll_loop one_commit two_subscribers).channels
run_poll_loop_wakes_example = run_poll_loop_wakes one_commit two_subscribers refl refl refl

both_ticked :
    (run_poll_loop one_commit two_subscribers).channels
    ≡ record (fresh 1) { ticked = true } ∷ record (fresh 0) { ticked = true } ∷ []
unfolding run_poll_loop
both_ticked = refl

-- A commit while there is no connection: the new connection takes its version as the last one, and
-- the subscriber is not woken.
abbrev lost_commit : List Answers
lost_commit =
    record { query = failed; reopen = reopened (some 9); identity = same } ∷ asked (version 9) ∷ []

abbrev without_connection : Poll
without_connection = record {
  connected = false;
  last_version = 3;
  running = true;
  channels = fresh 0 ∷ [];
}

not_woken : (run_poll_loop lost_commit without_connection).channels ≡ fresh 0 ∷ []
unfolding run_poll_loop
not_woken = refl
