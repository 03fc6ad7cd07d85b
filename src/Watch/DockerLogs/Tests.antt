-- ===== src/Watch/DockerLogs/Tests.antt =====
-- A stream of two frames, over a pipe of bytes.
use metrika_agent.Prelude.{
  ℕ, zero, suc, ◌+◌, ◌≡◌, refl, true, false, Option, none, some, List, [], ◌∷◌, take, arith,
}
use metrika_agent.Prelude.Int.{ℤ, pos}
use metrika_agent.Prelude.Outcome.{Yields}
use metrika_agent.Prelude.Error.{Result, ok}
use metrika_agent.Model.{Fields, Event}
use metrika_agent.Watch.{new_watch}
use metrika_agent.Watch.DockerLogs.{
  Read, bytes, at_end, LogNode, DockerLogWatchConf, LogWatch, log_rounds, start_logs, pending_start,
  stop_key, tick, registers,
}
use metrika_agent.Watch.DockerLogs.Framed.{Feeds, no_more, frame, HeardAll, log_rounds-HeardAll}
use metrika_agent.Watch.DockerLogs.Sized.{IfDone, Within, start_logs-Within}

abbrev drop : ℕ → List ℕ → List ℕ
drop zero bs = bs
drop (suc n) [] = []
drop (suc n) (b ∷ bs) = drop n bs

abbrev pipe : ℕ → List ℕ → Read × List ℕ
pipe n [] = (at_end, [])
pipe n (b ∷ bs) = (bytes (take n (b ∷ bs)), drop n (b ∷ bs))

abbrev env : LogNode (List ℕ) ℕ
env = record {
  read = pipe;
  close = λ w. w;
  repair = λ w. (none, w);
  wait = λ w. w;
  stop_closed = λ w. false;
  log_watch_enabled = λ w. true;
  chain = λ w. record {
    node_id = "1";
    node_role = "consensus";
    node_version = "v1";
    network = "mainnet";
  };
  clock = λ t. (pos t, t + 1);
  new_struct = λ fields. ok fields;
  parse_json = λ line. ok [];
}

abbrev told : Fields → ℤ → Result (Option Event)
told body t = ok (some (record { name = "OnVoting"; timestamp = t; values = none }))

abbrev conf : DockerLogWatchConf
conf = record {
  container_name = "node";
  events = ("OnVoting", told) ∷ [];
  retry_intv = pos 1;
  pending_start_interval = pos 1;
}

abbrev two_frames : List ℕ
two_frames = 1 ∷ 0 ∷ 0 ∷ 0 ∷ 0 ∷ 0 ∷ 0 ∷ 2 ∷ 123 ∷ 125 ∷ 2 ∷ 0 ∷ 0 ∷ 0 ∷ 0 ∷ 0 ∷ 0 ∷ 1 ∷ 50 ∷ []

abbrev two_lines : List (List ℕ)
two_lines = (123 ∷ 125 ∷ []) ∷ (50 ∷ []) ∷ []

abbrev reader : LogWatch (List ℕ) ℕ
reader = record {
  watch = new_watch;
  missing = false;
  buf_len = 1024;
  buf_cap = 1024;
  returned = false;
  node = two_frames;
  time = 5;
}

feeds : Feeds env two_lines two_frames []
feeds = frame refl 1 refl refl (frame refl 2 refl refl no_more)

log_rounds-HeardAll_example :
    Yields (HeardAll env conf two_lines [] reader) (log_rounds env conf 1 2 reader)
unfolding new_watch
log_rounds-HeardAll_example =
    log_rounds-HeardAll env conf 1 two_lines reader
      (record { runs = refl; there = refl; goes_on = refl }) feeds (omega arith, (omega arith, tt))

start_logs-Within_example :
    IfDone (Within env conf) (start_logs env conf 2 2 new_watch two_frames 5)
start_logs-Within_example = start_logs-Within env conf 2 2 new_watch two_frames 5

waits_for_a_role : pending_start (tick "" true ∷ tick "consensus" true ∷ stop_key ∷ []) ≡ registers
unfolding pending_start
waits_for_a_role = refl
