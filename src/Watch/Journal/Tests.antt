-- ===== src/Watch/Journal/Tests.antt =====
-- A journal with one line after an error, and one that cannot be opened.
use Prim.Native.String.{String}
use metrika_agent.Prelude.{
  ℕ, zero, suc, ◌+◌, ◌≡◌, refl, Bool, true, false, Option, none, some, List, [], ◌∷◌,
}
use metrika_agent.Prelude.Int.{pos}
use metrika_agent.Prelude.Error.{Error, Result, ok, err, failure}
use metrika_agent.Model.Events.{new_with_ctx, new_with_filtered_ctx}
use metrika_agent.Watch.{new_watch, start_unsafe, emit_agent_node_event, emit}
use metrika_agent.Watch.Journal.{
  JournalNode, JournaldLogWatchConf, JournalWatch, reset_journal, progress_journal, journal_round,
  journal_rounds, start_journal,
}
use metrika_agent.Watch.Journal.Heard.{InTurn, start_journal-InTurn, Waits, journal_rounds-Waits}

-- The state counts the entries that have been asked for; the second is an error.
abbrev entry_at : ℕ → Result (Option (List (String × String)))
entry_at (suc zero) = err (failure "bad message")
entry_at n = ok (some (("MESSAGE", "started") ∷ []))

abbrev opened : Bool → Option Error
opened true = none
opened false = some (failure "no such file")

abbrev env : Bool → JournalNode ℕ ℕ
env opens = record {
  open_journal = λ w. (opened opens, w);
  add_match = λ m w. (none, w);
  add_disjunction = λ w. (none, w);
  seek_tail = λ w. (none, w);
  next = λ w. (ok 1, w);
  get_entry = λ w. (entry_at w, w + 1);
  wait = λ w. w;
  close = λ w. w;
  stop_closed = λ w. false;
  chain = λ w. record {
    node_id = "1";
    node_role = "consensus";
    node_version = "v1";
    network = "mainnet";
  };
  clock = λ t. (pos t, t + 1);
  new_struct = λ fields. ok fields;
  parse_json = λ v. err (failure "not JSON");
}

abbrev conf : JournaldLogWatchConf
conf = record {
  unit_name = "flow.service";
  has_journal = false;
  events = [];
  pending_start_interval = pos 1;
}

abbrev watch : Bool → JournalWatch ℕ ℕ
watch journal = record {
  watch = new_watch;
  journal = journal;
  log_missing = true;
  told = [];
  returned = false;
  node = 0;
  time = 0;
}

start_journal-InTurn_example : InTurn (env true) conf (start_journal (env true) conf 3 (watch true))
start_journal-InTurn_example =
    start_journal-InTurn (env true) conf 3 (watch true) (record { agrees = refl; turns = tt })

found_lost_found : (start_journal (env true) conf 3 (watch true)).told ≡ true ∷ false ∷ true ∷ []
unfolding start_journal journal_rounds journal_round reset_journal progress_journal new_watch
    start_unsafe emit_agent_node_event emit new_with_ctx new_with_filtered_ctx
found_lost_found = refl

journal_rounds-Waits_example :
    Waits (env false) conf (journal_rounds (env false) conf 5 (watch false))
unfolding reset_journal
journal_rounds-Waits_example =
    journal_rounds-Waits (env false) conf (λ w. (failure "no such file", w, refl)) 5 (watch false)
      (record { lost = refl; goes_on = refl })
