-- ===== src/Stats/Tests.antt =====
-- The exporter on concrete data, and its theorems at concrete inputs.
use apatchy.Base.{
  ℕ, ◌+◌, ◌*◌, ◌≤◌, ◌≡◌, refl, String, some, none, List, [], ◌∷◌, ◌++◌, arith, false, string_eq,
  ne_of_==, length, if◌then◌else◌,
}
use apatchy.Base.Dict.{get_or}
use apatchy.Base.Text.{split_on}
use apatchy.Stats.{
  Pulse, Session, missing, sessions, Exporter, Reading, State, Fields, Call, pulse, mutators,
  pulse_of, add_pulse, load_existing, final_flush, calls, is_known, record_mutators, record_event,
  count_mutators,
}
use apatchy.Stats.Flush.{EndsBefore, final_flush-calls}
use apatchy.Stats.Events.{Fresh, record_event-Fresh}
use apatchy.Stats.Mutators.{occurrences, get_or-record_mutators}
use apatchy.Stats.Pulses.{calls-rate}

abbrev start : String
start = "2026-01-02T10:00:00"

abbrev exporter : Exporter
exporter = record {
  pulse_interval = 60;
  last_pulse_time = 0;
  session = record { start_time = start; workers = 4; pulses = []; events = []; mutators = [] };
}

abbrev earlier : List Session
earlier =
    record {
      start_time = "2026-01-01T09:00:00";
      workers = 1;
      pulses = [];
      events = [];
      mutators = [];
    }
    ∷ []

abbrev at : ℕ → Reading
at now = record { now = now; stamp = start; crashes = 2 }

abbrev stats : Fields
stats =
    ("cov", "120")
    ∷ ("ft", "300")
    ∷ ("corp_n", "17")
    ∷ ("corp_size", "2Kb")
    ∷ ("exec_s", "900")
    ∷ []

abbrev line : Pulse
line = record {
  time = start;
  edges = 120;
  features = 300;
  corpus = 17;
  corpus_size = "2Kb";
  total_execs = 0;
  exec_s = 900;
  worker_exec_s = none;
  rss = "0Mb";
  crashes = 2;
}

numeric : pulse_of (at 5) stats ≡ some line
unfolding pulse_of string_eq
numeric = refl

not_numeric : pulse_of (at 5) (("cov", "1x") ∷ []) ≡ none
unfolding pulse_of string_eq
not_numeric = refl

abbrev script : List Call
script =
    pulse (at 10) stats
    ∷ pulse (at 50) stats
    ∷ mutators "CMP- CrossOver-Odd"
    ∷ pulse (at 70) stats
    ∷ []

abbrev begin : State
begin = record { exporter = exporter; file = missing; raised = false }

two_pulses : length (calls script begin).exporter.session.pulses ≡ 2
unfolding calls string_eq is_known count_mutators
two_pulses = refl

final_flush-calls_example :
    let s =
      calls script (record { exporter = exporter; file = sessions earlier; raised = false }) in
    (final_flush (at 5) stats s.exporter s.file).file
    ≡ sessions (earlier ++ (add_pulse line s.exporter.session ∷ []))
unfolding load_existing string_eq
final_flush-calls_example =
    final_flush-calls earlier script exporter (sessions earlier) (at 5) stats differ held numeric
  where
    differ : EndsBefore start earlier
    differ = ne_of_== "2026-01-01T09:00:00" start refl

    held : load_existing (sessions earlier) ≡ earlier
    held = refl

record_event-Fresh_example : Fresh [] (record_event "last_func" "f" start exporter).session.events
record_event-Fresh_example = record_event-Fresh "last_func" "f" start exporter tt

get_or-record_mutators_example :
    get_or "CMP" (record_mutators "CMP-Odd-CMP" exporter).session.mutators 0
    ≡ 0 + (if is_known "CMP" then occurrences "CMP" (split_on b'-' "CMP-Odd-CMP") else 0)
get_or-record_mutators_example = get_or-record_mutators "CMP" "CMP-Odd-CMP" exporter

cmp_twice : get_or "CMP" (record_mutators "CMP-Odd- CMP " exporter).session.mutators 0 ≡ 2
unfolding record_mutators count_mutators is_known string_eq
cmp_twice = refl

abbrev running : State
running = record {
  exporter = record exporter { last_pulse_time = 3 };
  file = missing;
  raised = false;
}

calls-rate_example :
    let t = calls script running in
    length t.exporter.session.pulses * 60 + 3 ≤ 0 * 60 + t.exporter.last_pulse_time
calls-rate_example = calls-rate script running (omega arith) (omega arith)
