-- ===== src/Stats.antt =====
-- framework/src/apatchy/utils/stats_exporter.py (`StatsExporter`) and the dictionaries of
-- framework/src/apatchy/fuzzers/types.py.
-- `stat.json` is held by what `json.loads` makes of it; what `json.dumps` writes is read back as it
-- was written. The monotonic clock is a number of ticks, the wall clock a text: both, and what the
-- crash counter returns, are readings that a call is given.
pub mod Flush
pub mod Events
pub mod Mutators
pub mod Pulses
mod Tests
use apatchy.Base.{
  ◌>>=◌, ℕ, suc, ◌+◌, String, Bool, true, false, ◌&&◌, ◌||◌, Option, none, some, List, [], ◌∷◌,
  ◌++◌, map, ltb, eqb, if◌then◌else◌, ◌==◌, string_eq, contains,
}
use apatchy.Base.Dict.{Dict, lookup, get_or, insert}
use apatchy.Base.Text.{split_on, strip, int}

pub record Pulse : Type 0 where
  pub time : String
  pub edges : ℕ
  pub features : ℕ
  pub corpus : ℕ
  pub corpus_size : String
  pub total_execs : ℕ
  pub exec_s : ℕ
  pub worker_exec_s : Option ℕ
  pub rss : String
  pub crashes : ℕ

pub record Event : Type 0 where
  pub kind : String
  pub time : String
  pub value : String

pub record Session : Type 0 where
  pub start_time : String
  pub workers : ℕ
  pub pulses : List Pulse
  pub events : List Event
  pub mutators : Dict String ℕ

-- `missing`: there is no file. `broken`: a `JSONDecodeError` or an `OSError`. `other`: JSON that is
-- no list. The sessions are as an exporter writes them: a list of entries of another shape, on which
-- `.get("start_time")` may raise an exception, is not among these files.
pub data StatFile : Type 0 where
  missing broken other : StatFile
  sessions : List Session → StatFile

pub record Exporter : Type 0 where
  pub pulse_interval : ℕ
  pub last_pulse_time : ℕ
  pub session : Session

-- `time.monotonic()`, `time.strftime(...)` and `crash_counter()`, 0 where there is no counter.
pub record Reading : Type 0 where
  pub now : ℕ
  pub stamp : String
  pub crashes : ℕ

-- The object, the file, and whether a `ValueError` of `int` left the call.
pub record State : Type 0 where
  pub exporter : Exporter
  pub file : StatFile
  pub raised : Bool

abbrev pub Fields : Type 0
Fields = Dict String String

unfoldable pub init : String → ℕ → ℕ → Exporter
init stamp workers interval = record {
  pulse_interval = interval;
  last_pulse_time = 0;
  session = record {
    start_time = stamp;
    workers = workers;
    pulses = [];
    events = [];
    mutators = [];
  };
}

-- `int(stats.get(key, 0))`
abbrev pub int_field : String → Fields → Option ℕ
int_field key stats = elim (lookup key stats) [ none ↦ some 0 | some text ↦ int text ]

-- `int(raw) if raw else None`
abbrev pub int_or_none : Option String → Option (Option ℕ)
int_or_none none = some none
int_or_none (some text) =
    if text == "" then some none else elim (int text) [ none ↦ none | some n ↦ some (some n) ]

-- The dictionary that `_capture_pulse` appends.
unfoldable pub pulse_of : Reading → Fields → Option Pulse
unfolding int
pulse_of r stats = do
  exec_s ← int_field "exec_s" stats
  edges ← int_field "cov" stats
  features ← int_field "ft" stats
  corpus ← int_field "corp_n" stats
  total_execs ← int_field "run" stats
  worker_exec_s ← int_or_none (lookup "worker_exec_s" stats)
  some (record {
    time = r.stamp;
    edges = edges;
    features = features;
    corpus = corpus;
    corpus_size = get_or "corp_size" stats "0b";
    total_execs = total_execs;
    exec_s = exec_s;
    worker_exec_s = worker_exec_s;
    rss = get_or "rss" stats "0Mb";
    crashes = r.crashes;
  })

abbrev pub add_pulse : Pulse → Session → Session
add_pulse p s = record s { pulses = s.pulses ++ (p ∷ []) }

-- `_load_existing`
unfoldable pub load_existing : StatFile → List Session
load_existing missing = []
load_existing broken = []
load_existing other = []
load_existing (sessions l) = l

-- The list that `_flush` writes: the last session is replaced if it has the same start time.
unfoldable pub merge : List Session → Session → List Session
merge [] s = s ∷ []
merge (x ∷ []) s = if x.start_time == s.start_time then s ∷ [] else x ∷ s ∷ []
merge (x ∷ y ∷ l) s = x ∷ merge (y ∷ l) s

unfoldable pub flush : Session → StatFile → StatFile
unfolding load_existing merge
flush s file = sessions (merge (load_existing file) s)

-- `_capture_pulse` and `_flush`, which `maybe_pulse` and `final_flush` both end with.
abbrev pub capture : Reading → Fields → Exporter → StatFile → State
capture r stats e file = elim (pulse_of r stats) [
  | none ↦ record { exporter = e; file = file; raised = true }
  | some p ↦
      let s = add_pulse p e.session in
      record { exporter = record e { session = s }; file = flush s file; raised = false }
]

-- `self.last_pulse_time and (now - self.last_pulse_time) < self.pulse_interval`
abbrev pub too_soon : ℕ → Exporter → Bool
too_soon now e = ltb 0 e.last_pulse_time && ltb now (e.last_pulse_time + e.pulse_interval)

unfoldable pub maybe_pulse : Reading → Fields → Exporter → StatFile → State
unfolding pulse_of flush
maybe_pulse r stats e file =
    if too_soon r.now e
    then record { exporter = e; file = file; raised = false }
    else capture r stats (record e { last_pulse_time = r.now }) file

unfoldable pub final_flush : Reading → Fields → Exporter → StatFile → State
unfolding pulse_of flush
final_flush r stats e file = capture r stats e file

abbrev pub known_mutators : List String
known_mutators =
    "EraseBytes" ∷ "InsertByte" ∷ "InsertRepeatedBytes" ∷ "ChangeByte" ∷ "ChangeBit"
    ∷ "ShuffleBytes" ∷ "ChangeASCIIInt" ∷ "ChangeBinInt" ∷ "CopyPart" ∷ "CrossOver" ∷ "ManualDict"
    ∷ "PersAutoDict" ∷ "CMP" ∷ "Custom" ∷ "CustomCrossOver" ∷ []

-- `name in self.KNOWN_MUTATORS`
unfoldable pub is_known : String → Bool
is_known name = contains known_mutators name

-- The loop of `record_mutators` over the names of the strategy.
unfoldable pub count_mutators : List String → Dict String ℕ → Dict String ℕ
unfolding insert strip
count_mutators [] m = m
count_mutators (word ∷ words) m =
    let name = strip word in
    count_mutators words (if is_known name then insert name (get_or name m 0 + 1) m else m)

unfoldable pub record_mutators : String → Exporter → Exporter
unfolding split_on
record_mutators strategy e = record e {
  session = record e.session {
    mutators = count_mutators (split_on b'-' strategy) e.session.mutators;
  };
}

abbrev pub values : List Event → List String
values [] = []
values (e ∷ events) = e.value ∷ values events

-- A function is reported once: `any(e["value"] == value for e in events)`.
unfoldable pub record_event : String → String → String → Exporter → Exporter
record_event kind value stamp e =
    if kind == "last_func" && contains (values e.session.events) value then e else record e {
      session = record e.session {
        events = e.session.events ++ (record { kind = kind; time = stamp; value = value } ∷ []);
      };
    }

-- What `LibFuzzerUI` calls while the fuzzer runs.
pub data Call : Type 0 where
  pulse : Reading → Fields → Call
  mutators : String → Call
  event : String → String → String → Call

unfoldable pub call : Call → State → State
unfolding maybe_pulse record_mutators record_event
call (pulse r stats) s = maybe_pulse r stats s.exporter s.file
call (mutators strategy) s = record s { exporter = record_mutators strategy s.exporter }
call (event kind value stamp) s = record s { exporter = record_event kind value stamp s.exporter }

-- A run of calls; an exception ends it.
unfoldable pub calls : List Call → State → State
unfolding call
calls [] s = s
calls (c ∷ cs) s = let next = calls cs (call c s) in if s.raised then s else next
