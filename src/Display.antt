-- ===== src/Display.antt =====
-- framework/src/apatchy/utils/libfuzzer_ui.py: `LibFuzzerUI`, what it reads from the lines of the engine,
-- and the loop that starts the engine again. What is drawn is left out.
-- A numeral that is longer than 4300 digits, which Python's `int` refuses, is not told apart: it is
-- in no line of at most 4300 characters, and with fewer than 10^300 workers in no product of a
-- number of at most 4000 digits.
-- Parameters: the output and the exit codes of the engine, the clock, what is counted on the disk and in
-- the processes, and `Path(p).name`.
pub mod Patterns
pub mod Numerals
pub mod Calls
pub mod Steps
pub mod Counters
pub mod Exported
pub mod Restarts
mod Tests
use apatchy.Base.{
  ℕ, ◌+◌, ◌*◌, ◌/◌, ◌%◌, max, String, ◌<>◌, Bool, true, false, not, ◌&&◌, ◌||◌, Option, none, some,
  List, [], ◌∷◌, ◌++◌, if◌then◌else◌, ltb, eqb, ◌==◌, string_eq, ◌>>=◌, or_default, length, drop,
  ◌-◌,
}
use apatchy.Base.Decimal.{decimal}
use apatchy.Base.Dict.{Dict, lookup, insert, insert_all}
use apatchy.Base.Text.{starts_with, has_text, split_on, strip, rstrip, join, int}
use apatchy.Picker.{ℤ, pos, negsuc}
use apatchy.Stats.{
  Fields, Reading, State, Call, pulse, mutators, event, call, final_flush, int_field,
}
use apatchy.Display.Patterns.{
  status_re, fork_re, match_pieces, search_new_func, after_last, strip_ansi,
}

-- What is read while a line is handled: the clock when it is parsed and when the system is polled, the
-- time of day, the files in the queue, the memory of the processes in megabytes, and the reading that
-- the exporter is given.
pub record Moment : Type 0 where
  pub now : ℕ
  pub polled : ℕ
  pub stamp : String
  pub corpus : ℕ
  pub rss_mb : ℕ
  pub reading : Reading

-- The workers, the ticks of two seconds, the lines that the log keeps, and `Path(p).name`.
pub record Setup : Type 0 where
  pub workers : ℕ
  pub poll_ticks : ℕ
  pub log_height : ℕ
  pub path_name : String → String

pub record Ui : Type 0 where
  pub stats : Fields
  pub last_new_time : ℕ
  pub last_crash_time : ℕ
  pub last_poll : ℕ
  pub last_cov : ℕ
  pub log : List String
  pub exporter : Option State

-- The fields at the start.
abbrev pub initial_stats : Fields
initial_stats =
    ("run", "0")
    ∷ ("event", "INIT")
    ∷ ("cov", "0")
    ∷ ("ft", "0")
    ∷ ("corp_n", "0")
    ∷ ("corp_size", "0b")
    ∷ ("limit", "0")
    ∷ ("exec_s", "0")
    ∷ ("rss", "0Mb")
    ∷ ("length", "0/0")
    ∷ ("strategy", "-")
    ∷ []

abbrev pub initial_ui : Option State → Ui
initial_ui exporter = record {
  stats = initial_stats;
  last_new_time = 0;
  last_crash_time = 0;
  last_poll = 0;
  last_cov = 0;
  log = [];
  exporter = exporter;
}

-- A call of the exporter, if there is one.
abbrev pub export : Call → Option State → Option State
export c none = none
export c (some s) = some (call c s)

abbrev pub set_stats : Fields → Ui → Ui
set_stats stats u = record u { stats = stats }

-- `s.rstrip("-")`
abbrev pub rstrip_dashes : String → String
rstrip_dashes String.[] = ""
rstrip_dashes (String.◌∷◌ c s) =
    let rest = rstrip_dashes s in
    if rest == "" && String.◌∷◌ c "" == "-" then "" else String.◌∷◌ c rest

-- `_poll_system_stats`
unfoldable pub poll_system_stats : Setup → Moment → Bool → Ui → Ui
poll_system_stats k m poll_rss u =
    if ltb m.polled (u.last_poll + k.poll_ticks) then u else record u {
      last_poll = m.polled;
      stats =
          if poll_rss && ltb 0 m.rss_mb
          then insert "rss" (decimal m.rss_mb <> "Mb") u.stats
          else u.stats;
    }

-- A new input: its time, and its mutators if any are named.
abbrev pub note_new : Moment → String → String → Ui → Ui
note_new m kind strategy u =
    if kind == "NEW"
    then record u {
      last_new_time = m.now;
      exporter = if strategy == "" then u.exporter else export (mutators strategy) u.exporter;
    }
    else u

-- A line of `_STATUS_RE`, by its groups.
unfoldable pub on_status : Setup → Moment → List String → Ui → Ui
on_status k m
      (run_count ∷ kind ∷ cov ∷ ft ∷ corp_n ∷ corp_size ∷ limit ∷ exec_s ∷ rss ∷ size ∷ strategy
        ∷ [])
      u =
    let mutation = strip (rstrip_dashes strategy) in
    let stats =
      insert_all
        (("run", run_count)
          ∷ ("event", kind)
          ∷ ("cov", cov)
          ∷ ("ft", ft)
          ∷ ("corp_n", corp_n)
          ∷ ("corp_size", corp_size)
          ∷ ("limit", limit)
          ∷ ("exec_s", exec_s)
          ∷ ("rss", rss)
          ∷ ("length", size)
          ∷ ("strategy", mutation)
          ∷ [])
        u.stats in
    poll_system_stats k m false (note_new m kind mutation (set_stats stats u))
on_status k m _ u = u

-- The clock of a new cover, where a job reports more than the job before it.
abbrev pub note_cov : Moment → ℕ → Ui → Ui
note_cov m cov u = record u {
  last_new_time = if ltb u.last_cov cov then m.now else u.last_new_time;
  last_cov = cov;
}

-- A line of `_FORK_RE`, by its groups; `none` is a `ValueError` of `int`.
unfoldable pub on_fork : Setup → Moment → List String → Ui → Option Ui
on_fork k m (run_count ∷ cov ∷ ft ∷ corp ∷ rate ∷ ooms ∷ timeouts ∷ crashes ∷ time ∷ job ∷ []) u =
    int cov >>= λ new_cov. int_field "cov" u.stats >>= λ old_cov. int ft >>= λ new_ft.
    int_field "ft" u.stats >>= λ old_ft. int rate >>= λ worker_rate. some (
      note_cov m new_cov (
        poll_system_stats k m true (
          set_stats
            (insert_all
              (("run", run_count)
                ∷ ("event", "job " <> job)
                ∷ ("cov", decimal (max new_cov old_cov))
                ∷ ("ft", decimal (max new_ft old_ft))
                ∷ ("corp_n", if ltb 0 m.corpus then decimal m.corpus else corp)
                ∷ ("exec_s", decimal (worker_rate * k.workers))
                ∷ ("worker_exec_s", rate)
                ∷ (
                  "strategy",
                  "oom:" <> (ooms <> (" tout:" <> (timeouts <> (" crash:" <> crashes)))),
                )
                ∷ [])
              u.stats)
            u)))
on_fork k m _ u = some u

-- What follows the first part of a path that starts with httpd-.
abbrev pub below_httpd : List String → Option (List String)
below_httpd [] = none
below_httpd (part ∷ parts) =
    let rest = below_httpd parts in if starts_with part "httpd-" then some parts else rest

abbrev pub short_path : String → String
short_path path = elim (below_httpd (split_on 47 path)) [
  | none ↦ path
  | some parts ↦ join "/" parts
]

-- A line that names a new function, by its groups.
unfoldable pub on_new_func : Moment → List String → Ui → Ui
on_new_func m (func ∷ path ∷ []) u =
    let value = func <> ("  (" <> (short_path path <> ")")) in
    record u {
      stats = insert "last_func" value u.stats;
      exporter = export (event "last_func" value m.stamp) u.exporter;
    }
on_new_func m _ u = u

-- `s.rstrip(";")`
abbrev pub rstrip_semicolons : String → String
rstrip_semicolons String.[] = ""
rstrip_semicolons (String.◌∷◌ c s) =
    let rest = rstrip_semicolons s in
    if rest == "" && String.◌∷◌ c "" == ";" then "" else String.◌∷◌ c rest

abbrev pub crash_name : Setup → String → String
crash_name k after =
    let path = strip (rstrip_semicolons (strip after)) in
    if path == "" then "unknown" else k.path_name path

-- A line that says where a crash was written.
unfoldable pub on_crash : Setup → Moment → String → Ui → Ui
on_crash k m after u = record u {
  last_crash_time = m.now;
  exporter = export (event "crash" (crash_name k after) m.stamp) u.exporter;
}

abbrev pub if_crash : Setup → Moment → Option String → Ui → Ui
if_crash k m none u = u
if_crash k m (some after) u = on_crash k m after u

abbrev pub if_new_func : Setup → Moment → String → Option (List String) → Ui → Ui
if_new_func k m line none u = if_crash k m (after_last "Test unit written to" line) u
if_new_func k m line (some groups) u = on_new_func m groups u

abbrev pub if_fork : Setup → Moment → String → Option (List String) → Ui → Option Ui
if_fork k m line none u = some (if_new_func k m line (search_new_func line) u)
if_fork k m line (some groups) u = on_fork k m groups u

abbrev pub if_status : Setup → Moment → String → Option (List String) → Ui → Option Ui
if_status k m line none u = if_fork k m line (match_pieces fork_re line) u
if_status k m line (some groups) u = some (on_status k m groups u)

-- `_parse_line`: the first pattern that matches.
unfoldable pub parse_line : Setup → Moment → String → Ui → Option Ui
parse_line k m line u = if_status k m line (match_pieces status_re line) u

-- An exception of the exporter leaves the loop.
abbrev pub checked : Option State → Option (Option State)
checked none = some none
checked (some s) = if s.raised then none else some (some s)

-- `self.log_buffer.append(...)`, without the time and the markup; the buffer has a length.
abbrev pub push_log : ℕ → String → List String → List String
push_log height line log = let longer = log ++ (line ∷ []) in drop (length longer - height) longer

-- A line of the output; `none` is an exception.
unfoldable pub handle_line : Setup → Moment → String → Ui → Option Ui
handle_line k m line u =
    let clean = rstrip line in
    let stripped = strip_ansi clean in
    let handled = parse_line k m stripped u >>= λ v.
    checked (export (pulse m.reading v.stats) v.exporter) >>= λ exporter.
    some (record v { exporter = exporter; log = push_log k.log_height stripped v.log }) in
    if clean == "" then some u else handled

-- What the loop gets for a line: its text, or an exception, as where the bytes cannot be decoded or
-- the drawing of the display fails.
abbrev pub EngineLine : Type 0
EngineLine = Moment × Option String

unfoldable pub handle_lines : Setup → List EngineLine → Ui → Option Ui
handle_lines k [] u = some u
handle_lines k ((m, none) ∷ lines) u = none
handle_lines k ((m, some line) ∷ lines) u = handle_line k m line u >>= handle_lines k lines

-- One run of the engine: its lines, and the code that `wait` returns.
pub record EngineRun : Type 0 where
  pub lines : List EngineLine
  pub returncode : ℤ

-- The display after the engine has stopped with a code; an exception; or an engine that has been
-- started again, behind the runs that are given.
pub data Result : Type 0 where
  stopped : Ui → ℤ → Result
  failed : Result
  running : Ui → Result

abbrev pub is_one : ℤ → Bool
is_one (pos n) = eqb n 1
is_one (negsuc n) = false

abbrev pub note_restart : Setup → Ui → Ui
note_restart k u = record u { log = push_log k.log_height "[~] crash saved, restarting..." u.log }

-- The loop: code 1 means a crash, and the engine is started again.
unfoldable pub run_loop : Setup → List EngineRun → Ui → Result
run_loop k [] u = running u
run_loop k (r ∷ runs) u = elim (handle_lines k r.lines u) [
  | none ↦ failed
  | some v ↦
      let again = run_loop k runs (note_restart k v) in
      if is_one r.returncode then again else stopped v r.returncode
]

-- `final_flush` of the exporter, if there is one.
abbrev pub flush_export : Reading → Fields → Option State → Option State
flush_export r stats none = none
flush_export r stats (some s) = some (final_flush r stats s.exporter s.file)

abbrev pub with_exporter : Ui → ℤ → Option (Option State) → Result
with_exporter u code none = failed
with_exporter u code (some exporter) = stopped (record u { exporter = exporter }) code

abbrev pub finish : Reading → Result → Result
finish r (running u) = running u
finish r failed = failed
finish r (stopped u code) = with_exporter u code (checked (flush_export r u.stats u.exporter))

-- `run`, with the reading of the last flush.
unfoldable pub run : Setup → Reading → List EngineRun → Ui → Result
run k r runs u = finish r (run_loop k runs u)

-- `_fmt_duration`, of whole seconds
abbrev pub hours_part : ℕ → ℕ → String
hours_part days hrs =
    (if ltb 0 days then decimal days <> "d " else "")
    <> (if ltb 0 hrs || ltb 0 days then decimal hrs <> "h " else "")

unfoldable pub fmt_duration : ℕ → String
fmt_duration seconds =
    let days = seconds / 86400 in
    let s1 = seconds % 86400 in
    let hrs = s1 / 3600 in
    let s2 = s1 % 3600 in
    hours_part days hrs <> (decimal (s2 / 60) <> ("m " <> (decimal (s2 % 60) <> "s")))
