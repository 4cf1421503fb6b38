-- ===== src/Display/Tests.antt =====
-- Tests of `_parse_line` and `run` of utils/libfuzzer_ui.py, and the witness of what is shown of it.
use apatchy.Base.{
  arith, String, ◌≡◌, refl, false, Option, some, List, [], ◌∷◌, string_eq, ◌==◌, ne_of_==, ◌>>=◌,
  map,
}
use apatchy.Base.Dict.{lookup, insert}
use apatchy.Base.Decimal.{decimal}
use apatchy.Base.Text.{int, strip, starts_with}
use apatchy.Picker.{pos}
use apatchy.Stats.{Exporter, Event, StatFile, sessions, Reading, init, call, load_existing}
use apatchy.Stats.Flush.{EndsBefore}
use apatchy.Display.Patterns.{match_pieces, search_pieces, search_new_func, after_first, after_last}
use apatchy.Display.{
  Setup, Moment, Ui, EngineRun, initial_ui, parse_line, on_status, on_fork, on_new_func, on_crash,
  poll_system_stats, run, fmt_duration,
}
use apatchy.Display.Restarts.{start_state, Exports, run-Exports}

abbrev four_workers : Setup
four_workers = record { workers = 4; poll_ticks = 2; log_height = 8; path_name = λ p. p }

abbrev moment : Moment
moment = record {
  now = 7;
  polled = 9;
  stamp = "t1";
  corpus = 0;
  rss_mb = 12;
  reading = record { now = 100; stamp = "t1"; crashes = 0 };
}

abbrev exporter : Exporter
exporter = init "t0" 4 60

abbrev stat_file : StatFile
stat_file = sessions ((init "s" 1 60).session ∷ [])

abbrev start : Ui
start = initial_ui (some (start_state exporter stat_file))

abbrev status_line : String
status_line =
    "#12\tNEW    cov: 340 ft: 9 corp: 3/45b lim: 4 exec/s: 0 rss: 31Mb L: 5/9 MS: 2 CMP-CopyPart-"

abbrev fork_line : String
fork_line = "#90: cov: 12 ft: 400 corp: 77 exec/s: 25 oom/timeout/crash: 0/1/2 time: 6s job: 3"

abbrev func_line : String
func_line = "\tNEW_FUNC[1/2]: 0x55 in ap_read /b/httpd-2.4.6/server/core.c:10"

abbrev crash_line : String
crash_line = "artifact_prefix='c/'; Test unit written to c/crash-1"

abbrev field : String → String → Option String
field key line = parse_line four_workers moment line start >>= λ u. lookup key u.stats

abbrev events : String → Option (List (String × String))
events line = parse_line four_workers moment line start >>= λ u.
    u.exporter >>= λ s. some (map (λ x. (Event.kind x, Event.value x)) s.exporter.session.events)

status_fields :
    (field "cov" status_line ≡ some "340")
    × (field "corp_size" status_line ≡ some "45b")
    × (field "rss" status_line ≡ some "31Mb")
    × (field "strategy" status_line ≡ some "CMP-CopyPart")
unfolding parse_line match_pieces on_status poll_system_stats string_eq insert strip
status_fields = (refl, refl, refl, refl)

fork_fields :
    (field "event" fork_line ≡ some "job 3")
    × (field "ft" fork_line ≡ some "400")
    × (field "corp_n" fork_line ≡ some "77")
    × (field "exec_s" fork_line ≡ some "100")
    × (field "rss" fork_line ≡ some "12Mb")
    × (field "strategy" fork_line ≡ some "oom:0 tout:1 crash:2")
unfolding parse_line match_pieces on_fork poll_system_stats string_eq int insert decimal
fork_fields = (refl, refl, refl, refl, refl, refl)

func_events : events func_line ≡ some (("last_func", "ap_read  (server/core.c:10)") ∷ [])
unfolding parse_line match_pieces search_pieces search_new_func after_first on_new_func call
    string_eq init starts_with
func_events = refl

crash_events : events crash_line ≡ some (("crash", "c/crash-1") ∷ [])
unfolding parse_line match_pieces search_pieces search_new_func after_first after_last on_crash call
    string_eq init strip
crash_events = refl

abbrev two_runs : List EngineRun
two_runs =
    record {
      lines = (moment, some status_line) ∷ (moment, some crash_line) ∷ [];
      returncode = pos 1;
    }
    ∷ record { lines = (moment, some fork_line) ∷ []; returncode = pos 0 }
    ∷ []

abbrev last : Reading
last = record { now = 200; stamp = "t2"; crashes = 1 }

durations :
    (fmt_duration 59 ≡ "0m 59s")
    × (fmt_duration 3600 ≡ "1h 0m 0s")
    × (fmt_duration 90061 ≡ "1d 1h 1m 1s")
unfolding fmt_duration decimal
durations = (refl, refl, refl)

starts_differ : (◌==◌ {A = String} "s" "t0") ≡ false
unfolding string_eq
starts_differ = refl

stat_file-EndsBefore : EndsBefore exporter.session.start_time (load_existing stat_file)
unfolding load_existing init
stat_file-EndsBefore = ne_of_== "s" "t0" starts_differ

run-Exports_example :
    Exports
      (load_existing stat_file)
      two_runs
      (run four_workers last two_runs (initial_ui (some (start_state exporter stat_file))))
run-Exports_example =
    run-Exports four_workers last two_runs exporter stat_file
      ((omega arith, (omega arith, tt)), ((omega arith, tt), tt)) stat_file-EndsBefore
