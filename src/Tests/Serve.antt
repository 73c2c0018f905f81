-- ===== src/Tests/Serve.antt =====
-- Runs of the serve loop.
use auto_waveform_debugger.Base.{◌≡◌, refl, none, some, List, [], ◌∷◌, Str, codes}
use auto_waveform_debugger.Trace.Serve.Split.{split_command_line}
use auto_waveform_debugger.Trace.Serve.Split.RoundTrip.{
  Style, bare, single, double, write_line, words_of, split_command_line-write_line,
}
use auto_waveform_debugger.Trace.Serve.Session.{
  Session, Services, out, done, summary, opened, handle_line, serve_lines,
}
use auto_waveform_debugger.Trace.Serve.Session.Responses.{
  Responses, lines_read, serve_lines-Responses,
}
use auto_waveform_debugger.Trace.Serve.Session.Fresh.{AnsweredFresh, handle_line-AnsweredFresh}
use auto_waveform_debugger.Tests.Trace.{design}

abbrev written : List (Style × Str)
written = (bare, codes "open") ∷ (double, codes "a \"b\".db") ∷ (single, codes "c d") ∷ []

split_command_line-write_line_example :
    split_command_line (write_line written)
    ≡ some (codes "open" ∷ codes "a \"b\".db" ∷ codes "c d" ∷ [])
unfolding words_of
split_command_line-write_line_example =
    split_command_line-write_line written
      ((refl, λ e. cc e), ((tt, λ e. cc e), ((refl, λ e. cc e), tt)))

abbrev chip : Session
chip = record {
  db_path = codes "chip.db";
  db_mtime = codes "today";
  signals = 7;
  hierarchy = design;
  load_refs = 0;
  driver_refs = 0;
  mapping_bytes = some 4096;
}

abbrev quiet_disk : Services
quiet_disk = record {
  open_session = λ path. opened chip;
  mapped_size = λ s. some 4096;
  compile = λ pattern. none;
  trace = λ args s. (s, (some [], []));
  find = λ opts s. (s, (some [], []));
}

abbrev script : List (Services × Str)
script =
    (quiet_disk, codes "open chip.db")
    ∷ (quiet_disk, codes "quit")
    ∷ (quiet_disk, codes "status")
    ∷ []

serve_run : serve_lines script none ≡ summary chip ∷ done ∷ out (codes "bye") ∷ done ∷ []
unfolding serve_lines
serve_run = refl

serve_lines-Responses_example : Responses (lines_read script) (serve_lines script none)
serve_lines-Responses_example = serve_lines-Responses script none

handle_line-AnsweredFresh_example :
    AnsweredFresh quiet_disk (some chip) (handle_line quiet_disk (codes "hier") (some chip)).0
handle_line-AnsweredFresh_example = handle_line-AnsweredFresh quiet_disk (codes "hier") (some chip)

abbrev older : Session
older = record chip { signals = 6 }
