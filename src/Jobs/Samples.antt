-- ===== src/Jobs/Samples.antt =====
-- What the parser and a submission take from outside, for small runs.
use wait_skill.Prelude.{true}
use wait_skill.Jobs.Parse.{Outside}
use wait_skill.Jobs.Submit.{Submission}
use wait_skill.Jobs.Timers.{Clock}
use Prim.Native.String

abbrev pub outside : Outside
outside = record {
  is_positive_number = λ s. true;
  is_positive_int = λ s. true;
  canonical_path = λ p. p;
}

abbrev pub submission : Submission
submission = record {
  within = λ p. p;
  default_lock = "/watches/1.lock";
  default_log = "/watches/1.json";
  fresh_id = "f1";
  endpoint = "unix:///codex.sock";
  is_ready = true;
}

abbrev pub clock : Clock
clock = record {
  log = λ path id. String.◌++◌ "/loop-" (String.◌++◌ id ".watch.json");
  lock = λ log. String.◌++◌ log ".lock";
  timeout = λ s. "120";
  python = "python3";
  script = "/loop.py";
}
