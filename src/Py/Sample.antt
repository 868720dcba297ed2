-- ===== src/Py/Sample.antt =====
-- A host for the tests: a clock that counts from 1000, and three ids.
use aws_serverless_patterns.Prelude.{ℕ, zero, suc, ◌+◌, String, none}
use aws_serverless_patterns.Py.Exec.{World}
use aws_serverless_patterns.Py.Host.{Host}

abbrev pub sample_id : ℕ → String
sample_id zero = "a1"
sample_id (suc zero) = "b2"
sample_id (suc (suc n)) = "c3"

abbrev pub sample_host : Host
sample_host = record {
  time = λ n. 1000 + n;
  uuid = sample_id;
  parse_int = λ s. none;
  parse_float = λ s. none;
  repr = λ v. "?";
  upper = λ s. s;
  lower = λ s. s;
}

abbrev pub sample_world : {T : Type 0} → T → World T
sample_world t = record { cloud = t; clock = 0; ids = 0 }
