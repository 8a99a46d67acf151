-- ===== src/Tests/Tls.antt =====
-- A connection that encrypts nothing, and the TLS client on it.
use nanofish.Heapless.{bounded}
use nanofish.Io.{Stream}
use nanofish.Prelude.{ℕ, List, [], ◌∷◌, Option, none, some, Bytes, codes, ◌≡◌}
use nanofish.Tests.Client.{scripted}
use nanofish.Tests.Exchange.{asked, five_tries, buffer}
use nanofish.Tests.Wire.{hello_bytes}
use nanofish.Tls.Client.Policy.{behind, request_with_retry_delay_tls-verified}
use nanofish.Tls.Client.{with_options, verified_policy, request_with_retry_delay_tls}
use nanofish.Tls.{Tls, CallsOnly}

abbrev pub clear : (Rng Verifier : Type 0) (stream : Stream) → Tls stream Rng Verifier
clear Rng Verifier stream = record {
  Session = Unit {0};
  new = tt;
  open_unsecure = λ rng name st. ((none, rng), st);
  open_verified = λ provider name st. ((none, provider), st);
  read = λ st room. let r = stream.read st.1 room in (r.0, (tt, r.1));
  write_all = λ st bytes. let r = stream.write_all st.1 bytes in (r.0, (tt, r.1));
  flush = λ st. let r = stream.flush st.1 in (r.0, (tt, r.1));
  close = λ st. (some 1, st);
  read_lem = λ st room bytes e. stream.read_lem st.1 room bytes e;
}

pub clear-CallsOnly :
    (Rng Verifier : Type 0) (stream : Stream) → CallsOnly (clear Rng Verifier stream)
clear-CallsOnly Rng Verifier stream = record {
  opens_unsecure = λ I keeps rng name st i. i;
  opens_verified = λ I keeps provider name st i. i;
  calls = λ I keeps. record {
    reads = λ st room i. keeps.reads st.1 room i;
    writes = λ st bytes i. keeps.writes st.1 bytes i;
    flushes = λ st i. keeps.flushes st.1 i;
  };
  closes = λ I keeps st i. i;
}

abbrev script : List (Option Bytes)
script = none ∷ some hello_bytes ∷ []

request_with_retry_delay_tls-verified_example :
    let outcome =
      request_with_retry_delay_tls scripted
        (clear ℕ ℕ scripted)
        bounded
        255
        100
        (codes "h")
        asked
        buffer
        (λ st. st)
        (with_options five_tries (verified_policy 5 6), script) in
    ((outcome.0, outcome.1.1)
      ≡ behind ℕ ℕ scripted
          (clear ℕ ℕ scripted)
          bounded
          255
          100
          five_tries
          (codes "h")
          asked
          buffer
          (λ st. st)
          none
          (tt, script))
    × (outcome.1.0 ≡ with_options five_tries (verified_policy 5 6))
request_with_retry_delay_tls-verified_example =
    request_with_retry_delay_tls-verified ℕ ℕ scripted (clear ℕ ℕ scripted) bounded 255 100
      five_tries (codes "h") asked buffer (λ st. st) 5 6 script
