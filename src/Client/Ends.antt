-- ===== src/Client/Ends.antt =====
-- How `request_with_retry_delay` of src/client/io.rs ends.
use nanofish.Client.Buffer.{read_buffer, filled}
use nanofish.Client.Read.{IsReceived, read_response-IsReceived}
use nanofish.Client.{
  HttpClientRequest, write, write_body, flushed, read_response, request_with_retry_delay,
}
use nanofish.Codec.Build.Ends.{build_req-Ends}
use nanofish.Codec.Build.{build_req}
use nanofish.Codec.Dechunk.Total.{dechunk-ne-out_of_fuel}
use nanofish.Codec.Dechunk.{dechunk}
use nanofish.Codec.Parse.Ends.{parse_resp-Ends}
use nanofish.Codec.Parse.{parse_resp}
use nanofish.Heapless.{Heapless}
use nanofish.Io.Ends.{Ending, ending, lifted, ◌>>=◌, ◌>>◌, or_fail-Ends}
use nanofish.Io.{Stream}
use nanofish.Options.{HttpClientOptions}
use nanofish.Prelude.{ℕ, Option, none, some, ◌≢◌, refl, Bytes, take, length}
use nanofish.Response.{HttpResponse}
use nanofish.Result.Ends.{Ends, chain-Ends}
use nanofish.Result.{Result, ok, err, panic, out_of_fuel, tcp_error}

ne-Ends : {A : Type 0} (r : Result A) → r ≢ out_of_fuel → Ends (Unit {0}) r
unfolding Ends
ne-Ends (ok a) h = tt
ne-Ends (err e) h = tt
ne-Ends panic h = tt
ne-Ends out_of_fuel h = h refl

Ends-ne : {A : Type 0} (Panic : Type 0) (r : Result A) → Ends Panic r → r ≢ out_of_fuel
unfolding Ends
Ends-ne Panic (ok a) h e = cc
Ends-ne Panic (err x) h e = cc
Ends-ne Panic panic h e = cc
Ends-ne Panic out_of_fuel h e = h

module _ (hp : Heapless) (usize_max : ℕ) where
  IsReceived-Ends :
      (buf_len : ℕ) (r : Result Bytes) → IsReceived usize_max buf_len r → Ends (Unit {0}) r
  unfolding IsReceived Ends
  IsReceived-Ends buf_len (ok got) h = tt
  IsReceived-Ends buf_len (err e) h = tt
  IsReceived-Ends buf_len panic h = tt
  IsReceived-Ends buf_len out_of_fuel h = h

  read_buffer-Ends : (buffer got : Bytes) → Ends (Unit {0}) (read_buffer hp usize_max buffer got)
  unfolding read_buffer Ends
  read_buffer-Ends buffer got =
      chain-Ends Unit (dechunk usize_max (filled got buffer) (length got)) _
        (ne-Ends _ (dechunk-ne-out_of_fuel usize_max (filled got buffer) (length got)))
        λ decoded.
          chain-Ends Unit (parse_resp hp (take decoded.1 decoded.0)) _
            (parse_resp-Ends hp (take decoded.1 decoded.0)) λ response. tt

  module _ (rq : ℕ) (stream : Stream) where
    write-Ends :
        (bytes : Bytes) (st : stream.State)
        → Ends (Unit {0}) (write hp usize_max rq stream bytes st).0
    write-Ends bytes st = or_fail-Ends Unit tcp_error (stream.write_all st bytes)

    write_body-Ends :
        (body : Option Bytes) (st : stream.State)
        → Ends (Unit {0}) (write_body hp usize_max rq stream body st).0
    unfolding Ends
    write_body-Ends none st = tt
    write_body-Ends (some body) st = write-Ends body st

    pub request_with_retry_delay-Ends :
        (options : HttpClientOptions) (retry_delay : stream.State → stream.State)
        (request : HttpClientRequest) (buffer : Bytes) (st : stream.State)
        → Ends
            (Unit {0})
            (request_with_retry_delay hp usize_max rq stream options retry_delay request buffer
              st).0
    unfolding request_with_retry_delay
    request_with_retry_delay-Ends options retry_delay request buffer st =
        let all : Ending stream.State (Unit {0}) (HttpResponse × ℕ) = do
          http_request ←
              lifted
                (build_req hp rq request.method request.host request.path request.headers
                  request.body)
                (build_req-Ends Unit hp rq request.method request.host request.path request.headers
                  request.body)
          ending (write hp usize_max rq stream http_request) (write-Ends http_request)
          ending (write_body hp usize_max rq stream request.body) (write_body-Ends request.body)
          ending (flushed hp usize_max rq stream)
              (λ st. or_fail-Ends Unit tcp_error (stream.flush st))
          got ←
              ending
                (read_response usize_max stream retry_delay (length buffer) options.max_retries)
                λ st. IsReceived-Ends (length buffer) _ (
                  read_response-IsReceived usize_max stream retry_delay (length buffer)
                    options.max_retries st)
          lifted (read_buffer hp usize_max buffer got) (read_buffer-Ends buffer got)
        in all.ends st

    -- On any stream, with any pause between retries and any options, the loops of a request end, the
    -- one that reads and the one that decodes chunks: their fuel is enough.
    pub request_with_retry_delay-ne-out_of_fuel :
        (options : HttpClientOptions) (retry_delay : stream.State → stream.State)
        (request : HttpClientRequest) (buffer : Bytes) (st : stream.State)
        → (request_with_retry_delay hp usize_max rq stream options retry_delay request buffer st).0
          ≢ out_of_fuel
    request_with_retry_delay-ne-out_of_fuel options retry_delay request buffer st =
        Ends-ne Unit _ (request_with_retry_delay-Ends options retry_delay request buffer st)
