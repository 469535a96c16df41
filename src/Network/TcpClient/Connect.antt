-- ===== src/Network/TcpClient/Connect.antt =====
-- `connect_url` of crates/common/src/network/tcp_client/client.rs.
use ctp_system.Prelude.{
  ℕ, zero, suc, ◌+◌, ◌≤◌, ◌≡◌, refl, sym, subst, String, Bool, true, Option, none, some, unwrap_or,
  List, [], ◌∷◌, Result, ok, err, leb, length, arith, if◌then◌else◌,
}
use ctp_system.Model.Types.{F64}
use ctp_system.Protocol.{Failure}
use ctp_system.Network.Backoff
use ctp_system.Network.Backoff.{ExponentialBackoff, from_millis, max}
use ctp_system.Network.TcpClient.{Stream, TcpClient, start}
use ctp_system.Network.TcpClient.Config.{TcpClientConfig, two}

-- "failed to connect to {url} after {max_retries} attempts: {last_error}", `set_nodelay`, the backoff.
pub data ConnectError : Type 0 where
  failed_to_connect : String → ℕ → String → ConnectError
  no_delay : String → ConnectError
  bad_backoff : Failure → ConnectError

-- What the connects answer, one attempt after the other: a stream, or the text of an error or of the
-- timeout. `none` while the next attempt is not answered.
unfoldable pub dial :
    String → ℕ → ℕ → List (Result String Stream) → Option (Result ConnectError Stream)
dial url max_retries attempt [] = none
dial url max_retries attempt (ok stream ∷ answers) = some (ok stream)
dial url max_retries attempt (err last_error ∷ answers) =
    let rest = dial url max_retries (attempt + 1) answers in
    if leb max_retries (attempt + 1)
    then some (err (failed_to_connect url max_retries last_error))
    else rest

default_backoff : (F64 → Bool) → TcpClientConfig → Result Failure ExponentialBackoff
default_backoff in_range config =
    Backoff.new in_range (from_millis (unwrap_or config.reconnect_delay_initial_ms 500))
      (from_millis (unwrap_or config.reconnect_delay_max_ms 30000))
      (unwrap_or config.reconnect_backoff_factor two) (unwrap_or config.reconnect_jitter_ms 250)
      true

unfoldable pub payload_of : {A B : Type 0} → Option (A × B) → Option B
payload_of none = none
payload_of (some (interval, payload)) = some payload

started :
    TcpClientConfig → Stream → Result Failure ExponentialBackoff → Result ConnectError TcpClient
unfolding payload_of
started config stream (err e) = err (bad_backoff e)
started config stream (ok backoff) =
    ok (start (payload_of config.heartbeat) config.reconnect_max_attempts backoff stream)

-- `stream.set_nodelay(true)?`
prepared :
    (F64 → Bool)
    → TcpClientConfig
    → Stream
    → Result String (Unit {0})
    → Result ConnectError TcpClient
unfolding started default_backoff
prepared in_range config stream (err e) = err (no_delay e)
prepared in_range config stream (ok _) = started config stream (default_backoff in_range config)

connected_stream :
    (F64 → Bool)
    → (Stream → Result String (Unit {0}))
    → TcpClientConfig
    → Option (Result ConnectError Stream)
    → Option (Result ConnectError TcpClient)
unfolding prepared
connected_stream in_range set_nodelay config none = none
connected_stream in_range set_nodelay config (some (err e)) = some (err e)
connected_stream in_range set_nodelay config (some (ok stream)) =
    some (prepared in_range config stream (set_nodelay stream))

unfoldable pub connect_url :
    (F64 → Bool)
    → (Stream → Result String (Unit {0}))
    → TcpClientConfig
    → List (Result String Stream)
    → Option (Result ConnectError TcpClient)
unfolding connected_stream dial
connect_url in_range set_nodelay config answers =
    connected_stream in_range set_nodelay config
      (dial config.url (unwrap_or config.connection_max_retries 5) 0 answers)

-- The first stream among so many answers, or the error of the last of them.
unfoldable pub first_stream :
    String → ℕ → ℕ → List (Result String Stream) → String → Result ConnectError Stream
first_stream url max_retries zero answers last = err (failed_to_connect url max_retries last)
first_stream url max_retries (suc n) [] last = err (failed_to_connect url max_retries last)
first_stream url max_retries (suc n) (ok stream ∷ answers) last = ok stream
first_stream url max_retries (suc n) (err e ∷ answers) last =
    first_stream url max_retries n answers e

dial_from :
    (url last : String) (max_retries attempt n : ℕ) (answers : List (Result String Stream))
    → suc n ≤ length answers
    → max 1 max_retries ≡ attempt + suc n
    → dial url max_retries attempt answers
      ≡ some (first_stream url max_retries (suc n) answers last)
unfolding dial first_stream
dial_from url last max_retries attempt n [] h e = absurd (omega arith)
dial_from url last max_retries attempt n (ok stream ∷ answers) h e = refl
dial_from url last max_retries attempt zero (err error ∷ answers) h e = ground (arith, e)
dial_from url last max_retries attempt (suc n) (err error ∷ answers) h e =
    ground (arith, e, h, dial_from url error max_retries (attempt + 1) n answers)

-- The first connect ends: when as many attempts are answered as the limit says (one attempt at
-- least), the result is the first stream that an attempt got, or else the error of the last of these
-- attempts.
pub dial_ends :
    (url : String) (max_retries : ℕ) (answers : List (Result String Stream))
    → max 1 max_retries ≤ length answers
    → dial url max_retries 0 answers
      ≡ some (first_stream url max_retries (max 1 max_retries) answers "")
dial_ends url zero answers h = dial_from url "" 0 0 0 answers h refl
dial_ends url (suc max_retries) answers h =
    let e : max 1 (suc max_retries) ≡ suc max_retries = ground arith in
    subst
      (λ n.
        dial url (suc max_retries) 0 answers
        ≡ some (first_stream url (suc max_retries) n answers ""))
      (sym e)
      (dial_from url "" (suc max_retries) 0 max_retries answers (ground (arith, e, h))
        (ground (arith, e)))
