-- ===== src/TlsClient.antt =====
-- LegacyTlsClient of custom_components/hymer_connect_metadata/ble_tls.py. The ssl object is not
-- modelled: what `do_handshake`, `read`, `write` and `unwrap` do is an argument of the operation, for
-- `read` one outcome for each call; behind the last one it would block. The outbound records and the
-- negotiated cipher are left out.
pub mod Pump
use hymer_connect_ha.Prelude.{
  Bool, true, false, ℕ, Option, none, some, List, [], ◌∷◌, ◌++◌, if◌then◌else◌,
}
use hymer_connect_ha.Prelude.Result.{Result, ok, err, tls_error}

-- Of a call that returns, wants more bytes, or raises.
pub data SslStep : Type 0 where
  done want failed : SslStep

pub data SslRead : Type 0 where
  plain : List ℕ → SslRead
  want_read want_write zero_return read_failed : SslRead

pub record TlsClient : Type 0 where
  pub handshake_complete : Bool
  pub peer_closed : Bool

pub record TlsPumpResult : Type 0 where
  pub plaintext_chunks : List (List ℕ)
  pub handshake_complete : Bool
  pub peer_closed : Bool

abbrev pub Pumped : Type 0
Pumped = Result TlsPumpResult × TlsClient

abbrev pub new_client : TlsClient
new_client = record { handshake_complete = false; peer_closed = false }

unfoldable pub build_result : List (List ℕ) → TlsClient → TlsPumpResult
build_result chunks c = record {
  plaintext_chunks = chunks;
  handshake_complete = c.handshake_complete;
  peer_closed = c.peer_closed;
}

-- The loop of `read`, with the chunks so far.
unfoldable pub read_loop : List SslRead → List (List ℕ) → TlsClient → Pumped
read_loop [] chunks c = (ok (build_result chunks c), c)
read_loop (plain [] ∷ reads) chunks c = (ok (build_result chunks c), c)
read_loop (plain (b ∷ bytes) ∷ reads) chunks c = read_loop reads (chunks ++ ((b ∷ bytes) ∷ [])) c
read_loop (want_read ∷ reads) chunks c = (ok (build_result chunks c), c)
read_loop (want_write ∷ reads) chunks c = (ok (build_result chunks c), c)
read_loop (zero_return ∷ reads) chunks c =
    let c' = record c { peer_closed = true } in (ok (build_result chunks c'), c')
read_loop (read_failed ∷ reads) chunks c = (err tls_error, c)

-- The handshake step is taken where the handshake is not complete.
unfoldable pub advance : SslStep → List SslRead → TlsClient → Pumped
advance handshake reads c = if c.handshake_complete then read_loop reads [] c else elim handshake [
  | done ↦ read_loop reads [] (record c { handshake_complete = true })
  | want ↦ (ok (build_result [] c), c)
  | failed ↦ (err tls_error, c)
]

unfoldable pub begin_handshake : SslStep → List SslRead → TlsClient → Pumped
begin_handshake = advance

-- The bytes go into the memory of the ssl object, which the outcomes stand for.
unfoldable pub feed_encrypted : SslStep → List SslRead → TlsClient → Pumped
feed_encrypted = advance

unfoldable pub encrypt_plaintext : SslStep → TlsClient → Result TlsPumpResult
encrypt_plaintext write c =
    if c.handshake_complete
    then if c.peer_closed then err tls_error else elim write [
      | done ↦ ok (build_result [] c)
      | want ↦ err tls_error
      | failed ↦ err tls_error
    ]
    else err tls_error

-- Wanting more bytes is no error of a shutdown.
unfoldable pub close : SslStep → TlsClient → Result TlsPumpResult
close shutdown c = elim shutdown [
  | done ↦ ok (build_result [] c)
  | want ↦ ok (build_result [] c)
  | failed ↦ err tls_error
]
