-- ===== src/Tests/Tls.antt =====
-- A TLS session that delivers a chunk and is closed by its peer.
use hymer_connect_ha.Prelude.{◌≡◌, refl, true, List, [], ◌∷◌}
use hymer_connect_ha.Prelude.Result.{err, tls_error}
use hymer_connect_ha.TlsClient.{
  done, SslRead, plain, zero_return, new_client, advance, encrypt_plaintext, TlsClient,
}
use hymer_connect_ha.TlsClient.Pump
use hymer_connect_ha.TlsClient.Pump.{Shows, Rises, fed}

abbrev closing_reads : List SslRead
closing_reads = plain (1 ∷ 2 ∷ []) ∷ zero_return ∷ []

abbrev closed_client : TlsClient
closed_client = record { handshake_complete = true; peer_closed = true }

advance-Shows_example :
    Shows (advance done closing_reads new_client).0 (advance done closing_reads new_client).1
    × Rises new_client (advance done closing_reads new_client).1
advance-Shows_example = Pump.advance-Shows done closing_reads new_client

encrypt-closed_example :
    encrypt_plaintext done (fed ((done, closing_reads) ∷ []) closed_client) ≡ err tls_error
encrypt-closed_example = Pump.encrypt-closed ((done, closing_reads) ∷ []) closed_client done refl
