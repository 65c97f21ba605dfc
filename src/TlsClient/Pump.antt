-- ===== src/TlsClient/Pump.antt =====
-- What the TLS state machine keeps and promises.
use hymer_connect_ha.Prelude.{
  Bool, true, false, ℕ, ◌≡◌, ◌≢◌, refl, List, [], ◌∷◌, ◌++◌, All, All-snoc, Bool-cases, inl, inr,
  if◌then◌else◌,
}
use hymer_connect_ha.Prelude.Result.{Result, ok, err, stuck, tls_error}
use hymer_connect_ha.TlsClient.{
  SslStep, done, want, failed, SslRead, plain, want_read, want_write, zero_return, read_failed,
  TlsClient, TlsPumpResult, Pumped, build_result, read_loop, advance, feed_encrypted,
  encrypt_plaintext,
}

-- The two flags of a client only ever rise.
pub record Rises (c d : TlsClient) : Type 0 where
  pub complete_stays : c.handshake_complete ≡ true → d.handshake_complete ≡ true
  pub closed_stays : c.peer_closed ≡ true → d.peer_closed ≡ true

-- A result that shows the client as it is, and no empty chunk; chunks only with a complete handshake.
abbrev pub Shows : Result TlsPumpResult → TlsClient → Type 0
Shows (ok r) c =
    All (λ chunk. chunk ≢ []) r.plaintext_chunks
    × (r.plaintext_chunks ≢ [] → c.handshake_complete ≡ true)
    × (r.handshake_complete ≡ c.handshake_complete)
    × (r.peer_closed ≡ c.peer_closed)
Shows (err e) c = Unit {0}
Shows stuck c = ⊥

unchanged-Rises : (c : TlsClient) → Rises c c
unchanged-Rises c = record { complete_stays = λ e. e; closed_stays = λ e. e }

read_loop-Shows :
    (reads : List SslRead) (chunks : List (List ℕ)) (c : TlsClient)
    → c.handshake_complete ≡ true
    → All (λ chunk. chunk ≢ []) chunks
    → Shows (read_loop reads chunks c).0 (read_loop reads chunks c).1
      × Rises c (read_loop reads chunks c).1
unfolding read_loop build_result
read_loop-Shows [] chunks c up h = ((h, (λ _. up), refl, refl), unchanged-Rises c)
read_loop-Shows (plain [] ∷ reads) chunks c up h = ((h, (λ _. up), refl, refl), unchanged-Rises c)
read_loop-Shows (plain (b ∷ bytes) ∷ reads) chunks c up h =
    read_loop-Shows reads (chunks ++ ((b ∷ bytes) ∷ [])) c up
      (All-snoc (λ chunk. chunk ≢ []) chunks (b ∷ bytes) (λ e. cc) h)
read_loop-Shows (want_read ∷ reads) chunks c up h = ((h, (λ _. up), refl, refl), unchanged-Rises c)
read_loop-Shows (want_write ∷ reads) chunks c up h = ((h, (λ _. up), refl, refl), unchanged-Rises c)
read_loop-Shows (zero_return ∷ reads) chunks c up h =
    ((h, (λ _. up), refl, refl), record { complete_stays = λ e. e; closed_stays = λ e. refl })
read_loop-Shows (read_failed ∷ reads) chunks c up h = (tt, unchanged-Rises c)

-- Whatever the handshake step and the reads of the ssl object do, a pump step returns a result or
-- raises; a result holds no empty chunk, holds chunks only where the handshake is complete, and
-- shows the two flags of the client; and both flags, once true, stay true, where the step raises as
-- well.
pub advance-Shows :
    (handshake : SslStep) (reads : List SslRead) (c : TlsClient)
    → Shows (advance handshake reads c).0 (advance handshake reads c).1
      × Rises c (advance handshake reads c).1
unfolding advance build_result
advance-Shows handshake reads c = by_flag c.handshake_complete refl
  where
    shaken :
        (handshake : SslStep)
        → let p : Pumped = elim handshake [
          | done ↦ read_loop reads [] (record c { handshake_complete = true })
          | want ↦ (ok (build_result [] c), c)
          | failed ↦ (err tls_error, c)
        ] in
          Shows p.0 p.1 × Rises c p.1
    shaken done =
        let c' : TlsClient = record c { handshake_complete = true } in
        let (shows, rises) = read_loop-Shows reads [] c' refl tt in
        (
          shows,
          record {
            complete_stays = λ e. rises.complete_stays refl;
            closed_stays = λ e. rises.closed_stays e;
          },
        )
    shaken want = ((tt, (λ some_chunk. absurd (some_chunk refl)), refl, refl), unchanged-Rises c)
    shaken failed = (tt, unchanged-Rises c)

    by_flag :
        (b : Bool)
        → c.handshake_complete ≡ b
        → let p : Pumped = if b then read_loop reads [] c else elim handshake [
          | done ↦ read_loop reads [] (record c { handshake_complete = true })
          | want ↦ (ok (build_result [] c), c)
          | failed ↦ (err tls_error, c)
        ] in
          Shows p.0 p.1 × Rises c p.1
    by_flag true up = read_loop-Shows reads [] c up tt
    by_flag false down = shaken handshake

-- A run of `feed_encrypted`, whatever the ssl object does, exceptions included.
unfoldable pub fed : List (SslStep × List SslRead) → TlsClient → TlsClient
fed [] c = c
fed ((handshake, reads) ∷ steps) c = fed steps (feed_encrypted handshake reads c).1

fed-Rises : (steps : List (SslStep × List SslRead)) (c : TlsClient) → Rises c (fed steps c)
unfolding fed feed_encrypted
fed-Rises [] c = unchanged-Rises c
fed-Rises ((handshake, reads) ∷ steps) c =
    let first = (advance-Shows handshake reads c).1 in
    let rest = fed-Rises steps (advance handshake reads c).1 in
    record {
      complete_stays = λ e. rest.complete_stays (first.complete_stays e);
      closed_stays = λ e. rest.closed_stays (first.closed_stays e);
    }

-- Once the peer has closed the TLS session, encrypting raises TlsSupportError after any sequence of
-- feeds, whatever the handshake and the reads of the ssl object do in them, exceptions included.
pub encrypt-closed :
    (steps : List (SslStep × List SslRead)) (c : TlsClient) (write : SslStep)
    → c.peer_closed ≡ true
    → encrypt_plaintext write (fed steps c) ≡ err tls_error
unfolding encrypt_plaintext
encrypt-closed steps c write closed =
    refused (fed steps c) ((fed-Rises steps c).closed_stays closed)
  where
    refused : (d : TlsClient) → d.peer_closed ≡ true → encrypt_plaintext write d ≡ err tls_error
    refused d e = elim (Bool-cases d.handshake_complete) [
      | inl up ↦ rw (up, e)
      | inr down ↦ rw down
    ]
