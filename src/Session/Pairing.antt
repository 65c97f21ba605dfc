-- ===== src/Session/Pairing.antt =====
-- async_pair_over_ble of ble_transport.py: the confirmation token of the cloud, the start of a fresh
-- transport, the pairing, and the checks on its answer. What the cloud and the start do are arguments;
-- the transport is stopped at the end in every case, which changes no result.
use hymer_connect_ha.Prelude.{
  ℕ, Bool, true, false, ◌≡◌, ◌≢◌, refl, ap, sym, ◌∙◌, Option, none, some, List, [], ◌∷◌,
}
use hymer_connect_ha.Prelude.Int.{ℤ}
use hymer_connect_ha.Prelude.Result.{
  Error, Result, ok, err, stuck, transport_error, ok-injective, ◌>>=◌,
}
use hymer_connect_ha.Message.{Str}
use hymer_connect_ha.Response.{BlePairMobileResponse}
use hymer_connect_ha.Session.{Stream, Connection, accepted_status}
use hymer_connect_ha.Session.Requests.{pair_mobile}

pub record PairedTokens : Type 0 where
  pub ehg_refresh_token : Str
  pub ehg_access_token : Str
  pub confirmation_required : Bool

-- The checks on the answer: an accepted status, and a refresh token that is not empty.
unfoldable pub tokens_for : Bool → (access : Str) → Bool → (refresh : Str) → Result PairedTokens
tokens_for false access confirmation refresh = err transport_error
tokens_for true access confirmation [] = err transport_error
tokens_for true access confirmation (c ∷ token) = ok (record {
  ehg_refresh_token = c ∷ token;
  ehg_access_token = access;
  confirmation_required = confirmation;
})

unfoldable pub paired_tokens : BlePairMobileResponse → Result PairedTokens
paired_tokens response =
    tokens_for (accepted_status response.status) response.remote_access_token
      response.confirmation_required response.remote_access_refresh_token

-- A start that raises ends the ceremony.
unfoldable pub started : Option Error → Result Bool
started none = ok true
started (some e) = err e

module _ (crc32 : List ℕ → ℕ) (drawn confirm_drawn now : ℤ) where
  unfoldable pub async_pair_over_ble :
      (confirmation_token : Result Str)
      → (start_error : Option Error) → Connection
      → (activation_token mobile_device_name : Str) → (write_error confirm_error : Option Error)
      → Stream
      → Result PairedTokens
  async_pair_over_ble confirmation_token start_error c activation name write_error confirm_error
        stream =
      do
        token ← confirmation_token
        _ ← started start_error
        response ←
            (pair_mobile crc32 drawn confirm_drawn now c activation token name true write_error
              confirm_error stream).0
        paired_tokens response

-- The tokens that are returned are those of the answer, which was accepted and has a refresh token.
abbrev pub TokensOf : BlePairMobileResponse → PairedTokens → Type 0
TokensOf response tokens =
    (accepted_status response.status ≡ true)
    × (tokens.ehg_refresh_token ≡ response.remote_access_refresh_token)
    × (tokens.ehg_access_token ≡ response.remote_access_token)
    × (tokens.ehg_refresh_token ≢ [])

tokens_for-inv :
    (accepted : Bool) (access : Str) (confirmation : Bool) (refresh : Str) (tokens : PairedTokens)
    → tokens_for accepted access confirmation refresh ≡ ok tokens
    → (accepted ≡ true)
      × (tokens.ehg_refresh_token ≡ refresh)
      × (tokens.ehg_access_token ≡ access)
      × (tokens.ehg_refresh_token ≢ [])
unfolding tokens_for
tokens_for-inv false access confirmation refresh tokens e = cc
tokens_for-inv true access confirmation [] tokens e = cc
tokens_for-inv true access confirmation (c ∷ token) tokens e =
    let same = ok-injective e in
    (
      refl,
      ap (λ (t : PairedTokens). t.ehg_refresh_token) (sym same),
      ap (λ (t : PairedTokens). t.ehg_access_token) (sym same),
      (λ empty.
          let e' = ap (λ (t : PairedTokens). t.ehg_refresh_token) same ∙ empty in absurd (cc)),
    )

checked :
    (answer : Result BlePairMobileResponse) (tokens : PairedTokens)
    → answer >>= paired_tokens ≡ ok tokens
    → (response : BlePairMobileResponse) × (answer ≡ ok response) × TokensOf response tokens
checked (ok response) tokens e =
    (response, refl, unfold paired_tokens in tokens_for-inv _ _ _ _ tokens e)
checked (err x) tokens e = cc
checked stuck tokens e = cc

pub async_pair_over_ble-TokensOf :
    (crc32 : List ℕ → ℕ) (drawn confirm_drawn now : ℤ) (confirmation_token : Result Str)
    (start_error : Option Error) (c : Connection) (activation name : Str)
    (write_error confirm_error : Option Error) (stream : Stream) (tokens : PairedTokens)
    → async_pair_over_ble crc32 drawn confirm_drawn now confirmation_token start_error c activation
        name write_error confirm_error stream
      ≡ ok tokens
    → (token : Str) × (response : BlePairMobileResponse) × (confirmation_token ≡ ok token)
      × (start_error ≡ none)
      × ((pair_mobile crc32 drawn confirm_drawn now c activation token name true write_error
            confirm_error stream).0
          ≡ ok response)
      × TokensOf response tokens
unfolding async_pair_over_ble started
async_pair_over_ble-TokensOf crc32 drawn confirm_drawn now (ok token) none c activation name w w'
      stream tokens e =
    let (response, paired, kept) = checked _ tokens e in (token, response, refl, refl, paired, kept)
async_pair_over_ble-TokensOf crc32 drawn confirm_drawn now (ok token) (some x) c activation name w
      w' stream tokens e =
    cc
async_pair_over_ble-TokensOf crc32 drawn confirm_drawn now (err x) start c activation name w w'
      stream tokens e =
    cc
async_pair_over_ble-TokensOf crc32 drawn confirm_drawn now stuck start c activation name w w' stream
      tokens e =
    cc
