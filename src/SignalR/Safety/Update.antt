-- ===== src/SignalR/Safety/Update.antt =====
-- UpdateTokens of signalr_client.py is safe, if the other tasks are.
use hymer_connect_ha.Prelude.{ℕ, ◌+◌, Bool, true, false, not, ◌&&◌, Option, none, some, ◌≡◌, refl}
use hymer_connect_ha.SignalR.{Failure, Outcome, waiting, result, exception, cancelled, Client}
use hymer_connect_ha.SignalR.Requests.{Wait}
use hymer_connect_ha.SignalR.Refresh.{
  TokenUpdate, TokenRefresh, is_missing, settle_completion, forget_completion, resume_completion,
  register_invocation, await_completion, invoke_update_tokens, after_exchange, send_update_tokens,
}
use hymer_connect_ha.SignalR.Core.{
  core, completions-Fine, settle-Kept, forget_completion-Fine, register_invocation-Fine,
}
use hymer_connect_ha.SignalR.Safety.{Safe, IsSafe, Safe-refl, Safe-trans, Safe-core, Safe-if_snd}
use hymer_connect_ha.SignalR.Safety.Requests.{WaitIsSafe}

pub record UpdateIsSafe {Value : Type 0} (t : TokenUpdate Value) : Type 0 where
  pub meanwhile : IsSafe t.meanwhile
  pub write : IsSafe t.write.meanwhile
  pub wait : WaitIsSafe t.wait

pub record RefreshIsSafe {Value : Type 0} (t : TokenRefresh Value) : Type 0 where
  pub meanwhile : IsSafe t.meanwhile
  pub update : UpdateIsSafe t.update
  pub writes : (round id : ℕ) → IsSafe (t.writes round id).meanwhile

module _ {Value : Type 0} where
  forget_completion-Safe : (id : ℕ) → IsSafe {Value = Value} (forget_completion id)
  unfolding forget_completion
  forget_completion-Safe id c = record { fine = forget_completion-Fine id (core c) }

  resume_completion-Safe :
      (id r : ℕ) (wait : Wait Value)
      → WaitIsSafe wait
      → (held : Outcome Bool) (c : Client Value) → c.completions.outcome r ≡ held
      → Safe c (resume_completion id r wait.after_timeout held c).1
  unfolding resume_completion settle_completion
  resume_completion-Safe id r wait others waiting c e =
      Safe-trans {d = settle_completion r cancelled c}
        (record {
          fine = completions-Fine (core c) _ (settle-Kept r cancelled c.completions (rw e));
        })
        (Safe-trans (others.after_timeout _) (forget_completion-Safe id _))
  resume_completion-Safe id r wait others (result success) c e = forget_completion-Safe id c
  resume_completion-Safe id r wait others (exception x) c e = forget_completion-Safe id c
  resume_completion-Safe id r wait others cancelled c e = forget_completion-Safe id c

  register_invocation-Safe : (wait : Bool) → IsSafe {Value = Value} (register_invocation wait)
  unfolding register_invocation
  register_invocation-Safe true c = record {
    fine = register_invocation-Fine (c.next_invocation_id + 1) (core c);
  }
  register_invocation-Safe false c = Safe-core refl

  await_completion-Safe :
      (flag : Bool) (id r : ℕ) (wait : Wait Value)
      → WaitIsSafe wait
      → (e : Option Failure) (c : Client Value) → Safe c (await_completion flag id r wait e c).1
  unfolding await_completion
  await_completion-Safe flag id r wait others (some x) c = Safe-refl c
  await_completion-Safe false id r wait others none c = Safe-refl c
  await_completion-Safe true id r wait others none c =
      Safe-trans (others.meanwhile c) (resume_completion-Safe id r wait others _ _ refl)

  invoke_update_tokens-Safe :
      (flag : Bool) (t : TokenUpdate Value)
      → UpdateIsSafe t
      → (c : Client Value) → Safe c (invoke_update_tokens flag t c).1
  unfolding invoke_update_tokens
  invoke_update_tokens-Safe flag t others c =
      let c' = register_invocation flag c in
      Safe-trans (register_invocation-Safe flag c) (
        Safe-if_snd (is_missing c'.ws) _ _ (Safe-refl c') (
          Safe-trans (others.write c')
            (await_completion-Safe flag _ _ t.wait others.wait t.write.write_error _)))

  after_exchange-Safe :
      (flag : Bool) (t : TokenUpdate Value)
      → UpdateIsSafe t
      → (e : Option Failure) (c : Client Value) → Safe c (after_exchange flag t e c).1
  unfolding after_exchange
  after_exchange-Safe flag t others (some x) c = Safe-refl c
  after_exchange-Safe flag t others none c = invoke_update_tokens-Safe flag t others c

  pub send_update_tokens-Safe :
      (flag : Bool) (t : TokenUpdate Value)
      → UpdateIsSafe t
      → (c : Client Value) → Safe c (send_update_tokens flag t c).1
  unfolding send_update_tokens
  send_update_tokens-Safe flag t others c =
      Safe-if_snd (not (is_missing c.ws) && c.has_refresh_token && c.has_vehicle) _ _
        (Safe-trans (others.meanwhile c) (after_exchange-Safe flag t others t.exchange_error _))
        (Safe-refl c)
