-- ===== src/Loop/Model.antt =====
-- The request to the model, with its retries.
use py_coding_agent.Prelude.{
  ℕ, zero, suc, ◌+◌, ◌-◌, ◌*◌, Bool, true, false, Option, ◌||◌, ◌&&◌, not, ◌==◌, if◌then◌else◌,
}
use Prim.Native.Nat.{◌^◌}
use py_coding_agent.Provider.{ProviderErrorKind}
use py_coding_agent.Exec.{pure, gets, call, modify, ◌>>=◌, ◌>>◌}
use py_coding_agent.Loop.Types.{RunLimits, Services, LoopState, ProviderReply, failed, requested}
use py_coding_agent.Loop.Actions.{M, tell, cancelled}

-- `err.kind in _TRANSIENT_PROVIDER_ERRORS`
unfoldable pub is_transient : ProviderErrorKind → Bool
is_transient ProviderErrorKind.rate_limit = true
is_transient ProviderErrorKind.timeout = true
is_transient ProviderErrorKind.unavailable = true
is_transient _ = false

abbrev pub is_cancelled_kind : ProviderErrorKind → Bool
is_cancelled_kind ProviderErrorKind.cancelled = true
is_cancelled_kind _ = false

-- a failure after which the code asks again, while retries are left
abbrev pub is_retried : ProviderReply → Bool → Bool
is_retried (failed kind) c = not (is_cancelled_kind kind || c) && is_transient kind
is_retried _ c = false

module _ (env : Services) (limits : RunLimits) where
  open env use {World, Request, complete, sleep}

  abbrev pub answered : Request → Option ℕ → LoopState World → ProviderReply × LoopState World
  answered request remaining s =
      let (reply, shared) = complete request remaining s.shared in
      (reply, record s { shared = shared })

  -- one awaited call of the model
  unfoldable pub call_model : Request → Option ℕ → M World ProviderReply
  call_model request remaining = do tell requested; call (answered request remaining)

  unfoldable pub back_off : ℕ → M World (Unit {0})
  back_off delay =
      if delay == 0 then pure tt else modify (λ s. record s { shared = sleep delay s.shared })

  -- `provider_calls += 1` and the awaited call
  unfoldable pub ask_once : Request → Option ℕ → M World ProviderReply
  ask_once request remaining = do
    modify (λ s. record s { provider_calls = s.provider_calls + 1 })
    call_model request remaining

  -- the inner `while True`: `left` is `max_provider_retries - retries`
  unfoldable pub ask_model : ℕ → Request → Option ℕ → M World ProviderReply
  ask_model zero request remaining = ask_once request remaining
  ask_model (suc left) request remaining = do
    reply ← ask_once request remaining
    c ← gets cancelled
    let retry = ask_model left request remaining
    if is_retried reply c
        then (do
          back_off (
              limits.provider_retry_base_delay_seconds
              * 2 ^ (limits.max_provider_retries - suc left))
          retry)
        else pure reply
