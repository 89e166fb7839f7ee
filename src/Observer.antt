-- ===== src/Observer.antt =====
-- observability/base_observer.py: a session's identity and outcome, and the isolation of observers.
-- Clock readings are whole numbers of ticks.
pub mod Isolation
use openrtc_python.Prelude.{
  ℕ, suc, ◌-◌, Bool, true, false, Option, none, some, List, [], ◌∷◌, if◌then◌else◌,
}
use openrtc_python.Prelude.Text.{Text, codes, strip, is_empty}
use openrtc_python.Prelude.Dict.{Dict, get_or, put, update}
use openrtc_python.Prelude.Outcome.{
  Outcome, ret, raise, Exc, json_decode_error, cancelled_error, is_exception, ◌>>=◌,
}
use openrtc_python.SessionView.{Value, null, text, opaque, Object, str, mapping, SessionView}
use openrtc_python.Validation.{default_tenant, require_tenant_id}
use openrtc_python.Routing.{Decoded, object, non_object, Loads}

-- `str(value)` of a metadata value; that of one that is neither `None` nor a text is Python's.
pub render : (ℕ → Text) → Value → Text
render repr null = codes "None"
render repr (text s) = s
render repr (opaque n) = repr n

pub record SessionInfo : Type 0 where
  pub agent_name : Text
  pub room_name : Text
  pub job_id : Object
  pub metadata : Dict Text
  pub started_at : ℕ
  pub tenant : Text
  pub deployment_version : Option Text

unfoldable pub resolve_tenant : Dict Text → Outcome Text
resolve_tenant metadata =
    let raw = get_or (codes "tenant") [] metadata in
    if is_empty raw then ret default_tenant else require_tenant_id raw

module _ (loads : Loads) (repr : ℕ → Text) where
  -- `{str(key): str(value) for ...}`; the keys are texts already.
  unfoldable pub to_text_map : Dict Value → Dict Text
  unfolding render
  to_text_map [] = []
  to_text_map ((key, value) ∷ d) = (key, render repr value) ∷ to_text_map d

  coerced : Outcome Decoded → Outcome (Dict Text)
  coerced (ret (object d)) = ret (to_text_map d)
  coerced (ret non_object) = ret []
  coerced (raise json_decode_error) = ret []
  coerced (raise e) = raise e

  unfoldable pub coerce_metadata : Object → Outcome (Dict Text)
  unfolding coerced
  coerce_metadata (mapping d) = ret (to_text_map d)
  coerce_metadata (str s) =
      let stripped = strip s in if is_empty stripped then ret [] else coerced (loads stripped)
  coerce_metadata _ = ret []

  -- Room metadata first, then job metadata over it.
  unfoldable pub merge_metadata : Object → Object → Outcome (Dict Text)
  merge_metadata room_metadata job_metadata = do
    merged ← coerce_metadata room_metadata
    over ← coerce_metadata job_metadata
    ret (update merged over)

  unfoldable pub build_session_info : ℕ → Text → SessionView → Option Text → Outcome SessionInfo
  build_session_info now agent_name view version = do
    metadata ← merge_metadata view.room_metadata view.job_metadata
    tenant ← resolve_tenant metadata
    ret (record {
      agent_name = agent_name;
      room_name = view.room_name;
      job_id = view.job_id;
      metadata = put (codes "tenant") tenant metadata;
      started_at = now;
      tenant = tenant;
      deployment_version = version;
    })

pub data SessionStatus : Type 0 where
  success failed cancelled : SessionStatus

pub record SessionOutcome : Type 0 where
  pub status : SessionStatus
  pub error : Option Exc
  pub ended_at : ℕ
  pub duration_seconds : ℕ

abbrev pub classify : Option Exc → SessionStatus
classify none = success
classify (some cancelled_error) = cancelled
classify (some _) = failed

-- `max(ended_at - started_at, 0.0)` is subtraction that stops at 0.
unfoldable pub build_session_outcome : ℕ → SessionInfo → Option Exc → SessionOutcome
build_session_outcome now info error = record {
  status = classify error;
  error = error;
  ended_at = now;
  duration_seconds = now - info.started_at;
}

-- What awaiting one observer's hook does, the `TimeoutError` of `wait_for` included, and whether the
-- session's own task is being cancelled then.
pub record Hook : Type 0 where
  pub result : Outcome (Unit {0})
  pub cancelling : Bool

abbrev after_hook : Outcome (Unit {0}) → Bool → Outcome (Unit {0})
after_hook (ret _) cancelling = ret tt
after_hook (raise cancelled_error) cancelling = if cancelling then raise cancelled_error else ret tt
after_hook (raise e) cancelling = if is_exception e then ret tt else raise e

unfoldable pub invoke_observer : Hook → Outcome (Unit {0})
invoke_observer h = after_hook h.result h.cancelling

-- The loop of `_notify_session_start` and `_notify_session_end`, with the number of hooks called.
unfoldable pub notify : List Hook → Outcome (Unit {0}) × ℕ
notify [] = (ret tt, 0)
notify (h ∷ hooks) =
    let (rest, called) = notify hooks in
    elim (invoke_observer h) [ ret _ ↦ (rest, suc called) | raise e ↦ (raise e, 1) ]
