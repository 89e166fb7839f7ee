-- ===== src/Observer/Isolation.antt =====
-- `_invoke_observer` and `_notify_session_*`: a fault in one observer stays in that observer.
use openrtc_python.Prelude.{◌≡◌, refl, Bool, true, not, List, [], ◌∷◌, arith, length, All}
use openrtc_python.Prelude.Outcome.{Outcome, ret, raise, cancelled_error, is_exception}
use openrtc_python.Observer.{Hook, after_hook, invoke_observer, notify}

-- The hook returns, raises an `Exception` or times out, or raises `CancelledError` on its own while
-- the session's task is not being cancelled.
abbrev pub isolable : Outcome (Unit {0}) → Bool → Bool
isolable (ret _) cancelling = true
isolable (raise cancelled_error) cancelling = not cancelling
isolable (raise e) cancelling = is_exception e

invoke_observer-ret :
    (h : Hook) → isolable h.result h.cancelling ≡ true → invoke_observer h ≡ ret tt
unfolding invoke_observer
invoke_observer-ret h k = go h.result h.cancelling k
  where
    go : (o : Outcome (Unit {0})) (b : Bool) → isolable o b ≡ true → after_hook o b ≡ ret tt
    go (ret _) b k = refl
    go (raise cancelled_error) b k = ground arith
    go (raise e) b k = ground arith

-- Without a genuine cancellation of the session every observer is called, whatever the others do,
-- and the notification returns.
pub notify-isolable :
    (hooks : List Hook)
    → All (λ h. isolable h.result h.cancelling ≡ true) hooks
    → notify hooks ≡ (ret tt, length hooks)
unfolding notify
notify-isolable [] k = refl
notify-isolable (h ∷ hooks) k = ground (arith, invoke_observer-ret h k.0, notify-isolable hooks k.1)
