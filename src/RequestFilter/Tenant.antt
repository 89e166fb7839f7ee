-- ===== src/RequestFilter/Tenant.antt =====
-- The tenant that backpressure and the circuit breaker see, against the session's own.
use openrtc_python.Prelude.{
  ℕ, ◌≡◌, refl, ◌≢◌, Option, none, some, [], ◌∷◌, arith, if◌then◌else◌, ◌∙◌, sym, ap, subst, All,
}
use openrtc_python.Prelude.Text.{Text, Text-discrete, codes, strip, is_empty}
use openrtc_python.Prelude.Dict.{Dict, get, get_or, keys, get-put_self}
use openrtc_python.Prelude.Outcome.{ret, >>=-ret, ret-injective}
use openrtc_python.SessionView.{SessionView, Object}
use openrtc_python.Validation.{default_tenant, tenant_id_max, require_tenant_id, is_name_char}
use openrtc_python.Validation.Names.{IsToken, strip-of_all, require_tenant_id-IsToken}
use openrtc_python.Routing.{Loads}
use openrtc_python.Observer.{SessionInfo, resolve_tenant, merge_metadata, build_session_info}
use openrtc_python.RequestFilter.{
  tenant_or_default, resolve_request_tenant, at_cap, Filter, base_or_accept, Request,
  per_tenant_backpressure_filter,
}

default_tenant-IsToken : IsToken tenant_id_max default_tenant
unfolding is_name_char
default_tenant-IsToken = record { some_char = refl; short = omega arith; charset = refl }

raw_tenant-strip :
    (raw tenant : Text)
    → (if is_empty raw then ret default_tenant else require_tenant_id raw) ≡ ret tenant
    → (tenant ≡ strip (if is_empty raw then default_tenant else raw)) × IsToken tenant_id_max tenant
raw_tenant-strip [] tenant h =
    let e : default_tenant ≡ tenant = ground arith in
    (
      sym e ∙ sym (strip-of_all default_tenant default_tenant-IsToken.charset),
      subst (IsToken tenant_id_max) e default_tenant-IsToken,
    )
raw_tenant-strip (c ∷ raw) tenant h = require_tenant_id-IsToken (c ∷ raw) tenant h

-- The job request behind a session's view.
abbrev pub request_of : Object → SessionView → Request
request_of room_name view = record {
  room = record { name = room_name; metadata = view.room_metadata };
  job_metadata = view.job_metadata;
}

-- Where a session's identity can be built, its tenant is the one that the request filters see,
-- without its outer white space, and is a well-formed id; the session's metadata carries it under
-- `tenant`.
pub build_session_info-tenant :
    (loads : Loads) (repr : ℕ → Text) (now : ℕ) (agent : Text) (view : SessionView)
    (version : Option Text) (info : SessionInfo)
    → build_session_info loads repr now agent view version ≡ ret info
    → (raw : Text) × (resolve_request_tenant loads repr view.job_metadata view.room_metadata
        ≡ ret raw)
      × (info.tenant ≡ strip raw)
      × IsToken tenant_id_max info.tenant
      × (get (codes "tenant") info.metadata ≡ some info.tenant)
unfolding build_session_info resolve_request_tenant resolve_tenant tenant_or_default
build_session_info-tenant loads repr now agent view version info h =
    let (merged, m, h') =
      >>=-ret (merge_metadata loads repr view.room_metadata view.job_metadata) _ h in
    let (tenant, t, e) = >>=-ret (resolve_tenant merged) _ h' in
    let (stripped, token) = raw_tenant-strip (get_or (codes "tenant") [] merged) tenant t in
    subst
      (λ i.
        (raw : Text) × (resolve_request_tenant loads repr view.job_metadata view.room_metadata
          ≡ ret raw)
        × (i.tenant ≡ strip raw)
        × IsToken tenant_id_max i.tenant
        × (get (codes "tenant") i.metadata ≡ some i.tenant))
      (ret-injective e)
      (tenant_or_default merged, rw m, stripped, token, get-put_self (codes "tenant") tenant merged)

get-not-token :
    {V : Type 0} (caps : Dict V) (raw : Text)
    → All (IsToken tenant_id_max) (keys caps)
    → (¬ IsToken tenant_id_max raw)
    → get raw caps ≡ none
unfolding get
get-not-token [] raw h n = refl
get-not-token ((k, v) ∷ caps) raw h n = elim (Text-discrete k raw) [
  | yes p ↦ absurd (n (subst (IsToken tenant_id_max) p h.0))
  | no p ↦ ground (arith, get-not-token caps raw h.1 n)
]

-- White space round the tenant id in the dispatch metadata takes a job past its tenant's cap: the
-- session belongs to `info.tenant`, but the filter looks up the padded text, which is no key of the
-- caps (validated at construction), and lets the base filter decide whatever the active count is.
pub per_tenant_backpressure_filter-padded :
    {S : Type 0} (loads : Loads) (repr : ℕ → Text) (now : ℕ) (agent : Text) (view : SessionView)
    (version : Option Text) (info : SessionInfo) (raw : Text) (caps : Dict ℕ)
    → build_session_info loads repr now agent view version ≡ ret info
    → resolve_request_tenant loads repr view.job_metadata view.room_metadata ≡ ret raw
    → raw ≢ info.tenant
    → All (IsToken tenant_id_max) (keys caps)
    → (counts : S → Dict ℕ) (base : Option (Filter S)) (room_name : Object) (s : S)
    → let req = request_of room_name view in
      per_tenant_backpressure_filter loads repr caps counts base req s ≡ base_or_accept base req s
unfolding per_tenant_backpressure_filter at_cap
per_tenant_backpressure_filter-padded loads repr now agent view version info raw caps built seen
      padded valid counts base room_name s =
    let (raw', seen', stripped, token, _) =
      build_session_info-tenant loads repr now agent view version info built in
    let same : raw ≡ raw' = ret-injective (sym seen ∙ seen') in
    let not_token : ¬ IsToken tenant_id_max raw =
      λ t. padded (sym (strip-of_all raw t.charset) ∙ ap strip same ∙ sym stripped) in
    let missing = get-not-token caps raw valid not_token in rw seen (ground arith)
