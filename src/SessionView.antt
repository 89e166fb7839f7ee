-- ===== src/SessionView.antt =====
-- core/session_view.py: the neutral view of a live job, and the two adapters that build it.
use openrtc_python.Prelude.{ℕ, Bool, true, false, not, [], ◌∷◌, Option, none, some, if◌then◌else◌}
use openrtc_python.Prelude.Text.{Text, is_empty}
use openrtc_python.Prelude.Dict.{Dict}

-- A value inside a metadata mapping, by what the code asks of it: `isinstance(value, str)`, and
-- `str(value)`. An opaque value is named by a number.
pub data Value : Type 0 where
  null : Value
  text : Text → Value
  opaque : ℕ → Value

-- A Python object that an attribute may hold. Of one that is neither `None`, a `str` nor a mapping
-- the code sees only whether it is true.
pub data Object : Type 0 where
  absent : Object
  str : Text → Object
  mapping : Dict Value → Object
  unknown : Bool → Object

-- `bool(x)`
abbrev pub truth : Object → Bool
truth absent = false
truth (str s) = not (is_empty s)
truth (mapping []) = false
truth (mapping (_ ∷ _)) = true
truth (unknown b) = b

-- `x or y`
infixr 30 ◌or◌
abbrev pub ◌or◌ : Object → Object → Object
x or y = if truth x then x else y

-- `x if isinstance(x, str) else ""`
abbrev pub text_or_empty : Object → Text
text_or_empty (str s) = s
text_or_empty _ = []

pub record SessionView : Type 0 where
  pub room_name : Text
  pub job_id : Object
  pub job_metadata : Object
  pub room_metadata : Object

-- The attributes that `for_livekit` reads. `getattr(x, a, None)` is `absent` where the attribute is
-- missing, and a missing `job`, `room` or `job.room` has no attributes.
pub record Room : Type 0 where
  pub name : Object
  pub metadata : Object

pub record Job : Type 0 where
  pub id : Object
  pub metadata : Object
  pub room : Option Room

pub record JobContext : Type 0 where
  pub job : Option Job
  pub room : Option Room

abbrev pub room_name_of : Option Room → Object
room_name_of none = absent
room_name_of (some r) = r.name

abbrev pub room_metadata_of : Option Room → Object
room_metadata_of none = absent
room_metadata_of (some r) = r.metadata

abbrev pub job_room_of : Option Job → Option Room
job_room_of none = none
job_room_of (some j) = j.room

abbrev pub job_id_of : Option Job → Object
job_id_of none = str []
job_id_of (some j) = j.id

abbrev pub job_metadata_of : Option Job → Object
job_metadata_of none = absent
job_metadata_of (some j) = j.metadata

-- `job.room`'s metadata unless it is `None`, else the rtc room's.
abbrev pub prefer : Object → Object → Object
prefer absent y = y
prefer x _ = x

unfoldable pub for_livekit : JobContext → SessionView
for_livekit ctx = record {
  room_name = text_or_empty (room_name_of (job_room_of ctx.job) or room_name_of ctx.room);
  job_id = job_id_of ctx.job or str [];
  job_metadata = job_metadata_of ctx.job;
  room_metadata = prefer (room_metadata_of (job_room_of ctx.job)) (room_metadata_of ctx.room);
}

-- pipecat's `RunnerArguments`.
pub record RunnerArguments : Type 0 where
  pub room_url : Object
  pub room_name : Object
  pub session_id : Object
  pub body : Object

unfoldable pub for_pipecat : RunnerArguments → SessionView
for_pipecat args = record {
  room_name = text_or_empty (args.room_url or args.room_name or args.session_id);
  job_id = str (text_or_empty args.session_id);
  job_metadata = args.body;
  room_metadata = absent;
}
