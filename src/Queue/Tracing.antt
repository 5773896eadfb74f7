-- ===== src/Queue/Tracing.antt =====
-- queue/tracing.go: a job's traceparent as a carrier of OpenTelemetry's propagators, which are a
-- parameter: what they write to a carrier is a list of keys with values. Spans are left out.
use dist_tasks_go.Base.{
  String, ◌≡◌, refl, Option, none, some, List, [], ◌∷◌, str_eq, if◌then◌else◌, Bool-cases, inl, inr,
}
use dist_tasks_go.Queue.Job.{Job}
use dist_tasks_go.Queue.Producer.{traced}

abbrev pub traceparent_key : String
traceparent_key = "traceparent"

unfoldable pub get : String → Job → String
get key job = if str_eq key traceparent_key then job.trace_parent else ""

unfoldable pub set : String → String → Job → Job
set key value job = if str_eq key traceparent_key then record job { trace_parent = value } else job

abbrev pub keys : List String
keys = traceparent_key ∷ []

-- Inject: what the propagator writes, in its order.
unfoldable pub inject : List (String × String) → Job → Job
unfolding set
inject [] job = job
inject ((k, v) ∷ written) job = inject written (set k v job)

-- The traceparent among what is written, the last one if there are several.
abbrev pub written_parent : List (String × String) → Option String → Option String
written_parent [] last = last
written_parent ((k, v) ∷ written) last =
    written_parent written (if str_eq k traceparent_key then some v else last)

replaced_parent :
    (last : Option String) (job : Job) (v : String)
    → record (traced last job) { trace_parent = v } ≡ traced (some v) job
replaced_parent none job v = refl
replaced_parent (some t) job v = refl

inject-traced_from :
    (written : List (String × String)) (last : Option String) (job : Job)
    → inject written (traced last job) ≡ traced (written_parent written last) job
unfolding inject set
inject-traced_from [] last job = refl
inject-traced_from ((k, v) ∷ written) last job = elim (Bool-cases (str_eq k traceparent_key)) [
  | inl parent ↦ rw (parent, replaced_parent last job v) (inject-traced_from written (some v) job)
  | inr ignored ↦ rw ignored (inject-traced_from written last job)
]

-- Whatever a propagator writes, a job that it is injected into keeps all else, and its traceparent is
-- the last one written, if any; that is what the producer's model does with it.
pub inject-traced :
    (written : List (String × String)) (job : Job)
    → inject written job ≡ traced (written_parent written none) job
inject-traced written job = inject-traced_from written none job
