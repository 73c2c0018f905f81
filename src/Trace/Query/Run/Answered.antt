-- ===== src/Trace/Query/Run/Answered.antt =====
-- What holds of a trace query that is answered.
use auto_waveform_debugger.Base.{ℕ, ◌≡◌, ◌≢◌, refl, ap, Option, none, some, [], Str}
use auto_waveform_debugger.Trace.Find.{Machine}
use auto_waveform_debugger.Trace.Query.{TraceOptions}
use auto_waveform_debugger.Trace.Query.Coordinates.{find_coordinates_ends}
use auto_waveform_debugger.Trace.Query.Resolve.{lookup_signal_id, resolve_options}
use auto_waveform_debugger.Trace.Query.Selects.{SignalView, check_query}
use auto_waveform_debugger.Trace.Query.Selects.Accepted.{Accepts}
use auto_waveform_debugger.Trace.Query.Run.{
  TraceSession, view_with, view_of, TraceReply, run_checked, run_viewed, run_found, run_resolved,
  run_trace_with_session,
}

-- The signal and the selects with which the traversal starts.
pub record IsAnswerable (session : TraceSession) (parsed opts : TraceOptions) : Type 0 where
  pub resolved :
      (r : TraceOptions) × (resolve_options session.names parsed ≡ some r)
      × (opts.root_signal ≡ r.root_signal)
      × (opts.signal_select_axes ≡ r.signal_select_axes)
  pub id : ℕ
  pub known : lookup_signal_id session.names opts.root_signal ≡ some id
  pub selects :
      opts.signal_select_axes ≢ []
      → (view : SignalView) × (view_of session opts.root_signal id ≡ some view)
        × Accepts view opts.signal_select_axes

module _ {A : Type 0} (machine : Machine) (traverse : TraceSession → TraceOptions → A)
    (session : TraceSession) where
  view_of_ends : (root : Str) (id : ℕ) → (view : SignalView) × (view_of session root id ≡ some view)
  unfolding view_of
  view_of_ends root id =
      let (found, e) = find_coordinates_ends session.coordinate_rows id in
      (view_with session root id found, rw e refl)

  run_found_ends :
      (opts : TraceOptions) (found : Option ℕ)
      → (reply : TraceReply A) × (run_found machine traverse session opts found ≡ some reply)
  run_found_ends opts none = (_, refl)
  run_found_ends opts (some id) =
      let (view, e) = view_of_ends opts.root_signal id in
      (
        run_checked machine traverse session (check_query view opts),
        ap (run_viewed machine traverse session opts) e,
      )

  run_resolved_ends :
      (signal : Str) (o : Option TraceOptions)
      → (reply : TraceReply A) × (run_resolved machine traverse session signal o ≡ some reply)
  run_resolved_ends signal none = (_, refl)
  run_resolved_ends signal (some opts) = run_found_ends opts _

  -- Every query comes to a reply.
  run_trace_with_session_ends :
      (parsed : TraceOptions)
      → (reply : TraceReply A) × (run_trace_with_session machine traverse session parsed
          ≡ some reply)
  unfolding run_trace_with_session
  run_trace_with_session_ends parsed = run_resolved_ends parsed.signal _
