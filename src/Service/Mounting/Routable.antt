-- ===== src/Service/Mounting/Routable.antt =====
-- Whatever is mounted, the endpoints of a service keep distinct names and paths.
use pyrpckit.Prelude.{
  List, Option, Option-cases, Result, Result-cases, [], ap, arith, err, inl, inr, none, ok, refl,
  some, true, ℕ, ◌∙◌, ◌∷◌, ◌≡◌, ◌≢◌,
}
use pyrpckit.Service.Endpoints.{EndpointKind, Refusal, raw_endpoint, rpc_endpoint, stream_endpoint}
use pyrpckit.Service.Mounting.{
  Call, Options, Service, add_channel, append_endpoint, call_freeze, call_raw_socket, call_socket,
  call_stream, called, fold_channels, handler_refusal, mount, open_endpoint, outcome, raw_socket,
  run_calls, socket, socket_refusal, stream, undecorated,
}
use pyrpckit.Service.Mounting.Distinct.{
  IsRoutable, append_endpoint-IsRoutable, open_endpoint-IsFresh, same_endpoints-IsRoutable,
}

mount-IsRoutable :
    (service after : Service) (options : Options) (kind : EndpointKind)
    (refusal : List (List ℕ) → Option Refusal) (record_mounted : Service → Service)
    → IsRoutable service
    → ((mounted : Service) → (record_mounted mounted).endpoints ≡ mounted.endpoints)
    → mount service options kind refusal record_mounted ≡ ok after
    → IsRoutable after
unfolding mount
mount-IsRoutable service after options kind refusal record_mounted r keeps h =
    elim (Result-cases (open_endpoint service options)) [
      | inl (refused, n) ↦ absurd (ground (arith, h, n))
      | inr ((vars, chosen), n) ↦ elim (Option-cases (refusal vars)) [
        | inr (refused, m) ↦ absurd (ground (arith, h, n, m))
        | inl m ↦ elim (Result-cases (append_endpoint service options (vars, chosen) kind)) [
          | inl (refused, k) ↦ absurd (ground (arith, h, n, m, k))
          | inr (mounted, k) ↦
              let done : after ≡ record_mounted mounted = ground (arith, h, n, m, k) in
              same_endpoints-IsRoutable mounted after (ap (λ s. s.endpoints) done ∙ keeps mounted) (
                append_endpoint-IsRoutable service mounted options (vars, chosen) kind r
                  (open_endpoint-IsFresh service options (vars, chosen) n) k)
        ]
      ]
    ]

undecorated-refused :
    (service after : Service) (options : Options) → undecorated service options ≢ ok after
undecorated-refused service after options h = elim (Result-cases (open_endpoint service options)) [
  | inl (refused, n) ↦ absurd (ground (arith, h, n))
  | inr (valid, n) ↦ absurd (ground (arith, h, n))
]

outcome-IsRoutable :
    (service : Service) (result : Result Refusal Service)
    → IsRoutable service
    → ((after : Service) → result ≡ ok after → IsRoutable after)
    → IsRoutable (outcome service result)
outcome-IsRoutable service (ok after) r h = h after refl
outcome-IsRoutable service (err refused) r h = r

called-IsRoutable :
    (service : Service) (call : Call) → IsRoutable service → IsRoutable (called service call)
unfolding called socket stream raw_socket
called-IsRoutable service (call_socket options path_model mounts closes) r =
    outcome-IsRoutable service (socket service options path_model mounts closes) r (λ after h.
      mount-IsRoutable service after options (rpc_endpoint mounts closes)
        (socket_refusal service path_model mounts)
        (λ mounted. record mounted { channels = fold_channels mounted.channels mounts }) r
        (λ mounted. refl) h)
called-IsRoutable service (call_stream options none) r =
    outcome-IsRoutable service (stream service options none) r
      (λ after h. absurd (undecorated-refused service after options h))
called-IsRoutable service (call_stream options (some handler)) r =
    outcome-IsRoutable service (stream service options (some handler)) r (λ after h.
      mount-IsRoutable service after options
        (stream_endpoint handler.function handler.handler_name handler.owner)
        (handler_refusal service.mounted_streams handler)
        (λ mounted. record mounted {
          channels = add_channel mounted.channels handler.owner;
          mounted_streams = handler.function ∷ mounted.mounted_streams;
        })
        r (λ mounted. refl) h)
called-IsRoutable service (call_raw_socket options none) r =
    outcome-IsRoutable service (raw_socket service options none) r
      (λ after h. absurd (undecorated-refused service after options h))
called-IsRoutable service (call_raw_socket options (some handler)) r =
    outcome-IsRoutable service (raw_socket service options (some handler)) r (λ after h.
      mount-IsRoutable service after options
        (raw_endpoint handler.function handler.handler_name handler.owner)
        (handler_refusal service.mounted_raw_sockets handler)
        (λ mounted. record mounted {
          channels = add_channel mounted.channels handler.owner;
          mounted_raw_sockets = handler.function ∷ mounted.mounted_raw_sockets;
        })
        r (λ mounted. refl) h)
called-IsRoutable service call_freeze r =
    same_endpoints-IsRoutable service (record service { is_frozen = true }) refl r

-- Whatever an application mounts, accepted or refused, in whatever order: the names of the endpoints
-- are distinct, no two paths are the same up to the names of their variables, and every path, its
-- variables and every name are valid.
pub run_calls-IsRoutable :
    (service : Service) (calls : List Call)
    → IsRoutable service
    → IsRoutable (run_calls service calls)
unfolding run_calls
run_calls-IsRoutable service [] r = r
run_calls-IsRoutable service (call ∷ calls) r =
    run_calls-IsRoutable (called service call) calls (called-IsRoutable service call r)
