-- ===== src/ActionRequest/Tests.antt =====
-- Runs of the request's checks.
use hlinor_agent_registry.Prelude.{◌≡◌, refl, ◌↔◌, ok}
use hlinor_agent_registry.Samples.{send_request, signals_of, request_of}
use hlinor_agent_registry.ActionRequest.{post_init}
use hlinor_agent_registry.ActionRequest.Validity.{IsValid, post_init_iff}
use hlinor_agent_registry.ActionRequest.Payload.{to_dict-injective}

post_init_iff_example :
    (post_init send_request ≡ ok send_request)
    ↔ ((send_request ≡ send_request) × IsValid send_request)
post_init_iff_example = post_init_iff send_request send_request

to_dict-injective_example : request_of (signals_of 2) ≡ send_request
to_dict-injective_example =
    to_dict-injective (request_of (signals_of 2)) send_request refl refl refl
