-- ===== src/Routes/Handlers.antt =====
-- app/api/error_handlers.py: the status that an exception gets, by the most specific of its classes
-- that has a handler. ValueError, KeyError and the like are no ParcelPilotError.
use parcelpilot_ops_copilot.Prelude.{ℕ}
use parcelpilot_ops_copilot.Result.{Error}
use parcelpilot_ops_copilot.Routes.{Response, responds, http_404, http_403, http_400, unhandled}

abbrev handler_status : Error → ℕ
handler_status (Error.not_authorized denial) = 403
handler_status (Error.unknown_entity kind id) = 404
handler_status Error.invalid_filter = 400
handler_status e = 500

abbrev status_code : {A : Type 0} → Response A → ℕ
status_code (responds a) = 200
status_code (http_404 id) = 404
status_code http_403 = 403
status_code (http_400 detail) = 400
status_code (unhandled e) = handler_status e
