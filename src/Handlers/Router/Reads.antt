-- ===== src/Handlers/Router/Reads.antt =====
-- Whole requests on a storage that keeps its promise: a read after an update, and the statuses.
use go_advanced.Base.{List}
use go_advanced.Entities.{Metric}
use go_advanced.Entities.Errors.{Result, ok, err}
use go_advanced.Http.{Action}
use go_advanced.Storage.{Storage}
use go_advanced.Handlers.Adapters.{Formats}
use go_advanced.Handlers.Router.{handle_getter_error, text_answer, text_response}

-- what a client reads as text after an update of a metric
abbrev pub text_of : Formats → Result Metric → List Action
text_of formats (ok m) = text_response (text_answer m.type formats.print_gauge m)
text_of formats (err e) = handle_getter_error e
