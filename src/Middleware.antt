-- ===== src/Middleware.antt =====
-- internal/middleware: what stands between the server and its handlers. A middleware makes a handler
-- of a handler; it may change the request, answer itself, or change the calls on the writer.
pub mod Summary
pub mod Integrity
pub mod Encoding
pub mod Rsa
use go_advanced.Base.{List}
use go_advanced.Base.Exec.{Call, Outcome, returned, blocked}
use go_advanced.Http.{Request, Action}

abbrev pub Handler : Type 0 → Type 0
Handler S = Request → Call S (List Action)

-- changes what a handler did to its writer, once it is done
abbrev pub finish :
    {S : Type 0} → (List Action → List Action) → Outcome S (List Action) → Outcome S (List Action)
finish f (returned acts s) = returned (f acts) s
finish f (blocked s) = blocked s
