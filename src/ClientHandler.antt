-- ===== src/ClientHandler.antt =====
-- client_handler.go: a package that a client's connection has read. `accepted` says whether the
-- pool of goroutines takes the task. A package that cannot be decoded is logged, and then `Process`
-- is called with a nil package, which panics; the panic is recovered and logged.
use easycall.Base.{Bytes, Bool, if◌then◌else◌, Outcome, ok, err, panic}
use easycall.Package.{EasyPackage, Codecs, decode_with_body_data}
use easycall.SessionManager.{EasySessionManager, process}

unfoldable pub client_dispatch :
    {Body : Type 0}
    → Codecs Body
    → Bool
    → Bytes
    → EasySessionManager (EasyPackage Body)
    → Outcome (EasySessionManager (EasyPackage Body))
client_dispatch codecs accepted pkg_data mgr =
    if accepted
    then elim (decode_with_body_data codecs pkg_data) [
      | ok pkg ↦ ok (process pkg.head.seq pkg mgr)
      | err e ↦ panic
      | panic ↦ panic
    ]
    else ok mgr
