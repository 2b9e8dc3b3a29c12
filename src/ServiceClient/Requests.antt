-- ===== src/ServiceClient/Requests.antt =====
-- service_client.go: `Request`, `RequestAsync` and `RequestWithHead`, over `RequestAsyncWithHead`.
-- `answer` is what the channel of the session gives, where `none` is the nil package of a time-out.
-- `finished` and `answered` hold of easy_client.go too, whose methods end the same way.
use easycall.Base.{ℕ, Bytes, Option, none, some, text, Outcome, ok, err, panic}
use easycall.Head.{EasyHead, new_easy_head, set_service, set_method}
use easycall.Package.{EasyPackage, Codecs, format_msgpack}
use easycall.Replies.{Reply, system_error, SystemError, error_time_out, service_reply}
use easycall.ServiceClient.{
  ServiceClient, World, Content, Asked, failed, waiting, stuck, panicked, request_async_with_head,
}

-- `NewEasyHead().SetService(service).SetMethod(method)`
unfoldable pub request_head : Bytes → Bytes → EasyHead
request_head service method = set_method (set_service new_easy_head service) method

-- How `Request` ends, where `reply` is what it makes of the answer: `none` if it never returns.
unfoldable pub finished :
    {Body : Type 0}
    → (Option (EasyPackage Body) → Reply Body)
    → Option (EasyPackage Body)
    → Asked
    → Option (Reply Body)
finished reply answer (failed e) = some (system_error e)
finished reply answer (waiting session) = some (reply answer)
finished reply answer stuck = none
finished reply answer panicked = some Reply.panicked

-- How `RequestWithHead` ends: with a package, or with the error beside `none`. A call that never
-- returns is an error here, `blocked`.
unfoldable pub answered :
    {Body : Type 0}
    → Option (EasyPackage Body)
    → Asked
    → Outcome (Option (EasyPackage Body) × SystemError)
answered answer (failed e) = ok (none, e)
answered answer (waiting session) =
    ok (answer, record { ret = error_time_out; msg = text "request time out" })
answered answer stuck = err (text "blocked")
answered answer panicked = panic

module _ {Body : Type 0} (codecs : Codecs Body) where
  unfoldable pub request_with_head :
      ℕ
      → EasyHead
      → Content Body
      → World
      → Option (EasyPackage Body)
      → ServiceClient Body
      → ServiceClient Body × Outcome (Option (EasyPackage Body) × SystemError)
  request_with_head format head body w answer c =
      let (c', asked) = request_async_with_head codecs format head body w c in
      (c', answered answer asked)

  unfoldable pub request_async :
      Bytes → Content Body → World → ServiceClient Body → ServiceClient Body × Asked
  request_async method body w c =
      request_async_with_head codecs format_msgpack (request_head c.service_name method) body w c

  unfoldable pub request :
      Bytes
      → Content Body
      → World
      → Option (EasyPackage Body)
      → ServiceClient Body
      → ServiceClient Body × Option (Reply Body)
  request method req_body w answer c =
      let (c', asked) =
        request_async_with_head codecs format_msgpack (request_head c.service_name method) req_body
          w c in
      (c', finished (service_reply codecs) answer asked)
