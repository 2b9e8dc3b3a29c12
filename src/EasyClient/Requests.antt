-- ===== src/EasyClient/Requests.antt =====
-- easy_client.go: `Request`, `RequestAsync` and `RequestWithHead`, over `RequestAsyncWithHead`.
use easycall.Base.{ℕ, Bytes, Option, List, Outcome}
use easycall.Head.{EasyHead}
use easycall.Package.{EasyPackage, Codecs, format_msgpack}
use easycall.Connection.Writes.{EasyConnection}
use easycall.NodeManager.{NodeManager}
use easycall.Replies.{Reply, SystemError, easy_reply}
use easycall.ServiceClient.{World, Content, Asked}
use easycall.ServiceClient.Requests.{request_head, finished, answered}
use easycall.EasyClient.{EasyClient, easy_request}

module _ {Body : Type 0} (codecs : Codecs Body) where
  unfoldable pub request_with_head :
      ℕ
      → EasyHead
      → Content Body
      → Option NodeManager
      → List EasyConnection
      → World
      → Option (EasyPackage Body)
      → EasyClient Body
      → EasyClient Body × Outcome (Option (EasyPackage Body) × SystemError)
  request_with_head format head req_body node_mgr conns w answer ec =
      let (ec', asked) = easy_request codecs format head req_body node_mgr conns w ec in
      (ec', answered answer asked)

  unfoldable pub request_async :
      Bytes
      → Bytes
      → Content Body
      → Option NodeManager
      → List EasyConnection
      → World
      → EasyClient Body
      → EasyClient Body × Asked
  request_async service_name method req_body node_mgr conns w ec =
      easy_request codecs format_msgpack (request_head service_name method) req_body node_mgr conns
        w ec

  unfoldable pub request :
      Bytes
      → Bytes
      → Content Body
      → Option NodeManager
      → List EasyConnection
      → World
      → Option (EasyPackage Body)
      → EasyClient Body
      → EasyClient Body × Option (Reply Body)
  request service_name method req_body node_mgr conns w answer ec =
      let (ec', asked) =
        easy_request codecs format_msgpack (request_head service_name method) req_body node_mgr
          conns w ec in
      (ec', finished (easy_reply codecs) answer asked)
