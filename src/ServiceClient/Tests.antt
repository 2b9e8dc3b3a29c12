-- ===== src/ServiceClient/Tests.antt =====
-- A request at a concrete client.
use easycall.Base.{◌≡◌, refl, some, List, ok, arith}
use easycall.Package.Sample.{codecs}
use easycall.NodeManager.{Node, NodeManager, get_nodes}
use easycall.SessionManager.{init_session}
use easycall.SessionManager.Delivery.{IsSound}
use easycall.ServiceClient.{request_async_with_head}
use easycall.ServiceClient.Ends.{Ends, Picks, request-Ends}
use easycall.ServiceClient.Loads.{ByLoad, request_least}
use easycall.ServiceClient.Sample.{client, world, head, content, asked}

request-Ends_example :
    Ends codecs 0 head content
      (Picks world head client)
      client.session_mgr
      client.conns
      (request_async_with_head codecs 0 head content world client)
request-Ends_example = request-Ends codecs 0 head content world client

client-IsSound : IsSound client.session_mgr
client-IsSound = record { settled = tt; counted = λ n lt. refl }

request_least_example :
    (nm : NodeManager) × (nodes : List Node) × (node : Node) × (client.node_mgr ≡ some nm)
    × ((get_nodes world.decode world.now world.later world.answer nm).1 ≡ ok nodes)
    × ByLoad client.session_mgr nodes node
    × ((request_async_with_head codecs 0 head content world client).0.session_mgr
        ≡ (init_session node.addr client.session_mgr).0)
request_least_example =
    request_least codecs 0 head content world client
      (request_async_with_head codecs 0 head content world client).0 0 client-IsSound (omega arith)
      refl refl asked
