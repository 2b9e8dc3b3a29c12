-- ===== src/ServiceClient/Sample.antt =====
-- A client for tests: one node listed, whose pool holds one open connection.
use easycall.Base.{
  Bytes, true, false, none, some, [], ◌∷◌, ok, err, ◌≡◌, refl, eq_bytes, lookup, insert,
}
use easycall.Base.Int.{pos, itoa, wrap, rem, ◌+ℤ◌}
use easycall.Head.{EasyHead, new_easy_head, set_service, set_method, set_seq}
use easycall.Package.{encode_with_body_data, with_codec, encode_parts, stamp}
use easycall.Connection.Writes.{EasyConnection, send, chan_send}
use easycall.NodeManager.{Node, NodeManager, get_nodes}
use easycall.LoadBalancer.{
  lb_active, new_load_balancer, get_node, get_node_active, active_loop, get_node_round_robin,
}
use easycall.Pool.{
  new_generic_pool, fill, acquire, acquire_loop, get_or_create, from_chan, inspect, is_expired,
  release,
}
use easycall.SessionManager.{init_session}
use easycall.ServiceClient.{
  ServiceClient, World, Content, waiting, raw, request_async_with_head, find_nodes, listed, choose,
  picked, balance_type, connect, find_pool, pool_key, take_conn, got_conn, give_back, ask,
  encode_content, send_on,
}
use easycall.Package.Sample.{codecs, write_head}

abbrev pub node : Node
node = record { addr = 3; ip = 49 ∷ []; port = pos 80; weight = pos 1; active = pos 0 }

abbrev pub manager : NodeManager
manager = record {
  exsit = pos 0;
  service_name = 115 ∷ [];
  node_list = some (node ∷ []);
  watched = true;
}

abbrev pub open_conn : EasyConnection
open_conn = record { is_close = false; write_chan = some (record { queue = []; closed = false }) }

abbrev pub client : ServiceClient Bytes
client = record {
  session_mgr = record { session_map = []; seq = 0; sessions = []; active = λ n. pos 0 };
  node_mgr = some manager;
  pool_map = [];
  load_balance_type = lb_active;
  pool_size = pos 100;
  service_name = 115 ∷ [];
  lb = new_load_balancer;
  conns = open_conn ∷ [];
}

abbrev pub world : World
world = record {
  now = pos 9000;
  later = pos 9001;
  answer = err [];
  decode = λ d. none;
  draw = 0;
  created = ok 0 ∷ err [] ∷ [];
  rounds =
      record {
        created = err [];
        awaited = none;
        is_close = false;
        active_time = pos 0;
        now = pos 1;
      }
      ∷ [];
}

-- Service "s", method "m".
abbrev pub head : EasyHead
head = set_method (set_service new_easy_head (115 ∷ [])) (109 ∷ [])

abbrev pub content : Content Bytes
content = raw (4 ∷ 5 ∷ [])

-- The request is sent, and its session is the first one.
pub asked :
    request_async_with_head codecs 0 head content world client
    ≡ ((request_async_with_head codecs 0 head content world client).0, waiting 0)
unfolding request_async_with_head eq_bytes find_nodes listed get_nodes choose picked get_node
    balance_type get_node_active active_loop get_node_round_robin connect find_pool pool_key itoa
    lookup new_generic_pool fill take_conn acquire acquire_loop get_or_create from_chan inspect
    is_expired got_conn give_back release ask encode_content encode_with_body_data with_codec
    encode_parts stamp write_head send_on send chan_send init_session insert rem wrap ◌+ℤ◌
asked = refl

abbrev pub frame : Bytes
frame =
    2 ∷ 0 ∷ 0 ∷ 0 ∷ 0 ∷ 13 ∷ 0 ∷ 0 ∷ 0 ∷ 2 ∷ 0 ∷ 1 ∷ 1 ∷ 115 ∷ 1 ∷ 109 ∷ 0 ∷ 0 ∷ 0 ∷ 0 ∷ 0 ∷ 0 ∷ 0
    ∷ 4 ∷ 5 ∷ 3 ∷ []

pub encoded : encode_content codecs 0 head content (set_seq head 1) ≡ ok frame
unfolding encode_content encode_with_body_data with_codec encode_parts stamp write_head
encoded = refl
