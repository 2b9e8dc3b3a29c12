-- ===== src/EasyClient/Tests.antt =====
-- A client of any service, at one service with one node.
use easycall.Base.{
  decimal, false, ◌≡◌, ◌≢◌, refl, Bytes, none, some, [], ◌∷◌, lookup, insert, bytes_key, eq_bytes,
}
use easycall.Base.Int.{pos, ◌≤ℤ◌, itoa, wrap, rem, ◌+ℤ◌}
use easycall.Connection.Writes.{send, chan_send}
use easycall.NodeManager.{get_nodes}
use easycall.LoadBalancer.{lb_active, get_node, get_node_active, active_loop, get_node_round_robin}
use easycall.Pool.{
  GenericPool, new_generic_pool, fill, acquire, acquire_loop, get_or_create, from_chan, inspect,
  is_expired, release,
}
use easycall.Replies.{LogicError, logic_error, error_max_system_code}
use easycall.Head.{set_ret}
use easycall.Package.{EasyPackage, encode_with_body_data, with_codec, encode_parts, stamp}
use easycall.Package.Sample.{codecs, write_head}
use easycall.SessionManager.{init_session}
use easycall.ServiceClient.{
  ServiceClient, new_service_client, request_async_with_head, find_nodes, listed, choose, picked,
  balance_type, connect, find_pool, pool_key, take_conn, got_conn, give_back, ask, encode_content,
  send_on,
}
use easycall.ServiceClient.Sample.{manager, open_conn, world, head, content}
use easycall.EasyClient.{EasyClient, new_easy_client, client_of, easy_request}
use easycall.EasyClient.Agreement.{plain, request-request}
use easycall.EasyClient.Requests.{request}
use easycall.ServiceClient.Requests
use easycall.EasyClient.Pools.{Call, run_calls, pool_size_ignored, easy_request_own}

abbrev first_call : Call Bytes
first_call = record {
  format = 0;
  head = head;
  body = content;
  node_mgr = some manager;
  conns = open_conn ∷ [];
  world = world;
}

abbrev after : EasyClient Bytes
after = run_calls codecs (first_call ∷ []) (new_easy_client (pos 100) lb_active)

abbrev key : Bytes
key = 49 ∷ 58 ∷ 56 ∷ 48 ∷ []

abbrev its_pool : ServiceClient Bytes → GenericPool
its_pool c = elim (lookup key c.pool_map) [
  | some pool ↦ pool
  | none ↦ record {
    pool_chan = [];
    max_size = pos 0;
    cur_size = pos 0;
    min_size = pos 0;
    shutdown = false;
    lifetime = pos 0;
    closed = [];
  }
]

pool_size_ignored_example : (its_pool (client_of none [] head.service after)).max_size ≡ pos 10
unfolding decimal easy_request client_of new_service_client request_async_with_head eq_bytes
    find_nodes listed get_nodes choose picked get_node balance_type get_node_active active_loop
    get_node_round_robin connect find_pool pool_key itoa lookup new_generic_pool fill take_conn
    acquire acquire_loop get_or_create from_chan inspect is_expired got_conn give_back release ask
    encode_content encode_with_body_data with_codec encode_parts stamp write_head send_on send
    chan_send init_session insert rem wrap ◌+ℤ◌
pool_size_ignored_example =
    pool_size_ignored codecs (pos 100) lb_active (first_call ∷ []) head.service key
      (client_of none [] head.service after) (its_pool (client_of none [] head.service after)) refl
      refl

easy_request_own_example :
    let c = client_of (some manager) (open_conn ∷ []) head.service after in
    ((easy_request codecs 0 head content (some manager) (open_conn ∷ []) world after).1
      ≡ (find_nodes codecs 0 head content world c.node_mgr c).1)
    × ((name : Bytes)
        → head.service ≢ name
        → lookup name
            (easy_request codecs 0 head content
              (some manager)
              (open_conn ∷ [])
              world
              after).0.clients
          ≡ lookup name after.clients)
easy_request_own_example = easy_request_own codecs (pos 100) lb_active (first_call ∷ []) first_call

abbrev pkg : EasyPackage Bytes
pkg = record {
  format = 0;
  head = set_ret head (pos 3000);
  body_data = [];
  pkg_data = [];
  body = none;
}

request-request_example :
    let (ec', result) =
      request codecs head.service head.method content (some manager) [] world (some pkg) after in
    let (c', result') =
      Requests.request codecs head.method content world
        (some pkg)
        (client_of (some manager) [] head.service after) in
    (lookup head.service ec'.clients ≡ some c')
    × ((name : Bytes) → head.service ≢ name → lookup name ec'.clients ≡ lookup name after.clients)
    × (plain result ≡ plain result')
    × ((e : LogicError) → result' ≡ some (logic_error e) → error_max_system_code ≤ℤ e.ret)
request-request_example =
    request-request codecs (pos 100) lb_active (first_call ∷ []) head.service head.method content
      (some manager) [] world (some pkg)
