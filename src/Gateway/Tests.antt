-- ===== src/Gateway/Tests.antt =====
-- A gateway at a concrete request.
use easycall.Base.{
  true, ◌≡◌, refl, Bytes, none, some, [], ◌∷◌, ok, err, panic, eq_bytes, lookup, insert, bytes_key,
  text, decimal, arith,
}
use easycall.Base.Int.{pos, itoa, wrap, rem, ◌+ℤ◌}
use easycall.Head.{EasyHead, set_seq, set_ret, set_msg}
use easycall.Package.{
  EasyPackage, new_package_with_body, new_package_with_body_data, encode_with_body,
  encode_with_body_data, with_codec, encode_parts, stamp,
}
use easycall.Package.Sample.{codecs, plain-IsCodec, write_head}
use easycall.Package.RoundTrip.{decode-encode_body_data}
use easycall.Connection.Writes.{IsOpen, send, chan_send}
use easycall.NodeManager.{get_nodes}
use easycall.LoadBalancer.{lb_active, get_node, get_node_active, active_loop, get_node_round_robin}
use easycall.Pool.{
  new_generic_pool, fill, acquire, acquire_loop, get_or_create, from_chan, inspect, is_expired,
  release,
}
use easycall.Replies.{SystemError, error_internal_error}
use easycall.SessionManager.{init_session}
use easycall.ServiceClient.{
  new_service_client, request_async_with_head, find_nodes, listed, choose, picked, balance_type,
  connect, find_pool, pool_key, take_conn, got_conn, give_back, ask, encode_content, send_on,
}
use easycall.ServiceClient.Sample.{manager, open_conn, world, head, frame}
use easycall.EasyClient.{EasyClient, new_easy_client, client_of, easy_request}
use easycall.Middleware.{Middleware}
use easycall.Middleware.Chain.{compose}
use easycall.Gateway.{Proxied, gateway_dispatch, proxy}
use easycall.Gateway.Chains.{add_each, run_chain, gateway-compose}
use easycall.Gateway.Proxy.{with_number, proxy_number, proxy_failed}

abbrev pkg : EasyPackage Bytes
pkg = record {
  format = 0;
  head = set_seq head 1;
  body_data = 4 ∷ 5 ∷ [];
  pkg_data = frame;
  body = none;
}

abbrev upstream : EasyClient Bytes
upstream = new_easy_client (pos 100) lb_active

abbrev request : Proxied Bytes
request = record { pkg = pkg; client = open_conn; upstream = upstream }

proxy_number_example :
    proxy codecs (some manager) (open_conn ∷ []) world (some pkg) none (with_number 7 request)
    ≡ proxy codecs (some manager) (open_conn ∷ []) world (some pkg) none (with_number 8 request)
unfolding decimal easy_request client_of new_service_client request_async_with_head eq_bytes
    find_nodes listed get_nodes choose picked get_node balance_type get_node_active active_loop
    get_node_round_robin connect find_pool pool_key itoa lookup new_generic_pool fill take_conn
    acquire acquire_loop get_or_create from_chan inspect is_expired got_conn give_back release ask
    encode_content encode_with_body_data with_codec encode_parts stamp write_head send_on send
    chan_send init_session insert rem wrap ◌+ℤ◌
proxy_number_example =
    proxy_number codecs (some manager) (open_conn ∷ []) world request (some pkg) none 7 8 0 refl

-- No node manager: etcd could not be reached.
abbrev no_etcd : SystemError
no_etcd = record { ret = error_internal_error; msg = text "nodemgr is nil,maybe etcd connect fail" }

abbrev failed_head : EasyHead
failed_head = set_msg (set_ret pkg.head no_etcd.ret) no_etcd.msg

abbrev failed_frame : Bytes
failed_frame = elim (encode_with_body codecs (new_package_with_body 0 failed_head none)) [
  | ok d ↦ d
  | err e ↦ []
  | panic ↦ []
]

proxy_failed_example :
    (x' : Proxied Bytes) × (proxy codecs none [] world none none request ≡ ok x')
    × IsOpen x'.client (some failed_frame ∷ none ∷ [])
unfolding easy_request client_of new_service_client request_async_with_head eq_bytes find_nodes
    lookup encode_with_body with_codec encode_parts stamp write_head
proxy_failed_example =
    proxy_failed codecs none [] world request none [] no_etcd failed_frame (refl, refl)
      (omega arith) refl refl

abbrev proxying : Middleware (Proxied Bytes)
proxying = proxy codecs none [] world none

framed :
    encode_with_body_data codecs (new_package_with_body_data 0 (set_seq head 1) (4 ∷ 5 ∷ []))
    ≡ ok frame
unfolding encode_with_body_data with_codec encode_parts stamp write_head
framed = refl

one_proxy :
    (let (heap, list) = add_each (proxying ∷ []) ([], []) in
      gateway_dispatch codecs heap list 1 true frame open_conn upstream)
    ≡ run_chain (compose (proxying ∷ [])) request
one_proxy = gateway-compose codecs (proxying ∷ []) 1 frame pkg open_conn upstream (omega arith) (
    decode-encode_body_data codecs (new_package_with_body_data 0 (set_seq head 1) (4 ∷ 5 ∷ []))
      frame plain-IsCodec plain-IsCodec framed (omega arith))
