-- ===== src/Gateway/Http/Tests.antt =====
-- The HTTP gateway at a concrete request.
use easycall.Base.{
  Outcome, ok_inj, ap, sym, ◌∙◌, ◌≢◌, ◌≡◌, refl, Bytes, none, some, [], ◌∷◌, ok, eq_bytes, lookup,
  insert, bytes_key, text, decimal,
}
use easycall.Base.Int.{pos, itoa, wrap, rem, ◌+ℤ◌}
use easycall.Head.{set_ret, set_msg}
use easycall.Package.{EasyPackage, encode_with_body_data, with_codec, encode_parts, stamp}
use easycall.Package.Sample.{codecs, write_head}
use easycall.Connection.Writes.{send, chan_send}
use easycall.NodeManager.{get_nodes}
use easycall.LoadBalancer.{lb_active, get_node, get_node_active, active_loop, get_node_round_robin}
use easycall.Pool.{
  new_generic_pool, fill, acquire, acquire_loop, get_or_create, from_chan, inspect, is_expired,
  release,
}
use easycall.SessionManager.{init_session}
use easycall.ServiceClient.{
  new_service_client, request_async_with_head, find_nodes, listed, choose, picked, balance_type,
  connect, find_pool, pool_key, take_conn, got_conn, give_back, ask, encode_content, send_on,
}
use easycall.ServiceClient.Sample.{manager, open_conn, world}
use easycall.EasyClient.{EasyClient, new_easy_client, client_of, easy_request}
use easycall.Config.Strings.{index, split, push_front}
use easycall.Head.{new_easy_head}
use easycall.ServiceClient.{Asked, waiting, stuck, panicked}
use easycall.ServiceClient.Requests.{request_head}
use easycall.Gateway.Http.{
  HttpRequest, Http, http_head, http_proxy, route, routed, tell, error, written,
}
use easycall.Gateway.Http.Responses.{Answers, Responds, asked_for, http_path, http_proxy-Responds}

-- "/s/m", no headers.
abbrev get : HttpRequest
get = record {
  path = 47 ∷ 115 ∷ 47 ∷ 109 ∷ [];
  header = λ name. [];
  remote_addr = 49 ∷ [];
  body = ok (4 ∷ 5 ∷ []);
}

abbrev upstream : EasyClient Bytes
upstream = new_easy_client (pos 100) lb_active

abbrev http : Http Bytes
http = record { req = get; events = []; upstream = upstream }

-- A middleware after the proxy, which writes as well.
abbrev after : Http Bytes → Outcome (Http Bytes)
after x = ok (tell (written [] ∷ []) x)

-- The service has no such user.
abbrev pkg : EasyPackage Bytes
pkg = record {
  format = 1;
  head = set_msg (set_ret new_easy_head (pos 3000)) (120 ∷ []);
  body_data = [];
  pkg_data = [];
  body = none;
}

is_asked :
    asked_for codecs
      (some manager)
      (open_conn ∷ [])
      world
      (some pkg)
      (115 ∷ [], 109 ∷ [])
      (4 ∷ 5 ∷ [])
      http
    ≡ waiting 0
unfolding decimal easy_request client_of new_service_client request_async_with_head eq_bytes
    find_nodes listed get_nodes choose picked get_node balance_type get_node_active active_loop
    get_node_round_robin connect find_pool pool_key itoa lookup new_generic_pool fill take_conn
    acquire acquire_loop get_or_create from_chan inspect is_expired got_conn give_back release ask
    encode_content encode_with_body_data with_codec encode_parts stamp write_head send_on send
    chan_send init_session insert rem wrap ◌+ℤ◌ http_head request_head
is_asked = refl

http_path_example :
    let head = http_head (115 ∷ []) (109 ∷ []) get in
    (head.service ≡ 115 ∷ [])
    × (head.method ≡ 109 ∷ [])
    × (head.request_ip ≡ 49 ∷ [])
    × Answers codecs
        (some manager)
        (open_conn ∷ [])
        world
        (some pkg)
        http
        (some after)
        (http_proxy codecs (some manager) (open_conn ∷ []) world (some pkg) (some after) http)
        400
unfolding index
http_path_example =
    http_path codecs (some manager) (open_conn ∷ []) world (some pkg) (some after) http 115 109 []
      [] (4 ∷ 5 ∷ []) 0 refl refl refl refl is_asked

is_routed : route (split 47 get.path) get.header ≡ (115 ∷ [], 109 ∷ [])
unfolding split push_front route
is_routed = refl

still_waiting : (a : Asked) → a ≡ waiting 0 → (a ≢ stuck) × (a ≢ panicked)
still_waiting a w = (λ h. cc, λ h. cc)

ends :
    (d : Bytes)
    → ok (4 ∷ 5 ∷ []) ≡ ok d
    → (asked_for codecs
          (some manager)
          (open_conn ∷ [])
          world
          (some pkg)
          (route (split 47 get.path) get.header)
          d
          http
        ≢ stuck)
      × (asked_for codecs
            (some manager)
            (open_conn ∷ [])
            world
            (some pkg)
            (route (split 47 get.path) get.header)
            d
            http
          ≢ panicked)
ends d e =
    let is_waiting =
      ap (λ n. asked_for codecs (some manager) (open_conn ∷ []) world (some pkg) n d http) is_routed
      ∙ ap
          (λ d.
            asked_for codecs (some manager) (open_conn ∷ []) world (some pkg) (115 ∷ [], 109 ∷ []) d
              http)
          (sym (ok_inj e))
      ∙ is_asked in
    still_waiting _ is_waiting

http_proxy-Responds_example :
    Responds codecs
      (some manager)
      (open_conn ∷ [])
      world
      (some pkg)
      http
      (some after)
      (http_proxy codecs (some manager) (open_conn ∷ []) world (some pkg) (some after) http)
http_proxy-Responds_example =
    http_proxy-Responds codecs (some manager) (open_conn ∷ []) world (some pkg) (some after) http
      ends (λ e. cc)

-- Three slashes.
abbrev too_long : Http Bytes
too_long = record http { req = record get { path = 47 ∷ 47 ∷ 47 ∷ [] } }

is_refused :
    http_proxy codecs none [] world (some pkg) none too_long
    ≡ ok (tell (error (text "service or method is empty") 400 ∷ []) too_long)
unfolding http_proxy split push_front route routed
is_refused = refl
