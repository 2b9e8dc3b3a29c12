-- ===== src/Gateway/Proxy.antt =====
-- What the client of a gateway is sent.
use easycall.Base.{
  ℕ, suc, ◌+◌, ◌<◌, ◌≡◌, refl, sym, ap, subst, ◌∙◌, Bytes, Bool, false, Option, none, some, List,
  [], ◌∷◌, ◌++◌, append_assoc, length, length-append, lt→ltb, Outcome, ok, arith,
}
use easycall.Head.{EasyHead, set_seq, set_ret, set_msg}
use easycall.Package.{EasyPackage, Codecs, new_package_with_body, encode_with_body}
use easycall.Connection.Writes.{
  EasyConnection, chan_send, IsOpen, easycall_write_queue_size, write_loop,
}
use easycall.NodeManager.{NodeManager}
use easycall.Replies.{SystemError}
use easycall.ServiceClient.{
  World, Content, raw, Asked, failed, waiting, encode_content, ask, give_back, got_conn, take_conn,
  connect, picked, choose, balance_type, listed, find_nodes, request_async_with_head,
}
use easycall.EasyClient.{EasyClient, easy_request}
use easycall.ServiceClient.Requests.{answered}
use easycall.Gateway.{Proxied, numbered, send_entry, reply_error, hand_back, proxy}

-- The same request under another number.
abbrev pub with_number : {Body : Type 0} → ℕ → Proxied Body → Proxied Body
with_number a x = record x { pkg = record (x.pkg) { head = set_seq x.pkg.head a } }

module _ {Body : Type 0} (codecs : Codecs Body) where
  -- A request overwrites the number in its head before it reads it.
  easy_request_number :
      (format : ℕ) (head : EasyHead) (body : Content Body) (node_mgr : Option NodeManager)
      (conns : List EasyConnection) (w : World) (ec : EasyClient Body) (a b : ℕ)
      → easy_request codecs format (set_seq head a) body node_mgr conns w ec
        ≡ easy_request codecs format (set_seq head b) body node_mgr conns w ec
  unfolding easy_request request_async_with_head find_nodes listed choose balance_type picked
      connect take_conn got_conn give_back ask encode_content
  easy_request_number format head body node_mgr conns w ec a b = refl

  module _ (node_mgr : Option NodeManager) (conns : List EasyConnection) (w : World)
      (x : Proxied Body) where
    abbrev asked_of : EasyHead → EasyClient Body × Asked
    asked_of head =
        easy_request codecs x.pkg.format head (raw x.pkg.body_data) node_mgr conns w x.upstream

    after_waiting :
        (ec : EasyClient Body) (asked : Asked) (session a b : ℕ)
        → asked ≡ waiting session
        → numbered codecs (set_seq x.pkg.head a) ec asked
          ≡ numbered codecs (set_seq x.pkg.head b) ec asked
    unfolding numbered
    after_waiting ec asked session a b e =
        subst
          (λ asked.
            numbered codecs (set_seq x.pkg.head a) ec asked
            ≡ numbered codecs (set_seq x.pkg.head b) ec asked)
          (sym e) refl

    -- Where the gateway's own request returns a channel, what the proxy does is the same whatever
    -- number the client gave its request: the answer that the client is sent cannot carry it.
    pub proxy_number :
        (answer : Option (EasyPackage Body)) (next : Option (Proxied Body → Outcome (Proxied Body)))
        (a b session : ℕ)
        → (asked_of (set_seq x.pkg.head a)).1 ≡ waiting session
        → proxy codecs node_mgr conns w answer next (with_number a x)
          ≡ proxy codecs node_mgr conns w answer next (with_number b x)
    unfolding proxy
    proxy_number answer next a b session e =
        let same =
          easy_request_number x.pkg.format x.pkg.head (raw x.pkg.body_data) node_mgr conns w
            x.upstream a b in
        let back = λ (r : EasyClient Body × Asked) (head : EasyHead).
          hand_back codecs (answered answer r.1) next
            (record x { pkg = record (x.pkg) { head = head }; upstream = r.0 }) in
        ap (back (asked_of (set_seq x.pkg.head a))) (
          after_waiting (asked_of (set_seq x.pkg.head a)).0 (asked_of (set_seq x.pkg.head a)).1
            session a b e)
        ∙ ap (λ r. back r (numbered codecs (set_seq x.pkg.head b) r.0 r.1)) same

    entry_queued :
        (y : Proxied Body) (entry : Option Bytes) (queue : List (Option Bytes))
        → IsOpen y.client queue
        → length queue < easycall_write_queue_size
        → (y' : Proxied Body) × (send_entry codecs entry y ≡ ok y')
          × IsOpen y'.client (queue ++ entry ∷ [])
    unfolding send_entry chan_send
    entry_queued y entry queue (o, c) lt = (
      record y {
        client = record {
          is_close = false;
          write_chan = some (record { queue = queue ++ entry ∷ []; closed = false });
        };
      },
      rw (send_entry, o, chan_send, c)
          (rw (lt→ltb (length queue) easycall_write_queue_size lt) (rw o refl)),
      (refl, refl),
    )

    -- Where the gateway's own request fails and the reply with its error can be encoded, the open
    -- connection of the client, with room for two entries, gets that reply and then a nil slice.
    pub proxy_failed :
        (answer : Option (EasyPackage Body)) (queue : List (Option Bytes)) (e : SystemError)
        (d : Bytes)
        → IsOpen x.client queue
        → suc (length queue) < easycall_write_queue_size
        → (asked_of x.pkg.head).1 ≡ failed e
        → encode_with_body codecs
            (new_package_with_body x.pkg.format (set_msg (set_ret x.pkg.head e.ret) e.msg) none)
          ≡ ok d
        → (x' : Proxied Body) × (proxy codecs node_mgr conns w answer none x ≡ ok x')
          × IsOpen x'.client (queue ++ some d ∷ none ∷ [])
    unfolding proxy answered numbered hand_back reply_error
    proxy_failed answer queue e d o lt f enc =
        let y : Proxied Body = record x {
          pkg = record (x.pkg) { head = set_msg (set_ret x.pkg.head e.ret) e.msg };
          upstream = (asked_of x.pkg.head).0;
        } in
        let (y1, s1, o1) = entry_queued y (some d) queue o (omega (arith, lt)) in
        let len : length (queue ++ some d ∷ []) ≡ length queue + 1 =
          length-append queue (some d ∷ []) in
        let (y2, s2, o2) =
          entry_queued y1 none (queue ++ some d ∷ []) o1 (omega (arith, lt, len)) in
        (
          y2,
          rw (proxy, f, answered, hand_back, reply_error, enc) (rw s1 (rw s2 refl)),
          subst (IsOpen y2.client) (append_assoc queue (some d ∷ []) (none ∷ [])) o2,
        )

-- The loop that writes ends at a nil slice, whatever stands before and after it.
pub write_loop_nil :
    (accepts : Bytes → Bool) (before after : List (Option Bytes))
    → (write_loop accepts (before ++ none ∷ after)).1 ≡ false
unfolding write_loop
write_loop_nil accepts [] after = refl
write_loop_nil accepts (none ∷ before) after = refl
write_loop_nil accepts (some p ∷ before) after = ground (arith, write_loop_nil accepts before after)
