-- ===== src/Gateway/Http/Responses.antt =====
-- What a client of the HTTP gateway is answered.
use easycall.Base.{
  ℕ, Bool, true, false, suc, ◌≡◌, ◌≢◌, refl, sym, ap, subst, ◌∙◌, Bytes, Option, none, some, List,
  [], ◌∷◌, ◌++◌, Outcome, ok, err, panic, Bool-cases, inl, inr, text, if◌then◌else◌, ◌==◌,
}
use easycall.Base.Int.{pos, eq_ℤ, ltb_ℤ}
use easycall.Head.{EasyHead, set_uid, set_token, set_request_ip}
use easycall.Package.{EasyPackage, Codecs, format_json}
use easycall.Config.Strings.{split, index, parse_uint}
use easycall.Config.Lines.{Lacks, split_one, split-append}
use easycall.Connection.Writes.{EasyConnection}
use easycall.NodeManager.{NodeManager}
use easycall.Replies.{SystemError, error_max_system_code, error_time_out}
use easycall.ServiceClient.{World, raw, Asked, failed, waiting, stuck, panicked}
use easycall.ServiceClient.Requests.{request_head, answered}
use easycall.EasyClient.{easy_request}
use easycall.EasyClient.Requests.{request_with_head}
use easycall.Gateway.Http.{
  HttpRequest, Event, header_set, error, written, Http, tell, route, http_head, unless_empty,
  json_type, ret_header, hand_over, respond, forward, routed, http_proxy,
}

-- The responses among the calls of a response writer.
abbrev pub responses : List Event → ℕ
responses [] = 0
responses (header_set name v ∷ es) = responses es
responses (error msg code ∷ es) = suc (responses es)
responses (written d ∷ es) = suc (responses es)

-- The status of the first response.
abbrev pub status : List Event → Option ℕ
status [] = none
status (header_set name v ∷ es) = status es
status (error msg code ∷ es) = some code
status (written d ∷ es) = some 200

-- The status that an answer is for; `none` is a time-out.
abbrev pub status_of : {Body : Type 0} → Option (EasyPackage Body) → ℕ
status_of none = 500
status_of (some pkg) =
    if eq_ℤ pkg.head.ret (pos 0)
    then 200
    else (if ltb_ℤ pkg.head.ret error_max_system_code then 500 else 400)

-- A header sets nothing but its own field.
unless_empty-keeps :
    {A B : Type 0} (s : Bytes) (f : Bytes → A → A) (a : A) (g : A → B)
    → ((s : Bytes) (a : A) → g (f s a) ≡ g a)
    → g (unless_empty s f a) ≡ g a
unless_empty-keeps [] f a g h = refl
unless_empty-keeps (c ∷ cs) f a g h = h (c ∷ cs) a

http_head-keeps :
    {B : Type 0} (service method : Bytes) (r : HttpRequest) (g : EasyHead → B)
    → ((h : EasyHead) (uid : ℕ) → g (set_uid h uid) ≡ g h)
    → ((h : EasyHead) (token : Bytes) → g (set_token h token) ≡ g h)
    → ((h : EasyHead) (ip : Bytes) → g (set_request_ip h ip) ≡ g h)
    → g (http_head service method r) ≡ g (request_head service method)
unfolding http_head
http_head-keeps service method r g on_uid on_token on_ip =
    on_ip _ r.remote_addr
    ∙ unless_empty-keeps (r.header (text "X-Easycall-Token")) (λ token h. set_token h token) _ g
        (λ s a. on_token a s)
    ∙ unless_empty-keeps (r.header (text "X-Easycall-Uid")) (λ uid h. set_uid h (parse_uint uid)) _
        g (λ s a. on_uid a (parse_uint s))

http_head_names :
    (service method : Bytes) (r : HttpRequest)
    → ((http_head service method r).service ≡ service)
      × ((http_head service method r).method ≡ method)
      × ((http_head service method r).request_ip ≡ r.remote_addr)
unfolding http_head request_head
http_head_names service method r = (
  http_head-keeps service method r (λ h. h.service) (λ h n. refl) (λ h n. refl) (λ h n. refl),
  http_head-keeps service method r (λ h. h.method) (λ h n. refl) (λ h n. refl) (λ h n. refl),
  refl,
)

module _ {Body : Type 0} (codecs : Codecs Body) (node_mgr : Option NodeManager)
    (conns : List EasyConnection) (w : World) (answer : Option (EasyPackage Body)) where
  abbrev no_answer : SystemError
  no_answer = record { ret = error_time_out; msg = text "request time out" }

  -- What follows the response: the next middleware after a 200, if there is one, and nothing else.
  abbrev pub carry_on :
      ℕ → Option (Http Body → Outcome (Http Body)) → Http Body → Outcome (Http Body)
  carry_on code none x = ok x
  carry_on code (some run) x = if code == 200 then run x else ok x

  not_carried :
      (code : ℕ) (next : Option (Http Body → Outcome (Http Body))) (x : Http Body)
      → (code == 200) ≡ false
      → ok x ≡ carry_on code next x
  not_carried code none x h = refl
  not_carried code (some run) x h = rw h refl

  -- The response writer got these calls, and the proxy went on to what follows the response.
  abbrev pub Told :
      Http Body
      → Option (Http Body → Outcome (Http Body))
      → Outcome (Http Body)
      → List Event
      → ℕ
      → Type 0
  Told x next out evs code =
      (x' : Http Body) × (out ≡ carry_on code next x') × (x'.events ≡ x.events ++ evs)

  -- It got one response and no more, with this status.
  abbrev pub Answers :
      Http Body → Option (Http Body → Outcome (Http Body)) → Outcome (Http Body) → ℕ → Type 0
  Answers x next out code =
      (evs : List Event) × Told x next out evs code × (responses evs ≡ 1) × (status evs ≡ some code)

  abbrev pub Responds :
      Http Body → Option (Http Body → Outcome (Http Body)) → Outcome (Http Body) → Type 0
  Responds x next out = (code : ℕ) × Answers x next out code

  error-Answers :
      (msg : Bytes) (before : List Event) (code : ℕ)
      (next : Option (Http Body → Outcome (Http Body))) (x : Http Body)
      → (code == 200) ≡ false
      → responses before ≡ 0
      → status (before ++ error msg code ∷ []) ≡ some code
      → responses (before ++ error msg code ∷ []) ≡ 1
      → Answers x next (ok (tell (before ++ error msg code ∷ []) x)) code
  error-Answers msg before code next x h z st n =
      let evs = before ++ error msg code ∷ [] in
      (evs, (tell evs x, not_carried code next (tell evs x) h, refl), n, st)

  carried :
      (next : Option (Http Body → Outcome (Http Body))) (x : Http Body)
      → elim next [ none ↦ ok x | some run ↦ run x ] ≡ carry_on 200 next x
  carried none x = refl
  carried (some run) x = refl

  error_code : Bool → ℕ
  error_code system = if system then 500 else 400

  error_code_lem : (system : Bool) → (error_code system == 200) ≡ false
  unfolding error_code
  error_code_lem true = refl
  error_code_lem false = refl

  hand_over-Answers :
      (pkg : EasyPackage Body) (next : Option (Http Body → Outcome (Http Body))) (x : Http Body)
      → Answers x next (hand_over codecs pkg next x) (status_of (some pkg))
  unfolding hand_over error_code
  hand_over-Answers pkg next x = elim (Bool-cases (eq_ℤ pkg.head.ret (pos 0))) [
    | inl y ↦
        let evs = json_type ∷ written pkg.body_data ∷ [] in
        rw y (evs, (tell evs x, carried next (tell evs x), refl), refl, refl)
    | inr n ↦
        let system = ltb_ℤ pkg.head.ret error_max_system_code in
        rw n (
          error-Answers pkg.head.msg (ret_header pkg.head.ret ∷ []) (error_code system) next x
            (error_code_lem system) refl refl refl)
  ]

  respond-Answers :
      (answer : Option (EasyPackage Body)) (e : SystemError)
      (next : Option (Http Body → Outcome (Http Body))) (x : Http Body)
      → Answers x next (respond codecs (ok (answer, e)) next x) (status_of answer)
  unfolding respond
  respond-Answers none e next x =
      error-Answers e.msg (ret_header e.ret ∷ []) 500 next x refl refl refl refl
  respond-Answers (some pkg) e next x = hand_over-Answers pkg next x

  respond-Responds :
      (a : Asked) (next : Option (Http Body → Outcome (Http Body))) (x : Http Body)
      → a ≢ stuck
      → a ≢ panicked
      → Responds x next (respond codecs (answered answer a) next x)
  unfolding respond answered
  respond-Responds (failed e) next x s p = (500, respond-Answers none e next x)
  respond-Responds (waiting session) next x s p =
      (status_of answer, respond-Answers answer no_answer next x)
  respond-Responds stuck next x s p = absurd (s refl)
  respond-Responds panicked next x s p = absurd (p refl)

  -- How the request of the gateway itself ends.
  abbrev pub asked_for : Bytes × Bytes → Bytes → Http Body → Asked
  asked_for (service, method) body_data x =
      (easy_request codecs format_json (http_head service method x.req) (raw body_data) node_mgr
        conns w x.upstream).1

  forward-Responds :
      (service method : Bytes) (body : Outcome Bytes)
      (next : Option (Http Body → Outcome (Http Body))) (x : Http Body)
      → ((d : Bytes)
          → body ≡ ok d
          → (asked_for (service, method) d x ≢ stuck)
            × (asked_for (service, method) d x ≢ panicked))
      → body ≢ panic
      → Responds x next
          (forward codecs node_mgr conns w answer (http_head service method x.req) body next x)
  unfolding forward request_with_head
  forward-Responds service method (ok d) next x ends p =
      let (s, t) = ends d refl in respond-Responds (asked_for (service, method) d x) next _ s t
  forward-Responds service method (err m) next x ends p =
      (500, error-Answers m [] 500 next x refl refl refl refl)
  forward-Responds service method panic next x ends p = absurd (p refl)

  routed-Responds :
      (names : Bytes × Bytes) (next : Option (Http Body → Outcome (Http Body))) (x : Http Body)
      → ((d : Bytes)
          → x.req.body ≡ ok d
          → (asked_for names d x ≢ stuck) × (asked_for names d x ≢ panicked))
      → x.req.body ≢ panic
      → Responds x next (routed codecs node_mgr conns w answer names next x)
  unfolding routed
  routed-Responds ([], method) next x ends p =
      (400, error-Answers (text "service or method is empty") [] 400 next x refl refl refl refl)
  routed-Responds (c ∷ cs, []) next x ends p =
      (400, error-Answers (text "service or method is empty") [] 400 next x refl refl refl refl)
  routed-Responds (c ∷ cs, d ∷ ds) next x ends p =
      forward-Responds (c ∷ cs) (d ∷ ds) x.req.body next x ends p

  -- Let the body of the request be read or refused, and let the request of the gateway itself, if it
  -- makes one, neither block nor panic. Whatever the path, the headers and the middleware that
  -- follows, the proxy gives the response writer exactly one response; then it calls that
  -- middleware if the status is 200 and there is one, and returns in every other case.
  pub http_proxy-Responds :
      (next : Option (Http Body → Outcome (Http Body))) (x : Http Body)
      → ((d : Bytes)
          → x.req.body ≡ ok d
          → (asked_for (route (split 47 x.req.path) x.req.header) d x ≢ stuck)
            × (asked_for (route (split 47 x.req.path) x.req.header) d x ≢ panicked))
      → x.req.body ≢ panic
      → Responds x next (http_proxy codecs node_mgr conns w answer next x)
  unfolding http_proxy
  http_proxy-Responds next x ends p =
      routed-Responds (route (split 47 x.req.path) x.req.header) next x ends p

  split_path :
      (s m : Bytes) → Lacks 47 s → Lacks 47 m → split 47 (47 ∷ s ++ 47 ∷ m) ≡ [] ∷ s ∷ m ∷ []
  unfolding index
  split_path s m a b =
      split-append 47 [] (s ++ 47 ∷ m) refl
      ∙ ap ([] ∷◌) (split-append 47 s m a ∙ ap (s ∷◌) (split_one 47 m b))

  -- Let the path be a slash, a service, a slash and a method, neither of which is empty or has a
  -- slash; let the body be read, and let the request of the gateway itself return a channel. That
  -- request is one to this service and this method with the address of the client, whatever the
  -- headers are; and the proxy gives the response writer one response, whose status is 200 for an
  -- answer without an error, 400 for an error of the service, and 500 for one of the system or a
  -- time-out. After a 200 it calls the middleware that follows, if there is one, on the request with
  -- this response; in every other case it returns.
  pub http_path :
      (next : Option (Http Body → Outcome (Http Body))) (x : Http Body) (c d : ℕ)
      (cs ds body_data : Bytes) (session : ℕ)
      → x.req.path ≡ 47 ∷ (c ∷ cs) ++ 47 ∷ d ∷ ds
      → Lacks 47 (c ∷ cs)
      → Lacks 47 (d ∷ ds)
      → x.req.body ≡ ok body_data
      → asked_for (c ∷ cs, d ∷ ds) body_data x ≡ waiting session
      → let head = http_head (c ∷ cs) (d ∷ ds) x.req in
        (head.service ≡ c ∷ cs)
        × (head.method ≡ d ∷ ds)
        × (head.request_ip ≡ x.req.remote_addr)
        × Answers x next (http_proxy codecs node_mgr conns w answer next x) (status_of answer)
  unfolding http_proxy route routed forward request_with_head answered
  http_path next x c d cs ds body_data session path a b body asked =
      let (service, method, ip) = http_head_names (c ∷ cs) (d ∷ ds) x.req in
      let names : route (split 47 x.req.path) x.req.header ≡ (c ∷ cs, d ∷ ds) =
        ap (λ p. route p x.req.header) (ap (split 47) path ∙ split_path (c ∷ cs) (d ∷ ds) a b) in
      let head = http_head (c ∷ cs) (d ∷ ds) x.req in
      let upstream =
        (easy_request codecs format_json head (raw body_data) node_mgr conns w x.upstream).0 in
      let x' : Http Body = record x { upstream = upstream } in
      let code = status_of answer in
      (
        service,
        method,
        ip,
        subst (λ n. Answers x next (routed codecs node_mgr conns w answer n next x) code)
            (sym names)
            (subst (λ o. Answers x next (forward codecs node_mgr conns w answer head o next x) code)
              (sym body)
              (subst (λ a. Answers x next (respond codecs (answered answer a) next x') code)
                (sym asked) (respond-Answers answer no_answer next x'))),
      )
