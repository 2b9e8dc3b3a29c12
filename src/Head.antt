-- ===== src/Head.antt =====
-- easy_package.go, `EasyHead`: the head of a package and its setters. The getters are the fields.
-- `Uid` and `Seq` are uint64 values, `Ret` an int.
use easycall.Base.{ℕ, Bytes, []}
use easycall.Base.Int.{ℤ, pos}

pub record EasyHead : Type 0 where
  pub service : Bytes
  pub method : Bytes
  pub route_key : Bytes
  pub token : Bytes
  pub uid : ℕ
  pub request_ip : Bytes
  pub trace_id : Bytes
  pub seq : ℕ
  pub ret : ℤ
  pub msg : Bytes

abbrev pub new_easy_head : EasyHead
new_easy_head = record {
  service = [];
  method = [];
  route_key = [];
  token = [];
  uid = 0;
  request_ip = [];
  trace_id = [];
  seq = 0;
  ret = pos 0;
  msg = [];
}

abbrev pub set_service : EasyHead → Bytes → EasyHead
set_service head service = record head { service = service }

abbrev pub set_method : EasyHead → Bytes → EasyHead
set_method head method = record head { method = method }

abbrev pub set_route_key : EasyHead → Bytes → EasyHead
set_route_key head route_key = record head { route_key = route_key }

abbrev pub set_token : EasyHead → Bytes → EasyHead
set_token head token = record head { token = token }

abbrev pub set_uid : EasyHead → ℕ → EasyHead
set_uid head uid = record head { uid = uid }

abbrev pub set_request_ip : EasyHead → Bytes → EasyHead
set_request_ip head request_ip = record head { request_ip = request_ip }

abbrev pub set_trace_id : EasyHead → Bytes → EasyHead
set_trace_id head trace_id = record head { trace_id = trace_id }

abbrev pub set_seq : EasyHead → ℕ → EasyHead
set_seq head seq = record head { seq = seq }

abbrev pub set_ret : EasyHead → ℤ → EasyHead
set_ret head ret = record head { ret = ret }

abbrev pub set_msg : EasyHead → Bytes → EasyHead
set_msg head msg = record head { msg = msg }
