-- ===== src/Replies.antt =====
-- error.go, and what both clients (service_client.go, easy_client.go) make of the answer that their
-- channel gives: `none` is the nil package of a time-out.
pub mod Agreement
mod Tests
use easycall.Base.{
  ℕ, Bytes, Bool, Option, none, some, text, ◌++◌, if◌then◌else◌, Outcome, ok, err, panic,
}
use easycall.Base.Int.{ℤ, pos, ltb_ℤ, eq_ℤ, itoa}
use easycall.Head.{EasyHead}
use easycall.Package.{EasyPackage, Codecs, decode_body}

abbrev pub error_time_out : ℤ
error_time_out = pos 1003

abbrev pub error_internal_error : ℤ
error_internal_error = pos 1001

abbrev pub error_service_not_found : ℤ
error_service_not_found = pos 1002

abbrev pub error_max_system_code : ℤ
error_max_system_code = pos 2000

pub record LogicError : Type 0 where
  pub ret : ℤ
  pub msg : Bytes

pub record SystemError : Type 0 where
  pub ret : ℤ
  pub msg : Bytes

abbrev pub new_logic_error : ℤ → Bytes → LogicError
new_logic_error ret msg = record { ret = ret; msg = msg }

abbrev pub new_system_error : ℤ → Bytes → SystemError
new_system_error ret msg = record { ret = ret; msg = msg }

-- `Error()` of both.
unfoldable pub error_text : ℤ → Bytes → Bytes
error_text ret msg = text "Ret=" ++ (itoa ret ++ (text ",Msg=" ++ msg))

-- How `Request` ends: with the decoded body, one of the two errors, the error of the decoder, or
-- its panic.
pub data Reply (Body : Type 0) : Type 0 where
  done : Body → Reply Body
  system_error : SystemError → Reply Body
  logic_error : LogicError → Reply Body
  decode_error : Bytes → Reply Body
  panicked : Reply Body

abbrev timed_out : {Body : Type 0} → Reply Body
timed_out = system_error (new_system_error error_time_out (text "request time out"))

module _ {Body : Type 0} (codecs : Codecs Body) where
  unfoldable pub decoded : Outcome Body → Reply Body
  decoded (ok body) = done body
  decoded (err e) = decode_error e
  decoded panic = panicked

  -- `ServiceClient.Request`, from the receive on.
  unfoldable pub service_reply : Option (EasyPackage Body) → Reply Body
  service_reply none = timed_out
  service_reply (some pkg) =
      if eq_ℤ pkg.head.ret (pos 0)
      then decoded (decode_body codecs pkg)
      else (if ltb_ℤ pkg.head.ret error_max_system_code
          then system_error (new_system_error pkg.head.ret pkg.head.msg)
          else logic_error (new_logic_error pkg.head.ret pkg.head.msg))

  -- `EasyClient.Request`, from the receive on.
  unfoldable pub easy_reply : Option (EasyPackage Body) → Reply Body
  easy_reply none = timed_out
  easy_reply (some pkg) =
      if eq_ℤ pkg.head.ret (pos 0)
      then decoded (decode_body codecs pkg)
      else logic_error (new_logic_error pkg.head.ret pkg.head.msg)
