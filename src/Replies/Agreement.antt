-- ===== src/Replies/Agreement.antt =====
-- Where the two clients agree on an answer.
use easycall.Base.{◌≡◌, ◌≢◌, refl, Option, none, some, Outcome, ok, err, panic, arith}
use easycall.Base.Int.{◌≤ℤ◌}
use easycall.Package.{EasyPackage, Codecs, decode_body}
use easycall.Replies.{
  error_max_system_code, LogicError, Reply, done, system_error, logic_error, decode_error, panicked,
  decoded, service_reply, easy_reply,
}

-- The answer with the kind of its error forgotten: every error with a code is a logic error.
abbrev pub without_kind : {Body : Type 0} → Reply Body → Reply Body
without_kind (system_error e) = logic_error (record { ret = e.ret; msg = e.msg })
without_kind (done b) = done b
without_kind (logic_error e) = logic_error e
without_kind (decode_error e) = decode_error e
without_kind panicked = panicked

module _ {Body : Type 0} (codecs : Codecs Body) where
  decoded_not_logic : (o : Outcome Body) (e : LogicError) → decoded codecs o ≢ logic_error e
  unfolding decoded
  decoded_not_logic (ok b) e h = cc
  decoded_not_logic (err x) e h = cc
  decoded_not_logic panic e h = cc

  large_code :
      (pkg : EasyPackage Body) (e : LogicError)
      → service_reply codecs (some pkg) ≡ logic_error e
      → error_max_system_code ≤ℤ e.ret
  unfolding service_reply
  large_code pkg e h = ground (arith, decoded_not_logic (decode_body codecs pkg) e)

  -- Of every answer, both clients return the same body, or the same code and message; and what the
  -- service client calls a logic error has a code from 2000 on.
  pub replies_agree :
      (answer : Option (EasyPackage Body))
      → (without_kind (service_reply codecs answer) ≡ without_kind (easy_reply codecs answer))
        × ((e : LogicError)
            → service_reply codecs answer ≡ logic_error e
            → error_max_system_code ≤ℤ e.ret)
  unfolding service_reply easy_reply decoded
  replies_agree none = (refl, λ e h. cc)
  replies_agree (some pkg) = (ground arith, λ e h. large_code pkg e h)
