-- ===== src/Replies/Tests.antt =====
-- Both clients at concrete answers.
use easycall.Base.{ℕ, ◌≡◌, refl, none, some, [], ◌∷◌, length, ok, text, decimal}
use easycall.Base.Int.{ℤ, pos, itoa, ◌≤ℤ◌}
use easycall.Head.{new_easy_head, set_ret, set_msg}
use easycall.Package.{EasyPackage, Codec, Codecs, decode_body, with_codec, format_json}
use easycall.Replies.{
  error_max_system_code, LogicError, done, system_error, logic_error, error_text, decoded,
  service_reply, easy_reply,
}
use easycall.Replies.Agreement.{without_kind, replies_agree}

-- A body is a number, and its data one byte.
abbrev one_byte : Codec ℕ
one_byte = record {
  encode_head = λ h. ok [];
  encode_body = λ b. ok [];
  decode_head = λ d. ok new_easy_head;
  decode_body = λ d. ok (length d);
}

abbrev codecs : Codecs ℕ
codecs = record { msgpack = one_byte; json = one_byte }

abbrev answer : ℤ → EasyPackage ℕ
answer ret = record {
  format = format_json;
  head = set_msg (set_ret new_easy_head ret) (120 ∷ []);
  body_data = 7 ∷ [];
  pkg_data = [];
  body = none;
}

-- The code of a method that is not found is a system error to one client only.
not_found_service :
    service_reply codecs (some (answer (pos 1002)))
    ≡ system_error (record { ret = pos 1002; msg = 120 ∷ [] })
unfolding service_reply
not_found_service = refl

not_found_easy :
    easy_reply codecs (some (answer (pos 1002)))
    ≡ logic_error (record { ret = pos 1002; msg = 120 ∷ [] })
unfolding easy_reply
not_found_easy = refl

body_read : service_reply codecs (some (answer (pos 0))) ≡ done 1
unfolding service_reply decoded decode_body with_codec
body_read = refl

time_out_text : error_text (pos 1003) (120 ∷ []) ≡ text "Ret=1003,Msg=x"
unfolding error_text text itoa decimal
time_out_text = refl

agrees_at_3000 :
    (without_kind (service_reply codecs (some (answer (pos 3000))))
      ≡ without_kind (easy_reply codecs (some (answer (pos 3000)))))
    × ((e : LogicError)
        → service_reply codecs (some (answer (pos 3000))) ≡ logic_error e
        → error_max_system_code ≤ℤ e.ret)
agrees_at_3000 = replies_agree codecs (some (answer (pos 3000)))
