-- ===== src/Package/Sample.antt =====
-- A codec for tests, which reads back what it writes.
use easycall.Base.{
  ℕ, zero, suc, sym, ◌≡◌, refl, subst, Bytes, some, none, [], ◌∷◌, ◌++◌, length, take, drop,
  take-append, drop-append, Outcome, ok, err, ◌>>=◌,
}
use easycall.Base.Int.{ℤ, pos, negsuc}
use easycall.Head.{EasyHead}
use easycall.Package.{Codec, Codecs}
use easycall.Package.RoundTrip.{IsCodec}

-- A text with its length in front.
abbrev pub field : Bytes → Bytes → Bytes
field x rest = length x ∷ (x ++ rest)

abbrev pub read_field : Bytes → Outcome (Bytes × Bytes)
read_field [] = err []
read_field (n ∷ rest) = ok (take n rest, drop n rest)

abbrev pub write_int : ℤ → Bytes
write_int (pos n) = 0 ∷ n ∷ []
write_int (negsuc n) = 1 ∷ n ∷ []

abbrev pub read_int : Bytes → Outcome ℤ
read_int (zero ∷ n ∷ []) = ok (pos n)
read_int (suc _ ∷ n ∷ []) = ok (negsuc n)
read_int _ = err []

unfoldable pub write_head : EasyHead → Bytes
write_head h =
    h.uid
    ∷ h.seq
    ∷ field h.service (
        field h.method (
          field h.route_key (
            field h.token (field h.request_ip (field h.trace_id (field h.msg (write_int h.ret)))))))

unfoldable pub read_numbers : Bytes → Outcome (ℕ × ℕ × Bytes)
read_numbers (uid ∷ seq ∷ rest) = ok (uid, seq, rest)
read_numbers _ = err []

unfoldable pub read_head : Bytes → Outcome EasyHead
unfolding read_numbers
read_head d = do
  (uid, seq, a) ← read_numbers d
  (service, b) ← read_field a
  (method, c) ← read_field b
  (route_key, e) ← read_field c
  (token, f) ← read_field e
  (request_ip, g) ← read_field f
  (trace_id, h) ← read_field g
  (msg, i) ← read_field h
  ret ← read_int i
  ok (record {
    service = service;
    method = method;
    route_key = route_key;
    token = token;
    uid = uid;
    request_ip = request_ip;
    trace_id = trace_id;
    seq = seq;
    ret = ret;
    msg = msg;
  })

read_write_int : (z : ℤ) → read_int (write_int z) ≡ ok z
read_write_int (pos n) = refl
read_write_int (negsuc n) = refl

read-write_head : (h : EasyHead) → read_head (write_head h) ≡ ok h
unfolding read_head write_head
read-write_head h = simp (take-append, drop-append, read_write_int)

abbrev pub plain : Codec Bytes
plain = record {
  encode_head = λ h. ok (write_head h);
  encode_body = λ b. elim b [ none ↦ ok [] | some d ↦ ok d ];
  decode_head = read_head;
  decode_body = λ d. ok d;
}

pub plain-IsCodec : IsCodec plain
plain-IsCodec = record {
  heads = λ h d e. subst (λ o. (o >>= read_head) ≡ ok h) e (read-write_head h);
  bodies = λ b d e. sym e;
}

abbrev pub codecs : Codecs Bytes
codecs = record { msgpack = plain; json = plain }
