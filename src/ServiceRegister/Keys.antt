-- ===== src/ServiceRegister/Keys.antt =====
-- Two services of one host have different keys in etcd.
use easycall.Base.{
  ℕ, zero, suc, ◌+◌, ◌/◌, ◌%◌, ◌≡◌, refl, sym, ap, ◌∙◌, Bytes, false, ◌∷◌, ◌++◌, append_assoc, drop,
  decimal, arith, has, has-snoc, before_last, append_cancel_right, text,
}
use easycall.Base.Int.{ℤ, pos, negsuc, itoa}
use easycall.ServiceRegister.{nodes_path, node_key}

decimal_no_colon : (fuel n : ℕ) → has 58 (decimal fuel n) ≡ false
unfolding decimal
decimal_no_colon zero n = refl
decimal_no_colon (suc fuel) n =
    ground
      (arith, decimal_no_colon fuel (n / 10), has-snoc 58 (48 + n % 10) (decimal fuel (n / 10)))

itoa_no_colon : (n : ℤ) → has 58 (itoa n) ≡ false
unfolding itoa
itoa_no_colon (pos n) = decimal_no_colon 20 n
itoa_no_colon (negsuc n) = decimal_no_colon 20 (suc n)

-- The key without the path of all services, up to the last colon.
node_key-drop :
    (name ip : Bytes) (port : ℤ)
    → drop 19 (node_key name ip port)
      ≡ (name ++ (text "/nodes" ++ (text "/" ++ ip))) ++ 58 ∷ itoa port
unfolding node_key nodes_path text
node_key-drop name ip port =
    let p = text "/nodes" ++ (text "/" ++ ip) in
    append_assoc name (text "/nodes") (47 ∷ (ip ++ 58 ∷ itoa port))
    ∙ sym (append_assoc name p (58 ∷ itoa port))

pub node_key_inj :
    (name name' ip : Bytes) (port port' : ℤ)
    → node_key name ip port ≡ node_key name' ip port'
    → name ≡ name'
node_key_inj name name' ip port port' e =
    append_cancel_right name name' (text "/nodes" ++ (text "/" ++ ip)) (
      before_last 58 (name ++ (text "/nodes" ++ (text "/" ++ ip)))
        (name' ++ (text "/nodes" ++ (text "/" ++ ip))) (itoa port) (itoa port') (itoa_no_colon port)
        (itoa_no_colon port')
        (sym (node_key-drop name ip port) ∙ ap (drop 19) e ∙ node_key-drop name' ip port'))
