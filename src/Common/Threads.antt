-- ===== src/Common/Threads.antt =====
-- The addresses of a coordinator thread: OperationThread (common/include/op_threads.hpp) and
-- HandlerThread (common/include/kvs_threads.hpp). Thread numbers are unsigned; a port beyond
-- 2 ^ 32 - 1 is not modelled.
use spheromone.Prelude.{
  ℕ, ◌+◌, ◌<◌, ◌≡◌, ◌++◌, arith, ltb, if◌then◌else◌, sym, ap, ◌∙◌, drop, [], ◌∷◌,
}
use spheromone.Text.{Text, text, to_string, to_string_injective}

-- The sockets that a thread binds.
pub data Service : Type 0 where
  func_create app_regist func_call bucket_op trigger_op : Service
  notify_handler key_query_handler update_handler forward_func : Service

unfoldable pub port : Service → ℕ
port func_create = 5000
port app_regist = 5020
port func_call = 5050
port bucket_op = 7800
port trigger_op = 7900
port notify_handler = 7350
port key_query_handler = 7400
port update_handler = 7750
port forward_func = 4500

-- kBindBase + std::to_string(tid_ + port)
unfoldable pub bind_address : Service → ℕ → Text
bind_address s tid = text "tcp://*:" ++ to_string (tid + port s)

unfoldable pub connect_address : Text → Service → ℕ → Text
connect_address ip s tid = (text "tcp://" ++ ip ++ text ":") ++ to_string (tid + port s)

-- Which socket of a thread below 20 has a port.
service_at : ℕ → Service
service_at n =
    if ltb n 5000
    then forward_func
    else if ltb n 5020
    then func_create
    else if ltb n 5050
    then app_regist
    else if ltb n 7350
    then func_call
    else if ltb n 7400
    then notify_handler
    else if ltb n 7750
    then key_query_handler
    else if ltb n 7800
    then update_handler
    else if ltb n 7900
    then bucket_op
    else trigger_op

service_at-port : (s : Service) (tid : ℕ) → tid < 20 → service_at (tid + port s) ≡ s
unfolding service_at port
service_at-port forward_func tid h = ground arith
service_at-port func_create tid h = ground arith
service_at-port app_regist tid h = ground arith
service_at-port func_call tid h = ground arith
service_at-port notify_handler tid h = ground arith
service_at-port key_query_handler tid h = ground arith
service_at-port update_handler tid h = ground arith
service_at-port bucket_op tid h = ground arith
service_at-port trigger_op tid h = ground arith

same_text : (xs ys zs : Text) → xs ++ ys ≡ xs ++ zs → ys ≡ zs
same_text [] ys zs h = h
same_text (x ∷ xs) ys zs h = same_text xs ys zs (ap (drop 1) h)

-- Among the threads below 20 of a coordinator no two sockets bind the same address, and from an
-- address on the same node both the socket and the thread can be told.
pub bind_address_injective :
    (s t : Service) (i j : ℕ)
    → i < 20
    → j < 20
    → bind_address s i ≡ bind_address t j
    → (s ≡ t) × (i ≡ j)
unfolding bind_address
bind_address_injective s t i j a b h =
    let ports : i + port s ≡ j + port t =
      to_string_injective (i + port s) (j + port t)
        (same_text (text "tcp://*:") (to_string (i + port s)) (to_string (j + port t)) h) in
    let same : s ≡ t = sym (service_at-port s i a) ∙ ap service_at ports ∙ service_at-port t j b in
    (same, omega (arith, ap port same))
