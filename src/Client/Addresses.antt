-- ===== src/Client/Addresses.antt =====
-- Whom a client talks to: include/pheromone_client.h against the threads of the coordinators.
use spheromone.Prelude.{==_refl, ℕ, ◌≡◌, refl, sym, ap, ◌∙◌, some, inl, inr, Option-cases, List}
use spheromone.Prelude.Int.{ℤ}
use spheromone.Text.{Text, text_eq}
use spheromone.HashMap
use spheromone.HashMap.{HashMap}
use spheromone.Trigger.Types.{PrimitiveType}
use spheromone.Trigger.Primitive.{Codecs}
use spheromone.Messages.{DependencyType}
use spheromone.Common.Threads.{connect_address, app_regist, func_call, bucket_op, trigger_op}
use spheromone.Client.{Client, get_coord, register_app, call_app, bucket_request, trigger_request}

-- Each kind of request goes to the socket that the application's coordinator thread has for it.
pub requests_reach_coordinator :
    (codecs : Codecs) (manager : Text → Text × ℕ) (app bucket trigger func : Text)
    (funcs args : List Text) (deps : List (List Text × List Text × DependencyType))
    (type : PrimitiveType) (primitive : HashMap Text Text) (option : ℤ) (c : Client)
    → let thread = (get_coord manager app c).0 in
      ((register_app manager app funcs deps c).0.0 ≡ connect_address thread.0 app_regist thread.1)
      × ((call_app manager app func args c).0.0 ≡ connect_address thread.0 func_call thread.1)
      × ((bucket_request manager app bucket c).0.0 ≡ connect_address thread.0 bucket_op thread.1)
      × ((trigger_request codecs manager app bucket trigger type primitive option c).0.0
          ≡ connect_address thread.0 trigger_op thread.1)
unfolding register_app call_app bucket_request trigger_request connect_address
    spheromone.Common.Threads.port
requests_reach_coordinator codecs manager app bucket trigger func funcs args deps type primitive
      option c =
    (refl, refl, refl, refl)

-- The manager is asked once: whatever it would answer later, the client keeps the thread.
pub get_coord_sticks :
    (m m' : Text → Text × ℕ) (app : Text) (c : Client)
    → get_coord m' app (get_coord m app c).1 ≡ get_coord m app c
unfolding get_coord
get_coord_sticks m m' app c = elim (Option-cases (HashMap.find app c.app_coord)) [
  | inl h ↦
      let known = record c { app_coord = HashMap.put app (m app) c.app_coord } in
      let found : HashMap.find app known.app_coord ≡ some (m app) =
        HashMap.find-put app app (m app) c.app_coord ∙ rw (==_refl app) refl in
      let first : get_coord m app c ≡ (m app, known) = rw (h, get_coord) refl in
      let again : get_coord m' app known ≡ (m app, known) = rw (found, get_coord) refl in
      ap (λ p. get_coord m' app p.1) first ∙ again ∙ sym first
  | inr (thread, h) ↦
      let first : get_coord m app c ≡ (thread, c) = rw (h, get_coord) refl in
      let again : get_coord m' app c ≡ (thread, c) = rw (h, get_coord) refl in
      ap (λ p. get_coord m' app p.1) first ∙ again ∙ sym first
]
