-- ===== src/Client.antt =====
-- PheromoneClient (include/pheromone_client.h): the requests of a client. The answers that it waits
-- for are arguments, and the sockets are left out.
pub mod Addresses
use spheromone.Prelude.{ℕ, ◌+◌, none, some, List, [], ◌∷◌, ◌++◌, map, nat_eq, if◌then◌else◌}
use spheromone.Prelude.Int.{ℤ, uint32_of_int}
use spheromone.Text.{Text, text, text_eq, to_string, empty}
use spheromone.HashMap
use spheromone.HashMap.{HashMap}
use spheromone.Common.Split.{split}
use spheromone.Trigger.Types.{PrimitiveType}
use spheromone.Trigger.Primitive.{Codecs}
use spheromone.Messages.{
  AppRegistration, DataDependency, DependencyType, FunctionCall, empty_call, FunctionRequest,
  Argument, BucketOperationRequest, create_bucket, TriggerOperationRequest, add_trigger,
}

abbrev pub bucket_req_port : ℕ
bucket_req_port = 12070

abbrev pub bucket_op_port : ℕ
bucket_op_port = 7800

abbrev pub trigger_req_port : ℕ
trigger_req_port = 12170

abbrev pub trigger_op_port : ℕ
trigger_op_port = 7900

-- OperationRequestThread
unfoldable pub bucket_req_connect_addr : Text → ℕ → Text
bucket_req_connect_addr ip thread_id =
    text "tcp://" ++ ip ++ text ":" ++ to_string (bucket_req_port + thread_id)

unfoldable pub bucket_req_bind_address : ℕ → Text
bucket_req_bind_address thread_id = text "tcp://*:" ++ to_string (bucket_req_port + thread_id)

unfoldable pub trigger_req_connect_addr : Text → ℕ → Text
trigger_req_connect_addr ip thread_id =
    text "tcp://" ++ ip ++ text ":" ++ to_string (trigger_req_port + thread_id)

unfoldable pub trigger_req_bind_address : ℕ → Text
trigger_req_bind_address thread_id = text "tcp://*:" ++ to_string (trigger_req_port + thread_id)

-- The state of a PheromoneClient.
pub record Client : Type 0 where
  pub manager_ip : Text
  pub thread_id : ℕ
  pub req_id : ℕ
  pub app_coord : HashMap Text (Text × ℕ)

unfoldable pub new_client : Text → ℕ → Client
new_client ip thread_id = record {
  manager_ip = ip;
  thread_id = thread_id;
  req_id = 0;
  app_coord = [];
}

unfoldable pub client_request_id : Client → Text × Client
client_request_id c = (to_string c.req_id, record c { req_id = c.req_id + 1 })

-- get_coord: the manager, given as what it answers, is asked once for each application.
unfoldable pub get_coord : (Text → Text × ℕ) → Text → Client → (Text × ℕ) × Client
get_coord manager app c = elim (HashMap.find app c.app_coord) [
  | some thread ↦ (thread, c)
  | none ↦ (manager app, record c { app_coord = HashMap.put app (manager app) c.app_coord })
]

abbrev pub address_of : Text × ℕ → ℕ → Text
address_of (ip, tid) port = text "tcp://" ++ ip ++ text ":" ++ to_string (tid + port)

abbrev pub dependency_of : List Text × List Text × DependencyType → DataDependency
dependency_of (src, tgt, type) = record {
  type = type;
  src_functions = src;
  tgt_functions = tgt;
  description = [];
}

-- The address and the message.
unfoldable pub register_app :
    (Text → Text × ℕ)
    → Text
    → List Text
    → List (List Text × List Text × DependencyType)
    → Client
    → (Text × AppRegistration) × Client
unfolding get_coord
register_app manager app funcs deps c =
    let (thread, c') = get_coord manager app c in
    let msg : AppRegistration = record {
      app_name = app;
      functions = funcs;
      dependencies = map dependency_of deps;
    } in
    ((address_of thread 5020, msg), c')

abbrev pub call_argument : Text → Argument
call_argument body = record { body = body; arg_flag = 0; data_address = [] }

unfoldable pub call_app :
    (Text → Text × ℕ) → Text → Text → List Text → Client → (Text × FunctionCall) × Client
unfolding get_coord
call_app manager app func args c =
    let (thread, c') = get_coord manager app c in
    let request : FunctionRequest = record { name = func; arguments = map call_argument args } in
    ((address_of thread 5050, record empty_call { app_name = app; requests = request ∷ [] }), c')

-- strtok_r at blanks: empty words are skipped.
unfoldable pub words : List Text → List Text
words [] = []
words (w ∷ ws) = let rest = words ws in if empty w then rest else w ∷ rest

-- The configurations that a client can write: the others stay empty.
unfoldable pub client_primitive : Codecs → PrimitiveType → HashMap Text Text → Text
unfolding words
client_primitive codecs PrimitiveType.immediate p =
    codecs.immediate.serialize (record { function = HashMap.get_or (text "function") p [] })
client_primitive codecs PrimitiveType.by_set p = codecs.by_set.serialize (record {
  function = HashMap.get_or (text "function") p [];
  key_set = words (split b' ' (HashMap.get_or (text "key_name") p []));
})
client_primitive codecs _ p = []

unfoldable pub trigger_request :
    Codecs
    → (Text → Text × ℕ)
    → Text
    → Text
    → Text
    → PrimitiveType
    → HashMap Text Text
    → ℤ
    → Client
    → (Text × TriggerOperationRequest) × Client
unfolding get_coord client_request_id trigger_req_connect_addr client_primitive
trigger_request codecs manager app bucket trigger type primitive option c =
    let (thread, c1) = get_coord manager app c in
    let (id, c2) = client_request_id c1 in
    let req : TriggerOperationRequest = record {
      operation_type = add_trigger;
      app_name = app;
      bucket_name = bucket;
      trigger_name = trigger;
      trigger_option = uint32_of_int option;
      primitive_type = type;
      primitive = client_primitive codecs type primitive;
      request_id = id;
      response_address = trigger_req_connect_addr c.manager_ip c.thread_id;
      hints = [];
    } in
    ((address_of thread trigger_op_port, req), c2)

unfoldable pub bucket_request :
    (Text → Text × ℕ) → Text → Text → Client → (Text × BucketOperationRequest) × Client
unfolding get_coord client_request_id bucket_req_connect_addr
bucket_request manager app bucket c =
    let (thread, c1) = get_coord manager app c in
    let (id, c2) = client_request_id c1 in
    let req : BucketOperationRequest = record {
      operation_type = create_bucket;
      app_name = app;
      bucket_name = bucket;
      request_id = id;
      response_address = bucket_req_connect_addr c.manager_ip c.thread_id;
    } in
    ((address_of thread bucket_op_port, req), c2)
